-- ===== src/Directory/Adds.antt =====
-- Entries of a directory that are written over others.
use operating_system_pl_nt.Prelude.{
  ℕ, ◌+◌, ◌-◌, ◌*◌, ◌^◌, ◌<◌, ◌≤◌, ◌≡◌, ◌≢◌, sym, ap, ◌∙◌, true, false, ◌&&◌, List, ltb, leb,
  length, get_or, arith, list_ext,
}
use operating_system_pl_nt.Block.{Bytes}
use operating_system_pl_nt.Cache.{BufferCache}
use operating_system_pl_nt.Cache.Valid.{IsValid}
use operating_system_pl_nt.Cache.Gets.{Same}
use operating_system_pl_nt.InodeDisk.{InodeDisk}
use operating_system_pl_nt.Inode.{Inode, bytes_to_sectors}
use operating_system_pl_nt.Inode.Reads.{
  byte_at, byte_at-same, IsPlaced, IsLaidOut-same, sector_of-same,
}
use operating_system_pl_nt.Inode.Writes.{
  IsSeparate, Wrote, Wrote-IsPlaced, Wrote-IsSeparate, overlay,
}
use operating_system_pl_nt.Directory.{
  DirEntry, name_max, entry_size, entry_from, entry_bytes, write_name,
}
use operating_system_pl_nt.Directory.Lookups.{
  bytes_from, bytes_from-length, get_or-bytes_from, entry,
}
use operating_system_pl_nt.Directory.Searches.{rows}
use operating_system_pl_nt.Directory.Slots.{entry_bytes-length, entry_from-bytes}

-- Entries over equal bytes.
pub entry-eq :
    (f g : ℕ → ℕ) (k : ℕ)
    → ((p : ℕ) → k * entry_size ≤ p → p < k * entry_size + entry_size → g p ≡ f p)
    → entry g k ≡ entry f k
entry-eq f g k same = ap entry_from (
    list_ext 0 (bytes_from g entry_size (k * entry_size)) (bytes_from f entry_size (k * entry_size))
      (bytes_from-length g entry_size (k * entry_size)
        ∙ sym (bytes_from-length f entry_size (k * entry_size)))
      (λ j h.
        let small : j < entry_size =
          omega (arith, h, bytes_from-length g entry_size (k * entry_size)) in
        get_or-bytes_from g entry_size (k * entry_size) j small
        ∙ same (k * entry_size + j) (omega arith) (omega arith)
        ∙ sym (get_or-bytes_from f entry_size (k * entry_size) j small)))

-- The bytes written are a row.
written_row :
    (g : ℕ → ℕ) (k : ℕ) (e : DirEntry)
    → length e.name ≡ name_max + 1
    → e.inode_sector < 2 ^ 32
    → ((j : ℕ) → j < entry_size → g (k * entry_size + j) ≡ get_or (entry_bytes e) j 0)
    → entry g k ≡ e
written_row g k e whole small same =
    ap entry_from (
      list_ext 0 (bytes_from g entry_size (k * entry_size)) (entry_bytes e)
        (bytes_from-length g entry_size (k * entry_size) ∙ sym (entry_bytes-length e whole))
        (λ j h.
          let short : j < entry_size =
            omega (arith, h, bytes_from-length g entry_size (k * entry_size)) in
          get_or-bytes_from g entry_size (k * entry_size) j short ∙ same j short))
    ∙ entry_from-bytes e whole small

overlay-inside :
    (buffer : Bytes) (size ofs j : ℕ) (old : ℕ → ℕ)
    → j < size
    → overlay buffer size ofs old (ofs + j) ≡ get_or buffer j 0
overlay-inside buffer size ofs j old h =
    let place : ofs + j - ofs ≡ j = omega arith in
    let inside : (leb ofs (ofs + j) && ltb (ofs + j) (ofs + size)) ≡ true = ground arith in
    simp inside (ap (λ k. get_or buffer k 0) place)

overlay-outside :
    (buffer : Bytes) (i k p : ℕ) (old : ℕ → ℕ)
    → i ≢ k
    → i * entry_size ≤ p
    → p < i * entry_size + entry_size
    → overlay buffer entry_size (k * entry_size) old p ≡ old p
overlay-outside buffer i k p old other low high =
    let outside : (leb (k * entry_size) p && ltb p (k * entry_size + entry_size)) ≡ false =
      ground arith in
    simp outside

pub IsSeparate-Same :
    (disk : InodeDisk) (c c' : BufferCache)
    → IsValid c
    → IsPlaced disk c
    → Same c c'
    → IsSeparate disk c (bytes_to_sectors disk.file_length)
    → IsSeparate disk c' (bytes_to_sectors disk.file_length)
IsSeparate-Same disk c c' v l same u = record {
  distinct = λ i j h k e.
      u.distinct i j h k (sym (sector_of-same v l same i h) ∙ e ∙ sector_of-same v l same j k);
  table = λ many i h e. u.table many i h (sym (sector_of-same v l same i h) ∙ e);
}

-- The entry that is written over another.
abbrev pub new_entry : ℕ → List ℕ → DirEntry → DirEntry
new_entry sector name old = record {
  inode_sector = sector;
  name = write_name name old.name;
  in_use = true;
}

-- The directory with a new entry in slot `k`.
pub record Added (inode : Inode) (c c' : BufferCache) (k : ℕ) (e : DirEntry) : Type 0 where
  pub valid : IsValid c'
  pub placed : IsPlaced inode.disk c'
  pub separate : IsSeparate inode.disk c' (bytes_to_sectors inode.disk.file_length)
  pub added : entry (byte_at inode.disk c') k ≡ e
  pub others :
      (i : ℕ)
      → i < rows inode
      → i ≢ k
      → entry (byte_at inode.disk c') i ≡ entry (byte_at inode.disk c) i

pub added_lem :
    (inode : Inode) (c c2 c3 : BufferCache) (k : ℕ) (e : DirEntry)
    → IsValid c
    → IsPlaced inode.disk c
    → IsSeparate inode.disk c (bytes_to_sectors inode.disk.file_length)
    → Same c c2
    → k < rows inode
    → length e.name ≡ name_max + 1
    → e.inode_sector < 2 ^ 32
    → Wrote inode.disk c2 c3
        (overlay (entry_bytes e) entry_size (k * entry_size) (byte_at inode.disk c2))
    → Added inode c c3 k e
added_lem inode c c2 c3 k e v l u same inside whole small w = record {
  valid = w.valid;
  placed = Wrote-IsPlaced (IsLaidOut-same v l same) (IsSeparate-Same inode.disk c c2 v l same u) w;
  separate =
      Wrote-IsSeparate (IsLaidOut-same v l same) (IsSeparate-Same inode.disk c c2 v l same u) w;
  added = written_row (byte_at inode.disk c3) k e whole small (λ j h.
      w.byte_eq (k * entry_size + j) (omega (arith, inside, h))
      ∙ overlay-inside (entry_bytes e) entry_size (k * entry_size) j (byte_at inode.disk c2) h);
  others = λ i h other. entry-eq (byte_at inode.disk c) (byte_at inode.disk c3) i (λ p low high.
      w.byte_eq p (omega (arith, h, high))
      ∙ overlay-outside (entry_bytes e) i k p (byte_at inode.disk c2) other low high
      ∙ byte_at-same v l same p (omega (arith, h, high)));
}
