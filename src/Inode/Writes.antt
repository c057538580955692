-- ===== src/Inode/Writes.antt =====
-- The loop of `inode_write_at` inside the file: it changes the bytes that it is given a place for.
use operating_system_pl_nt.Prelude.{
  ℕ, ◌+◌, ◌-◌, ◌/◌, ◌%◌, ◌<◌, ◌≤◌, ◌≡◌, ◌≢◌, refl, sym, ap, ◌∙◌, inl, inr, false, ◌&&◌, ltb, leb,
  if◌then◌else◌, length, get_or, arith, Bool-cases, get_or-splice, eq→==,
}
use native.Mathlib.Decide.{ℕ_discrete}
use operating_system_pl_nt.Block.{Bytes, block_sector_size}
use operating_system_pl_nt.Cache.{BufferCache, splice, no_sector}
use operating_system_pl_nt.Cache.Valid.{IsValid, view, view-length}
use operating_system_pl_nt.Cache.Gets.{Same, in_range}
use operating_system_pl_nt.Cache.Refines.{Writes}
use operating_system_pl_nt.InodeDisk.{InodeDisk, direct_count}
use operating_system_pl_nt.Inode.{bytes_to_sectors}
use operating_system_pl_nt.Inode.Index.{sector_of}
use operating_system_pl_nt.Inode.Reads.{byte_at, IsPlaced}

-- No two sectors of the file are the same, and none is its block of numbers.
pub record IsSeparate (disk : InodeDisk) (c : BufferCache) (n : ℕ) : Type 0 where
  pub distinct : (i j : ℕ) → i < n → j < n → sector_of disk c i ≡ sector_of disk c j → i ≡ j
  pub table : direct_count < n → (i : ℕ) → i < n → sector_of disk c i ≢ disk.indirect_block

-- The file `old` with `size` bytes of `buffer` from `offset` on.
abbrev pub overlay : Bytes → ℕ → ℕ → (ℕ → ℕ) → ℕ → ℕ
overlay buffer size offset old p =
    if leb offset p && ltb p (offset + size) then get_or buffer (p - offset) 0 else old p

-- The cache after a write to the file.
pub record Wrote (disk : InodeDisk) (c c' : BufferCache) (f : ℕ → ℕ) : Type 0 where
  pub valid : IsValid c'
  pub size_eq : c'.fs_device.size ≡ c.fs_device.size
  pub sector_eq :
      (i : ℕ) → i < bytes_to_sectors disk.file_length → sector_of disk c' i ≡ sector_of disk c i
  pub byte_eq : (p : ℕ) → p < disk.file_length → byte_at disk c' p ≡ f p
  pub others :
      (t : ℕ)
      → t ≢ no_sector
      → ((i : ℕ) → i < bytes_to_sectors disk.file_length → sector_of disk c i ≢ t)
      → view c' t ≡ view c t

module _ {disk : InodeDisk} {c c' : BufferCache} {f : ℕ → ℕ} (l : IsPlaced disk c)
    (u : IsSeparate disk c (bytes_to_sectors disk.file_length)) (w : Wrote disk c c' f) where
  pub Wrote-IsPlaced : IsPlaced disk c'
  Wrote-IsPlaced = record {
    few = l.few;
    direct_length = l.direct_length;
    indirect_bound = λ h. omega (arith, l.indirect_bound h, w.size_eq);
    bound = λ i h. omega (arith, l.bound i h, w.sector_eq i h, w.size_eq);
  }

  pub Wrote-IsSeparate : IsSeparate disk c' (bytes_to_sectors disk.file_length)
  Wrote-IsSeparate = record {
    distinct = λ i j h k e. u.distinct i j h k (sym (w.sector_eq i h) ∙ e ∙ w.sector_eq j k);
    table = λ many i h e. u.table many i h (sym (w.sector_eq i h) ∙ e);
  }

-- The bytes of one sector, by their places in the file.
module _ (n offset p : ℕ) where
  same_order :
      p / block_sector_size ≡ offset / block_sector_size
      → leb (offset % block_sector_size) (p % block_sector_size) ≡ leb offset p
  same_order e = ground arith

  same_end :
      p / block_sector_size ≡ offset / block_sector_size
      → ltb (p % block_sector_size) (offset % block_sector_size + n) ≡ ltb p (offset + n)
  same_end e = ground arith

  same_distance :
      p / block_sector_size ≡ offset / block_sector_size
      → p % block_sector_size - offset % block_sector_size ≡ p - offset
  same_distance e = omega arith

  elsewhere :
      p / block_sector_size ≢ offset / block_sector_size
      → offset % block_sector_size + n ≤ block_sector_size
      → (leb offset p && ltb p (offset + n)) ≡ false
  elsewhere e room = ground arith

-- A chunk of the file in one sector.
module _ (disk : InodeDisk) (c c1 c2 : BufferCache) (buffer : Bytes) (n offset : ℕ) (v : IsValid c)
    (l : IsPlaced disk c) (u : IsSeparate disk c (bytes_to_sectors disk.file_length))
    (same : Same c c1) (inside : offset + n ≤ disk.file_length) (some_bytes : 0 < n)
    (room : offset % block_sector_size + n ≤ block_sector_size) (given : n ≤ length buffer)
    (w : Writes c1 c2 (sector_of disk c (offset / block_sector_size)) (
      splice
        (offset % block_sector_size)
        n
        buffer
        (view c (sector_of disk c (offset / block_sector_size))))) where
  abbrev here : ℕ
  here = sector_of disk c (offset / block_sector_size)

  here_bound : offset / block_sector_size < bytes_to_sectors disk.file_length
  here_bound = omega arith

  other_sector : (t : ℕ) → t ≢ no_sector → here ≢ t → view c2 t ≡ view c t
  other_sector t valid n = w.view_eq t valid ∙ ground (arith, same.view_eq t valid)

  sector_kept :
      (i : ℕ) → i < bytes_to_sectors disk.file_length → sector_of disk c2 i ≡ sector_of disk c i
  unfolding sector_of
  sector_kept i h = elim (Bool-cases (ltb i direct_count)) [
    | inl direct ↦ simp (direct, sector_of)
    | inr indirect ↦
        let many : direct_count < bytes_to_sectors disk.file_length = ground arith in
        simp (
          indirect,
          sector_of,
          other_sector disk.indirect_block (in_range disk.indirect_block v (l.indirect_bound many))
              (u.table many (offset / block_sector_size) here_bound),
        )
  ]

  byte_written :
      (p : ℕ)
      → p < disk.file_length
      → byte_at disk c2 p ≡ overlay buffer n offset (byte_at disk c) p
  unfolding byte_at
  byte_written p h = elim (ℕ_discrete (p / block_sector_size) (offset / block_sector_size)) [
    | yes e ↦
        let bytes : Bytes = view c here in
        let start : ℕ = offset % block_sector_size in
        let sector_eq : sector_of disk c2 (p / block_sector_size) ≡ here =
          sector_kept (p / block_sector_size) (omega arith) ∙ ap (sector_of disk c) e in
        let stored : view c2 here ≡ splice start n buffer bytes =
          w.view_eq here (in_range here v (l.bound (offset / block_sector_size) here_bound))
          ∙ simp (eq→== here here refl) in
        simp (sector_eq, stored)
          (get_or-splice 0 start n (p % block_sector_size) buffer bytes
              (omega (arith, room, view-length here v)) given
            ∙ rw (
              same_order n offset p e,
              same_end n offset p e,
              same_distance n offset p e,
              sym (ap (sector_of disk c) e),
            ))
    | no e ↦
        let index : ℕ = p / block_sector_size in
        let index_bound : index < bytes_to_sectors disk.file_length = omega arith in
        let apart : here ≢ sector_of disk c index =
          (λ z. e (u.distinct index (offset / block_sector_size) index_bound here_bound (sym z))) in
        simp (
          sector_kept index index_bound,
          other_sector (sector_of disk c index)
              (in_range (sector_of disk c index) v (l.bound index index_bound)) apart,
          elsewhere n offset p e room,
        )
  ]

  pub chunk-Wrote : Wrote disk c c2 (overlay buffer n offset (byte_at disk c))
  chunk-Wrote = record {
    valid = w.valid;
    size_eq = w.size_eq ∙ same.size_eq;
    sector_eq = sector_kept;
    byte_eq = byte_written;
    others = λ t valid apart. other_sector t valid (apart (offset / block_sector_size) here_bound);
  }
