-- ===== src/Directory/Adding.antt =====
-- `dir_add` writes the entry of a file into the first free slot.
use operating_system_pl_nt.Prelude.{
  ℕ, ◌+◌, ◌*◌, ◌^◌, ◌<◌, ◌≤◌, ◌≡◌, ◌==◌, refl, ap, ◌∙◌, Bool, true, false, ◌&&◌, ◌||◌, Option, none,
  some, List, ltb, length, Outcome, ok, arith,
}
use operating_system_pl_nt.Block.{Bytes}
use operating_system_pl_nt.Bitmap.{Bitmap}
use operating_system_pl_nt.Cache.{BufferCache}
use operating_system_pl_nt.Cache.Valid.{IsValid}
use operating_system_pl_nt.Cache.Gets.{Same-trans}
use operating_system_pl_nt.Inode.{Inode, Inodes, bytes_to_sectors, inode_at}
use operating_system_pl_nt.Inode.Space.{Fs, inode_write_at}
use operating_system_pl_nt.Inode.Reads.{byte_at, byte_at-same, IsPlaced, IsLaidOut-same}
use operating_system_pl_nt.Inode.Writes.{IsSeparate}
use operating_system_pl_nt.Inode.Overlays.{inode_write_at-Wrote}
use operating_system_pl_nt.Directory.{
  Dir, DirEntry, name_max, entry_size, entry_from, entry_bytes, rounds, lookup, slot_loop,
}
use operating_system_pl_nt.Directory.Updates.{dir_add}
use operating_system_pl_nt.Directory.Lookups.{
  bytes_from, entry, holds, search, field_length, same_name,
}
use operating_system_pl_nt.Directory.Searches.{search-none, search-at, rows, lookup-search}
use operating_system_pl_nt.Directory.Slots.{
  slot_loop-first, write_name-length, entry_bytes-length, same_name-write,
}
use operating_system_pl_nt.Directory.Adds.{Added, IsSeparate-Same, added_lem, new_entry}

module _ {F : Type 0} (bitmap_write : Bitmap → F → Inodes → Outcome (Bool × Inodes)) where
  -- The calls of `dir_add` one after the other.
  add_runs :
      (dir : Dir) (name : List ℕ) (sector ofs : ℕ) (junk bytes : Bytes) (dots : Bytes × Bytes)
      (inode_memory : Option ℕ) (memory : Bool) (s s' : Fs F) (inode : Inode) (c1 c2 : BufferCache)
      → ((length name == 0) || ltb name_max (length name)) ≡ false
      → s.rest.inodes dir.inode ≡ some inode
      → lookup dir name s.rest ≡ ok (none, record s.rest { cache = c1 })
      → slot_loop (rounds inode) inode junk 0 c1 ≡ ok (bytes, ofs, c2)
      → inode_write_at bitmap_write dir.inode
          (entry_bytes (new_entry sector name (entry_from bytes)))
          entry_size
          ofs
          (record s { rest = record s.rest { cache = c2 } })
        ≡ ok (entry_size, s')
      → dir_add bitmap_write dir name sector false junk dots inode_memory memory s ≡ ok (true, s')
  unfolding dir_add inode_at
  add_runs dir name sector ofs junk bytes dots inode_memory memory s s' inode c1 c2 named at looks
        slots writes =
      simp (named, looks, at, slots, writes, dir_add, inode_at)

-- What a call that adds a file finds.
module _ {F : Type 0} (bitmap_write : Bitmap → F → Inodes → Outcome (Bool × Inodes)) (dir : Dir)
    (name : List ℕ) (sector k : ℕ) (junk : Bytes) (dots : Bytes × Bytes) (inode_memory : Option ℕ)
    (memory : Bool) (s : Fs F) (inode : Inode) (at : s.rest.inodes dir.inode ≡ some inode)
    (allowed : inode.deny_write_cnt ≡ 0) (v : IsValid s.rest.cache)
    (l : IsPlaced inode.disk s.rest.cache)
    (u : IsSeparate inode.disk s.rest.cache (bytes_to_sectors inode.disk.file_length))
    (some_name : 0 < length name) (short : length name ≤ name_max) (small : sector < 2 ^ 32)
    (size : length junk ≡ entry_size) (inside : k < rows inode)
    (used : ((i : ℕ) → i < k → (entry (byte_at inode.disk s.rest.cache) i).in_use ≡ true))
    (free : (entry (byte_at inode.disk s.rest.cache) k).in_use ≡ false)
    (absent : ((i : ℕ)
      → i < rows inode
      → holds (byte_at inode.disk s.rest.cache) name i ≡ false)) where
  -- In a directory with a valid cache and at most 251 sectors on the device, all different, that
  -- may be written: a file is added under a name of 1 to 14 characters, which no entry in use has,
  -- in the first slot that is free, if one is. The call returns true. That entry is then in use,
  -- with the name and the sector given, and the other entries have not changed.
  pub dir_add-Added :
      (c' : BufferCache) × (dir_add bitmap_write dir name sector false junk dots inode_memory memory
          s
        ≡ ok (true, record s { rest = record s.rest { cache = c' } }))
      × Added inode s.rest.cache c' k
          (new_entry sector name (entry (byte_at inode.disk s.rest.cache) k))
  dir_add-Added =
      let c : BufferCache = s.rest.cache in
      let f : ℕ → ℕ = byte_at inode.disk c in
      let e : DirEntry = new_entry sector name (entry f k) in
      let whole : length e.name ≡ name_max + 1 =
        write_name-length name (entry f k).name short (field_length f k) in
      let (c1, looks, same1) = lookup-search dir name s.rest inode f at v l short (λ p h. refl) in
      let nothing =
        search-none f name (rows inode) 0 (λ i low high. absent i (omega (arith, high))) in
      let l1 = IsLaidOut-same v l same1 in
      let here : 0 + k ≡ k = omega arith in
      let (c2, slots, same2) =
        slot_loop-first k (rounds inode) inode f 0 junk c1 (omega arith) size same1.valid l1
          (λ p h. byte_at-same v l same1 p h) (omega arith)
          (λ i low high. used i (omega (arith, high))) (ap (λ i. (entry f i).in_use) here ∙ free) in
      let slots' =
        slots ∙ ap (λ i. ok (bytes_from f entry_size (i * entry_size), i * entry_size, c2)) here in
      let same = Same-trans same1 same2 in
      let s2 : Fs F = record s { rest = record s.rest { cache = c2 } } in
      let full : length (entry_bytes e) ≡ entry_size = entry_bytes-length e whole in
      let (c3, writes, w) =
        inode_write_at-Wrote bitmap_write dir.inode (entry_bytes e) entry_size (k * entry_size) s2
          inode at allowed same.valid (IsLaidOut-same v l same)
          (IsSeparate-Same inode.disk c c2 v l same u) (omega (arith, inside))
          (omega (arith, full)) in
      let named : ((length name == 0) || ltb name_max (length name)) ≡ false =
        ground (arith, some_name, short) in
      (
        c3,
        add_runs bitmap_write dir name sector (k * entry_size) junk
            (bytes_from f entry_size (k * entry_size)) dots inode_memory memory s
            (record s { rest = record s.rest { cache = c3 } }) inode c1 c2 named at
            (looks ∙ ap (λ r. ok (r, record s.rest { cache = c1 })) nothing) slots' writes,
        added_lem inode c c2 c3 k e v l u same inside whole small w,
      )

  -- Under the conditions of `dir_add-Added`, the name is found after the call, with the sector
  -- given.
  pub lookup-dir_add :
      (s' : Fs F) × (dir_add bitmap_write dir name sector false junk dots inode_memory memory s
        ≡ ok (true, s'))
      × ((e : DirEntry) × (ofs : ℕ) × (s'' : Inodes) × (lookup dir name s'.rest
            ≡ ok (some (e, ofs), s''))
          × (e.inode_sector ≡ sector)
          × (ofs ≡ k * entry_size))
  lookup-dir_add =
      let (c', adds, a) = dir_add-Added in
      let f : ℕ → ℕ = byte_at inode.disk s.rest.cache in
      let g : ℕ → ℕ = byte_at inode.disk c' in
      let (c'', looks, _) =
        lookup-search dir name (record s.rest { cache = c' }) inode g at a.valid a.placed short
          (λ p h. refl) in
      let found : search g name (rows inode) 0 ≡ some (entry g k, k * entry_size) =
        search-at g name (rows inode) 0 k (omega arith) (omega (arith, inside))
          (ap (λ e. e.in_use && same_name e.name name) a.added
            ∙ same_name-write name (entry f k).name short)
          (λ i low below.
            ap (λ e. e.in_use && same_name e.name name)
              (a.others i (omega (arith, below, inside)) (λ z. absurd (omega (arith, below, z))))
            ∙ absent i (omega (arith, below, inside))) in
      (
        record s { rest = record s.rest { cache = c' } },
        adds,
        (
          entry g k,
          k * entry_size,
          record s.rest { cache = c'' },
          looks ∙ ap (λ r. ok (r, record s.rest { cache = c'' })) found,
          ap (λ e. e.inode_sector) a.added,
          refl,
        ),
      )
