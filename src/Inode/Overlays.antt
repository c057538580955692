-- ===== src/Inode/Overlays.antt =====
-- `inode_write_at` inside a file, and what is read afterwards.
use operating_system_pl_nt.Prelude.{
  ℕ, zero, suc, ◌+◌, ◌-◌, ◌/◌, ◌%◌, ◌<◌, ◌≤◌, ◌≡◌, refl, sym, ap, ◌∙◌, inl, inr, Bool, true, false,
  some, ◌&&◌, ltb, leb, if◌then◌else◌, length, get_or, take, drop, ok, Outcome, arith, Bool-cases,
  length-drop, length-take, get_or-drop, get_or-take, list_ext, eq→==, ne→==,
}
use mathlib.Core.Path.{subst}
use operating_system_pl_nt.Block.{Bytes, block_sector_size}
use operating_system_pl_nt.Bitmap.{Bitmap}
use operating_system_pl_nt.Cache.{BufferCache, splice}
use operating_system_pl_nt.Cache.Valid.{IsValid, view}
use operating_system_pl_nt.Cache.Gets.{in_range}
use operating_system_pl_nt.Cache.Refines.{Writes, buffer_cache_write-refines}
use operating_system_pl_nt.InodeDisk.{InodeDisk}
use operating_system_pl_nt.Inode.{
  Inode, Inodes, inode_at, bytes_to_sectors, chunk, write_loop, inode_read_at,
}
use operating_system_pl_nt.Inode.Index.{sector_of}
use operating_system_pl_nt.Inode.Reads.{
  byte_at, IsPlaced, byte_to_sector-lem, chunk_bounds, inode_read_at-Reads,
}
use operating_system_pl_nt.Inode.Space.{Fs, inode_write_at, extend}
use operating_system_pl_nt.Inode.Writes.{
  IsSeparate, overlay, Wrote, Wrote-IsPlaced, Wrote-IsSeparate, chunk-Wrote,
}

abbrev Separate : InodeDisk → BufferCache → Type 0
Separate disk c = IsSeparate disk c (bytes_to_sectors disk.file_length)

-- The loop writes the bytes and ends.
abbrev Ends : ℕ → InodeDisk → Bytes → ℕ → ℕ → BufferCache → Type 0
Ends fuel disk buffer size offset c =
    (c' : BufferCache) × (write_loop fuel disk buffer size offset c ≡ ok (size, offset + size, c'))
    × Wrote disk c c' (overlay buffer size offset (byte_at disk c))

nothing_written :
    (fuel : ℕ) (disk : InodeDisk) (buffer : Bytes) (offset : ℕ) (c : BufferCache)
    → IsValid c
    → Ends (suc fuel) disk buffer 0 offset c
unfolding write_loop
nothing_written fuel disk buffer offset c v =
    let end_eq : offset ≡ offset + 0 = omega arith in
    (
      c,
      ap (λ o. ok (0, o, c)) end_eq,
      record {
        valid = v;
        size_eq = refl;
        sector_eq = λ i h. refl;
        byte_eq = λ p h. ground arith;
        others = λ t valid apart. refl;
      },
    )

overlay_joined :
    (buffer : Bytes) (n size offset p : ℕ) (old : ℕ → ℕ)
    → n ≤ size
    → overlay (drop n buffer) (size - n) (offset + n) (overlay buffer n offset old) p
      ≡ overlay buffer size offset old p
overlay_joined buffer n size offset p old enough =
    elim (Bool-cases (leb (offset + n) p && ltb p (offset + n + (size - n)))) [
      | inl late ↦
          let place : n + (p - (offset + n)) ≡ p - offset = ground arith in
          let inside : (leb offset p && ltb p (offset + size)) ≡ true = ground arith in
          simp (late, inside)
            (get_or-drop 0 n (p - (offset + n)) buffer ∙ ap (λ k. get_or buffer k 0) place)
      | inr early ↦
          let same : (leb offset p && ltb p (offset + n))
              ≡ (leb offset p && ltb p (offset + size)) =
            ground arith in
          simp (early, same)
    ]

joined-Wrote :
    {disk : InodeDisk} {c c2 c3 : BufferCache} (buffer : Bytes) (n size offset : ℕ)
    → n ≤ size
    → Wrote disk c c2 (overlay buffer n offset (byte_at disk c))
    → Wrote disk c2 c3 (overlay (drop n buffer) (size - n) (offset + n) (byte_at disk c2))
    → Wrote disk c c3 (overlay buffer size offset (byte_at disk c))
joined-Wrote {disk} {c} {c2} buffer n size offset enough w1 w2 = record {
  valid = w2.valid;
  size_eq = w2.size_eq ∙ w1.size_eq;
  sector_eq = λ i h. w2.sector_eq i h ∙ w1.sector_eq i h;
  byte_eq = λ p h.
      w2.byte_eq p h
      ∙ ap
          (λ x.
            if leb (offset + n) p && ltb p (offset + n + (size - n))
            then get_or (drop n buffer) (p - (offset + n)) 0
            else x)
          (w1.byte_eq p h)
      ∙ overlay_joined buffer n size offset p (byte_at disk c) enough;
  others = λ t valid apart.
      w2.others t valid (λ i h e. apart i h (sym (w1.sector_eq i h) ∙ e)) ∙ w1.others t valid apart;
}

module _ (disk : InodeDisk) (c : BufferCache) (buffer : Bytes) (size offset : ℕ) (v : IsValid c)
    (l : IsPlaced disk c) (u : Separate disk c) (more : 0 < size)
    (inside : offset + size ≤ disk.file_length) (given : size ≤ length buffer) where
  abbrev taken : ℕ
  taken = chunk disk.file_length size offset

  write_round :
      (fuel : ℕ)
      → ((c2 : BufferCache)
          → Wrote disk c c2 (overlay buffer taken offset (byte_at disk c))
          → Ends fuel disk (drop taken buffer) (size - taken) (offset + taken) c2)
      → Ends (suc fuel) disk buffer size offset c
  unfolding write_loop
  write_round fuel rest =
      let start : offset < disk.file_length = omega arith in
      let here : ℕ = sector_of disk c (offset / block_sector_size) in
      let (some_taken, enough, in_file, room) = chunk_bounds disk c size offset v l more start in
      let (c1, finds, same) = byte_to_sector-lem disk c size offset v l more start in
      let index_bound : offset / block_sector_size < bytes_to_sectors disk.file_length =
        omega arith in
      let on_device : here < c.fs_device.size = l.bound (offset / block_sector_size) index_bound in
      let enough_given : taken ≤ length buffer = omega (arith, enough, given) in
      let (c2, writes, w) =
        buffer_cache_write-refines {c = c1} here buffer (offset % block_sector_size) taken
          same.valid (omega (arith, same.size_eq, on_device)) room enough_given in
      let w' : Writes c1 c2 here (splice (offset % block_sector_size) taken buffer (view c here)) =
        subst (λ b. Writes c1 c2 here (splice (offset % block_sector_size) taken buffer b))
          (same.view_eq here (in_range here v on_device)) w in
      let wrote =
        chunk-Wrote disk c c1 c2 buffer taken offset v l u same in_file some_taken room enough_given
          w' in
      let (c3, runs, after) = rest c2 wrote in
      let total : taken + (size - taken) ≡ size = omega (arith, enough) in
      let end_eq : offset + taken + (size - taken) ≡ offset + size = omega (arith, enough) in
      (
        c3,
        simp (
          write_loop,
          ne→== size 0 (λ z. absurd (omega (arith, z, more))),
          finds,
          ne→== taken 0 (λ z. absurd (omega (arith, z, some_taken))),
          writes,
          runs,
          total,
          end_eq,
        ),
        joined-Wrote buffer taken size offset enough wrote after,
      )

write_loop-Wrote :
    (fuel : ℕ) (disk : InodeDisk) (buffer : Bytes) (size offset : ℕ) (c : BufferCache)
    → size < fuel
    → IsValid c
    → IsPlaced disk c
    → Separate disk c
    → offset + size ≤ disk.file_length
    → size ≤ length buffer
    → Ends fuel disk buffer size offset c
write_loop-Wrote zero disk buffer size offset c enough v l u inside given = absurd (omega arith)
write_loop-Wrote (suc fuel) disk buffer zero offset c enough v l u inside given =
    nothing_written fuel disk buffer offset c v
write_loop-Wrote (suc fuel) disk buffer (suc less) offset c enough v l u inside given =
    let rest = write_loop-Wrote fuel disk in
    let n : ℕ = chunk disk.file_length (suc less) offset in
    let (some_taken, taken_size, _, _) =
      chunk_bounds disk c (suc less) offset v l (omega arith) (omega arith) in
    write_round disk c buffer (suc less) offset v l u (omega arith) inside given fuel (λ c2 w.
      rest (drop n buffer) (suc less - n) (offset + n) c2
        (omega (arith, some_taken, taken_size, enough)) w.valid (Wrote-IsPlaced l u w)
        (Wrote-IsSeparate l u w) (omega (arith, taken_size, inside))
        (omega (arith, taken_size, given, length-drop n buffer)))

module _ {F : Type 0} (bitmap_write : Bitmap → F → Inodes → Outcome (Bool × Inodes)) where
  -- With a valid cache, and a file of at most 251 sectors on the device, which are all different
  -- and none of which is its block of numbers: a write inside the file, where writes are not
  -- denied, returns the number of bytes asked for. It changes those bytes of the file, no others,
  -- and no sector of another file, and neither the inodes nor the free map.
  pub inode_write_at-Wrote :
      (p : ℕ) (buffer : Bytes) (size offset : ℕ) (s : Fs F) (i : Inode)
      → s.rest.inodes p ≡ some i
      → i.deny_write_cnt ≡ 0
      → IsValid s.rest.cache
      → IsPlaced i.disk s.rest.cache
      → IsSeparate i.disk s.rest.cache (bytes_to_sectors i.disk.file_length)
      → offset + size ≤ i.disk.file_length
      → size ≤ length buffer
      → (c' : BufferCache) × (inode_write_at bitmap_write p buffer size offset s
          ≡ ok (size, record s { rest = record s.rest { cache = c' } }))
        × Wrote i.disk s.rest.cache c' (overlay buffer size offset (byte_at i.disk s.rest.cache))
  unfolding inode_write_at extend inode_at
  inode_write_at-Wrote p buffer size offset s i at allowed v l u inside given =
      let (c', runs, w) =
        write_loop-Wrote (size + 1) i.disk buffer size offset s.rest.cache (omega arith) v l u
          inside given in
      let short : ltb i.disk.file_length (offset + size) ≡ false = ground arith in
      (
        c',
        simp (at, inode_write_at, extend, inode_at, eq→== i.deny_write_cnt 0 allowed, short, runs),
        w,
      )

-- A read of the place that was written.
read_back_lem :
    (c c' : BufferCache) (i : Inode) (buffer : Bytes) (size offset : ℕ)
    → IsPlaced i.disk c
    → IsSeparate i.disk c (bytes_to_sectors i.disk.file_length)
    → offset + size ≤ i.disk.file_length
    → size ≤ length buffer
    → Wrote i.disk c c' (overlay buffer size offset (byte_at i.disk c))
    → (c'' : BufferCache) × (inode_read_at i size offset c' ≡ ok (take size buffer, c''))
read_back_lem c c' i buffer size offset l u inside given w =
    let (bytes, c'', reads, same, size_eq, byte_eq) =
      inode_read_at-Reads {c = c'} i size offset w.valid (Wrote-IsPlaced l u w) in
    let size_eq' : length bytes ≡ size = ground (arith, size_eq) in
    let read_back : bytes ≡ take size buffer =
      list_ext 0 bytes (take size buffer) (omega (arith, size_eq', length-take size buffer)) (λ k h.
        byte_eq k h
        ∙ w.byte_eq (offset + k) (omega arith)
        ∙ ground (arith, get_or-take 0 size k buffer)) in
    (c'', reads ∙ ap (λ b. ok (b, c'')) read_back)

module _ {F : Type 0} (bitmap_write : Bitmap → F → Inodes → Outcome (Bool × Inodes)) where
  -- Under the conditions of `inode_write_at-Wrote`, a write followed by a read of the same place
  -- returns the bytes that were written.
  pub inode_read_at-inode_write_at :
      (p : ℕ) (buffer : Bytes) (size offset : ℕ) (s : Fs F) (i : Inode)
      → s.rest.inodes p ≡ some i
      → i.deny_write_cnt ≡ 0
      → IsValid s.rest.cache
      → IsPlaced i.disk s.rest.cache
      → IsSeparate i.disk s.rest.cache (bytes_to_sectors i.disk.file_length)
      → offset + size ≤ i.disk.file_length
      → size ≤ length buffer
      → (s' : Fs F) × (inode_write_at bitmap_write p buffer size offset s ≡ ok (size, s'))
        × (s'.rest.inodes p ≡ some i)
        × ((c'' : BufferCache) × (inode_read_at i size offset s'.rest.cache
              ≡ ok (take size buffer, c'')))
  inode_read_at-inode_write_at p buffer size offset s i at allowed v l u inside given =
      let (c', runs, w) =
        inode_write_at-Wrote bitmap_write p buffer size offset s i at allowed v l u inside given in
      (
        record s { rest = record s.rest { cache = c' } },
        runs,
        at,
        read_back_lem s.rest.cache c' i buffer size offset l u inside given w,
      )
