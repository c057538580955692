-- ===== src/Inode/Reads.antt =====
-- `inode_read_at` returns the bytes of the file.
use Prim.Native.Nat.{min}
use operating_system_pl_nt.Prelude.{
  ℕ, zero, suc, ◌+◌, ◌-◌, ◌/◌, ◌%◌, ◌<◌, ◌≤◌, ◌≡◌, refl, sym, ap, ◌∙◌, inl, inr, false, [], ◌++◌,
  ltb, lt→ltb, length, get_or, drop, ok, Outcome, arith, Bool-cases, length-append, length-take,
  length-drop, get_or-append, get_or-take, get_or-drop, eq→==, ne→==,
}
use operating_system_pl_nt.Block.{Bytes, block_sector_size}
use operating_system_pl_nt.Cache.{BufferCache, slice, buffer_cache_read}
use operating_system_pl_nt.Cache.Valid.{IsValid, view, view-length}
use operating_system_pl_nt.Cache.Gets.{Same, Same-refl, Same-trans, in_range}
use operating_system_pl_nt.Cache.Refines.{buffer_cache_read-refines}
use operating_system_pl_nt.InodeDisk.{InodeDisk, direct_count}
use operating_system_pl_nt.Inode.{
  Inode, bytes_to_sectors, byte_to_sector, least, chunk, read_loop, inode_read_at,
}
use operating_system_pl_nt.Inode.Index.{sector_of, IsLaidOut, get_index_sector-lem}

-- Byte `p` of the file.
unfoldable pub byte_at : InodeDisk → BufferCache → ℕ → ℕ
byte_at disk c p =
    get_or (view c (sector_of disk c (p / block_sector_size))) (p % block_sector_size) 0

-- All sectors of the file are on the device.
abbrev pub IsPlaced : InodeDisk → BufferCache → Type 0
IsPlaced disk c = IsLaidOut disk c (bytes_to_sectors disk.file_length)

module _ {disk : InodeDisk} {c c' : BufferCache} {n : ℕ} (v : IsValid c) (l : IsLaidOut disk c n)
    (same : Same c c') where
  pub sector_of-same : (index : ℕ) → index < n → sector_of disk c' index ≡ sector_of disk c index
  unfolding sector_of
  sector_of-same index h = elim (Bool-cases (ltb index direct_count)) [
    | inl direct ↦ simp (direct, sector_of)
    | inr indirect ↦ simp (
      indirect,
      sector_of,
      same.view_eq disk.indirect_block
          (in_range disk.indirect_block v (l.indirect_bound (ground arith))),
    )
  ]

  pub IsLaidOut-same : IsLaidOut disk c' n
  IsLaidOut-same = record {
    few = l.few;
    direct_length = l.direct_length;
    indirect_bound = λ h. omega (arith, l.indirect_bound h, same.size_eq);
    bound = λ index h. omega (arith, l.bound index h, sector_of-same index h, same.size_eq);
  }

module _ {disk : InodeDisk} {c c' : BufferCache} (v : IsValid c) (l : IsPlaced disk c)
    (same : Same c c') where
  pub byte_at-same : (p : ℕ) → p < disk.file_length → byte_at disk c' p ≡ byte_at disk c p
  unfolding byte_at
  byte_at-same p h =
      let inside : p / block_sector_size < bytes_to_sectors disk.file_length = omega arith in
      simp (
        byte_at,
        sector_of-same v l same (p / block_sector_size) inside,
        same.view_eq (sector_of disk c (p / block_sector_size)) (
            in_range (sector_of disk c (p / block_sector_size)) v
              (l.bound (p / block_sector_size) inside)),
      )

-- The bytes are those of the file from `offset` on, as many as are asked for and there.
abbrev pub Reads : InodeDisk → BufferCache → ℕ → ℕ → Outcome (Bytes × BufferCache) → Type 0
Reads disk c size offset r =
    (bytes : Bytes) × (c' : BufferCache) × (r ≡ ok (bytes, c'))
    × Same c c'
    × (length bytes ≡ least size (disk.file_length - offset))
    × ((k : ℕ) → k < length bytes → get_or bytes k 0 ≡ byte_at disk c (offset + k))

least_lem : (a b : ℕ) → a ≤ b → min a b ≡ a
least_lem a b h = omega arith

-- Two places in one sector.
pub same_sector :
    (offset k n : ℕ)
    → k < n
    → offset % block_sector_size + n ≤ block_sector_size
    → ((offset + k) / block_sector_size ≡ offset / block_sector_size)
      × ((offset + k) % block_sector_size ≡ offset % block_sector_size + k)
same_sector offset k n h room = (omega arith, omega arith)

joined_length :
    (xs ys : Bytes) (n size offset file_length : ℕ)
    → length xs ≡ n
    → n ≤ size
    → offset + n ≤ file_length
    → length ys ≡ least (size - n) (file_length - (offset + n))
    → length (xs ++ ys) ≡ least size (file_length - offset)
joined_length xs ys n size offset file_length front_eq enough inside rest_eq =
    ground (arith, length-append xs ys)

-- Bytes joined, of which both parts are those of `f`.
joined_byte :
    (xs ys : Bytes) (n offset : ℕ) (f : ℕ → ℕ)
    → length xs ≡ n
    → ((k : ℕ) → k < n → get_or xs k 0 ≡ f (offset + k))
    → ((k : ℕ) → k < length ys → get_or ys k 0 ≡ f (offset + n + k))
    → (k : ℕ) → k < length (xs ++ ys)
    → get_or (xs ++ ys) k 0 ≡ f (offset + k)
joined_byte xs ys n offset f front_eq front_byte rest_byte k h =
    elim (Bool-cases (ltb k (length xs))) [
      | inl early ↦ get_or-append 0 xs ys k ∙ simp early (front_byte k (ground arith))
      | inr late ↦
          let place : offset + n + (k - length xs) ≡ offset + k = ground arith in
          get_or-append 0 xs ys k
          ∙ simp late (rest_byte (k - length xs) (ground (arith, length-append xs ys)) ∙ ap f place)
    ]

-- A round inside the file.
module _ (disk : InodeDisk) (c : BufferCache) (size offset : ℕ) (v : IsValid c)
    (l : IsPlaced disk c) (more : 0 < size) (inside : offset < disk.file_length) where
  abbrev taken : ℕ
  taken = chunk disk.file_length size offset

  index_bound : offset / block_sector_size < bytes_to_sectors disk.file_length
  index_bound = omega arith

  pub byte_to_sector-lem :
      (c' : BufferCache) × (byte_to_sector disk offset c
        ≡ ok (sector_of disk c (offset / block_sector_size), c'))
      × Same c c'
  unfolding byte_to_sector
  byte_to_sector-lem =
      let (c', gets, same) = get_index_sector-lem (offset / block_sector_size) v l index_bound in
      (c', simp (lt→ltb offset disk.file_length inside, byte_to_sector, gets), same)

  pub chunk_bounds :
      (0 < taken)
      × (taken ≤ size)
      × (offset + taken ≤ disk.file_length)
      × (offset % block_sector_size + taken ≤ block_sector_size)
  chunk_bounds = (ground arith, ground arith, ground arith, ground arith)

  abbrev front : Bytes
  front =
      slice (offset % block_sector_size) taken
        (view c (sector_of disk c (offset / block_sector_size)))

  front-length : length front ≡ taken
  front-length =
      let bytes : Bytes = view c (sector_of disk c (offset / block_sector_size)) in
      let (_, _, _, room) = chunk_bounds in
      length-take taken (drop (offset % block_sector_size) bytes)
      ∙ least_lem taken (length (drop (offset % block_sector_size) bytes)) (
          omega (
            arith,
            room,
            length-drop (offset % block_sector_size) bytes,
            view-length (sector_of disk c (offset / block_sector_size)) v,
          ))

  front-byte : (k : ℕ) → k < taken → get_or front k 0 ≡ byte_at disk c (offset + k)
  unfolding byte_at
  front-byte k h =
      let bytes : Bytes = view c (sector_of disk c (offset / block_sector_size)) in
      let (_, _, _, room) = chunk_bounds in
      let (quotient, remainder) = same_sector offset k taken h room in
      get_or-take 0 taken k (drop (offset % block_sector_size) bytes) h
      ∙ get_or-drop 0 (offset % block_sector_size) k bytes
      ∙ sym (rw (quotient, remainder))

  read_round :
      (fuel : ℕ)
      → ((c2 : BufferCache)
          → Same c c2
          → Reads disk c2
              (size - taken)
              (offset + taken)
              (read_loop fuel disk (size - taken) (offset + taken) c2))
      → Reads disk c size offset (read_loop (suc fuel) disk size offset c)
  unfolding read_loop
  read_round fuel rest =
      let (c1, finds, same1) = byte_to_sector-lem in
      let here : ℕ = sector_of disk c (offset / block_sector_size) in
      let on_device : here < c.fs_device.size = l.bound (offset / block_sector_size) index_bound in
      let (some_taken, enough, in_file, room) = chunk_bounds in
      let (c2, reads, same2) =
        buffer_cache_read-refines {c = c1} here (offset % block_sector_size) taken same1.valid
          (omega (arith, same1.size_eq, on_device)) room in
      let shown : view c1 here ≡ view c here = same1.view_eq here (in_range here v on_device) in
      let same : Same c c2 = Same-trans same1 same2 in
      let (bytes, c3, runs, same3, size_eq, byte_eq) = rest c2 same in
      let read_front : buffer_cache_read here (offset % block_sector_size) taken c1
          ≡ ok (front, c2) =
        reads ∙ ap (λ b. ok (slice (offset % block_sector_size) taken b, c2)) shown in
      (
        front ++ bytes,
        c3,
        simp (
          read_loop,
          ne→== size 0 (λ z. absurd (omega (arith, z, more))),
          finds,
          ne→== taken 0 (λ z. absurd (omega (arith, z, some_taken))),
          read_front,
          runs,
        ),
        Same-trans same same3,
        joined_length front bytes taken size offset disk.file_length front-length enough in_file
            size_eq,
        joined_byte front bytes taken offset (byte_at disk c) front-length front-byte (λ k h.
            byte_eq k h
            ∙ byte_at-same v l same (offset + taken + k) (ground (arith, size_eq, in_file, h))),
      )

-- A round at the end of the request or of the file.
no_size :
    (disk : InodeDisk) (c : BufferCache) (fuel offset : ℕ)
    → IsValid c
    → Reads disk c 0 offset (read_loop (suc fuel) disk 0 offset c)
unfolding read_loop
no_size disk c fuel offset v = ([], c, refl, Same-refl v, ground arith, λ k h. absurd (omega arith))

past_end :
    (disk : InodeDisk) (c : BufferCache) (fuel size offset : ℕ)
    → IsValid c
    → 0 < size
    → disk.file_length ≤ offset
    → Reads disk c size offset (read_loop (suc fuel) disk size offset c)
unfolding read_loop byte_to_sector
past_end disk c fuel size offset v more past =
    let outside : ltb offset disk.file_length ≡ false = ground arith in
    (
      [],
      c,
      simp (
        read_loop,
        ne→== size 0 (λ z. absurd (omega (arith, z, more))),
        byte_to_sector,
        outside,
        eq→== (chunk disk.file_length size offset) 0 (ground arith),
      ),
      Same-refl v,
      ground arith,
      λ k h. absurd (omega arith),
    )

read_loop-Reads :
    (fuel : ℕ) (disk : InodeDisk) (c : BufferCache) (size offset : ℕ)
    → size < fuel
    → IsValid c
    → IsPlaced disk c
    → Reads disk c size offset (read_loop fuel disk size offset c)
read_loop-Reads zero disk c size offset enough v l = absurd (omega arith)
read_loop-Reads (suc fuel) disk c zero offset enough v l = no_size disk c fuel offset v
read_loop-Reads (suc fuel) disk c (suc less) offset enough v l =
    let rest = read_loop-Reads fuel disk in
    elim (Bool-cases (ltb offset disk.file_length)) [
      | inl inside ↦
          let at : offset < disk.file_length = ground arith in
          let more : 0 < suc less = omega arith in
          let (some_taken, taken_size, _, _) = chunk_bounds disk c (suc less) offset v l more at in
          let n : ℕ = chunk disk.file_length (suc less) offset in
          read_round disk c (suc less) offset v l more at fuel (λ c2 same.
            rest c2 (suc less - n) (offset + n) (omega (arith, some_taken, taken_size, enough))
              same.valid (IsLaidOut-same v l same))
      | inr outside ↦ past_end disk c fuel (suc less) offset v (omega arith) (ground arith)
    ]

-- With a valid cache, and a file of at most 251 sectors that are all on the device, a read returns.
-- It gives the bytes of the file from `offset` on, as many as are asked for or as there are, and no
-- reader sees a change.
pub inode_read_at-Reads :
    {c : BufferCache} (inode : Inode) (size offset : ℕ)
    → IsValid c
    → IsPlaced inode.disk c
    → Reads inode.disk c size offset (inode_read_at inode size offset c)
unfolding inode_read_at
inode_read_at-Reads {c} inode size offset v l =
    read_loop-Reads (size + 1) inode.disk c size offset (omega arith) v l
