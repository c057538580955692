-- ===== src/Inode.antt =====
-- filesys/inode.c: reading and writing files by way of their inodes, and the table of open inodes.
-- A pointer to a `struct inode` is a number. Offsets and sizes are never negative, and stay in the
-- range of `off_t`; where the source compares a difference with zero, subtraction here stops at
-- zero. A call that would write past the end of a variable is a `panic`. The calls of free-map.c
-- write the map through a parameter.
pub mod Index
pub mod Reads
pub mod Space
pub mod Writes
pub mod Overlays
pub mod Long
use operating_system_pl_nt.Prelude.{
  ℕ, zero, suc, ◌+◌, ◌-◌, ◌*◌, ◌/◌, ◌%◌, Bool, true, false, not, Option, none, some, List, [], ◌∷◌,
  ◌++◌, ltb, leb, ◌==◌, if◌then◌else◌, update, length, get_elem?, get_or, set, drop, replicate,
  Outcome, ok, panic, out_of_fuel, ◌>>=◌, ◌>>◌, assert,
}
use operating_system_pl_nt.Block.{Bytes, block_sector_size}
use operating_system_pl_nt.Bitmap.{Bitmap}
use operating_system_pl_nt.Cache.{BufferCache, no_sector, buffer_cache_read, buffer_cache_write}
use operating_system_pl_nt.FreeMap.{FreeMap, free_map_allocate, free_map_release}
use operating_system_pl_nt.InodeDisk.{
  InodeDisk, inode_magic, direct_count, indirect_count, to_bytes, from_bytes, words_of,
  bytes_of_words,
}

-- DIV_ROUND_UP by the size of a sector
abbrev pub bytes_to_sectors : ℕ → ℕ
bytes_to_sectors size = (size + (block_sector_size - 1)) / block_sector_size

-- `struct inode`; `disk` is its `data`.
pub record Inode : Type 0 where
  pub sector : ℕ
  pub open_cnt : ℕ
  pub removed : Bool
  pub deny_write_cnt : ℕ
  pub disk : InodeDisk

-- `table[i]`
pub slot_at : List ℕ → ℕ → Outcome ℕ
slot_at table i = elim (get_elem? table i) [ none ↦ panic | some block ↦ ok block ]

-- a sector of numbers
pub table_at : ℕ → BufferCache → Outcome (List ℕ × BufferCache)
table_at block c = do
  (bytes, c) ← buffer_cache_read block 0 block_sector_size c
  ok (words_of indirect_count bytes, c)

pub get_index_sector : InodeDisk → ℕ → BufferCache → Outcome (ℕ × BufferCache)
unfolding table_at slot_at
get_index_sector disk index c =
    let direct : Outcome (ℕ × BufferCache) = (do
      block ← slot_at disk.direct_blocks index
      ok (block, c)) in
    let indirect : Outcome (ℕ × BufferCache) = (do
      (table, c) ← table_at disk.indirect_block c
      block ← slot_at table (index - direct_count)
      ok (block, c)) in
    let doubly : Outcome (ℕ × BufferCache) = (do
      (table, c) ← table_at disk.double_indirect_block c
      panic) in
    if ltb index direct_count
    then direct
    else (if ltb (index - direct_count) indirect_count
        then indirect
        else (if ltb (index - direct_count - indirect_count) (indirect_count * indirect_count)
            then doubly
            else ok (no_sector, c)))

pub byte_to_sector : InodeDisk → ℕ → BufferCache → Outcome (ℕ × BufferCache)
byte_to_sector disk pos c =
    if ltb pos disk.file_length
    then get_index_sector disk (pos / block_sector_size) c
    else ok (no_sector, c)

abbrev pub least : ℕ → ℕ → ℕ
least a b = if ltb a b then a else b

-- `chunk_size`
abbrev pub chunk : ℕ → ℕ → ℕ → ℕ
chunk file_length size offset =
    least size (least (file_length - offset) (block_sector_size - offset % block_sector_size))

-- the loop of `inode_read_at`
read_loop : ℕ → InodeDisk → ℕ → ℕ → BufferCache → Outcome (Bytes × BufferCache)
read_loop zero disk size offset c = out_of_fuel
read_loop (suc fuel) disk size offset c = if size == 0 then ok ([], c) else (do
  (sector_idx, c) ← byte_to_sector disk offset c
  let chunk_size = chunk disk.file_length size offset
  if chunk_size == 0 then ok ([], c) else (do
    (bytes, c) ← buffer_cache_read sector_idx (offset % block_sector_size) chunk_size c
    (more, c) ← read_loop fuel disk (size - chunk_size) (offset + chunk_size) c
    ok (bytes ++ more, c)))

-- A round takes a byte or ends the loop. The bytes read are the result; the source returns their
-- number.
pub inode_read_at : Inode → ℕ → ℕ → BufferCache → Outcome (Bytes × BufferCache)
unfolding read_loop
inode_read_at inode size offset c = read_loop (size + 1) inode.disk size offset c

-- the loop of `inode_write_at`, with `bytes_written` and `offset` at its end
pub write_loop : ℕ → InodeDisk → Bytes → ℕ → ℕ → BufferCache → Outcome (ℕ × ℕ × BufferCache)
write_loop zero disk buffer size offset c = out_of_fuel
write_loop (suc fuel) disk buffer size offset c = if size == 0 then ok (0, offset, c) else (do
  (sector_idx, c) ← byte_to_sector disk offset c
  let chunk_size = chunk disk.file_length size offset
  if chunk_size == 0 then ok (0, offset, c) else (do
    c ← buffer_cache_write sector_idx buffer (offset % block_sector_size) chunk_size c
    (more, offset, c) ←
        write_loop fuel disk (drop chunk_size buffer) (size - chunk_size) (offset + chunk_size) c
    ok (chunk_size + more, offset, c)))

-- The cache, the inodes in memory by their addresses, and `open_inodes`.
pub record Inodes : Type 0 where
  pub cache : BufferCache
  pub inodes : ℕ → Option Inode
  pub open_inodes : List ℕ

-- `inode->…`
unfoldable pub inode_at : Inodes → ℕ → Outcome Inode
inode_at s p = elim (s.inodes p) [ none ↦ panic | some inode ↦ ok inode ]

abbrev pub put_inode : Inodes → ℕ → Inode → Inodes
put_inode s p inode = record s { inodes = update s.inodes p (some inode) }

pub inode_reopen : ℕ → Inodes → Outcome Inodes
unfolding inode_at
inode_reopen p s = do
  inode ← inode_at s p
  ok (put_inode s p (record inode { open_cnt = inode.open_cnt + 1 }))

-- the loop of `inode_open` over the rest of the list
find_open : List ℕ → ℕ → Inodes → Outcome (Option ℕ)
find_open [] sector s = ok none
find_open (p ∷ ps) sector s = do
  inode ← inode_at s p
  let rest = find_open ps sector s
  if inode.sector == sector then ok (some p) else rest

-- the inode at address `p` that `malloc` returns, at the front of the list
abbrev new_inode : ℕ → ℕ → Inodes → Outcome (Option ℕ × Inodes)
new_inode sector p s = do
  (bytes, cache) ← buffer_cache_read sector 0 block_sector_size s.cache
  let inode : Inode = record {
    sector = sector;
    open_cnt = 1;
    removed = false;
    deny_write_cnt = 0;
    disk = from_bytes bytes;
  }
  ok (
    some p,
    record {
      cache = cache;
      inodes = update s.inodes p (some inode);
      open_inodes = p ∷ s.open_inodes;
    },
  )

pub inode_open : ℕ → Option ℕ → Inodes → Outcome (Option ℕ × Inodes)
unfolding find_open
inode_open sector memory s = do
  found ← find_open s.open_inodes sector s
  elim found [
    | some p ↦ do s ← inode_reopen p s; ok (some p, s)
    | none ↦ elim memory [ none ↦ ok (none, s) | some p ↦ new_inode sector p s ]
  ]

pub inode_remove : ℕ → Inodes → Outcome Inodes
inode_remove p s = do inode ← inode_at s p; ok (put_inode s p (record inode { removed = true }))

unfoldable pub inode_deny_write : ℕ → Inodes → Outcome Inodes
inode_deny_write p s = do
  inode ← inode_at s p
  assert (leb (inode.deny_write_cnt + 1) inode.open_cnt)
  ok (put_inode s p (record inode { deny_write_cnt = inode.deny_write_cnt + 1 }))

unfoldable pub inode_allow_write : ℕ → Inodes → Outcome Inodes
inode_allow_write p s = do
  inode ← inode_at s p
  assert (ltb 0 inode.deny_write_cnt)
  assert (leb inode.deny_write_cnt inode.open_cnt)
  ok (put_inode s p (record inode { deny_write_cnt = inode.deny_write_cnt - 1 }))
