-- ===== src/Inode/Space.antt =====
-- filesys/inode.c: the sectors of a file, allocated, released and extended, through the free map.
-- A number 0 in an inode stands for no sector.
use operating_system_pl_nt.Prelude.{
  ℕ, zero, suc, ◌+◌, ◌-◌, Bool, true, false, Option, none, some, List, [], ◌∷◌, ltb, ◌==◌,
  if◌then◌else◌, length, update, set, replicate, Outcome, ok, panic, ◌>>=◌,
}
use operating_system_pl_nt.Block.{Bytes, block_sector_size}
use operating_system_pl_nt.Bitmap.{Bitmap}
use operating_system_pl_nt.Cache.{buffer_cache_write}
use operating_system_pl_nt.FreeMap.{FreeMap, free_map_allocate, free_map_release}
use operating_system_pl_nt.InodeDisk.{
  InodeDisk, inode_magic, direct_count, indirect_count, to_bytes, bytes_of_words,
}
use operating_system_pl_nt.Inode.{
  Inode, Inodes, bytes_to_sectors, slot_at, table_at, least, inode_at, put_inode, write_loop,
}

-- The free map with the inodes.
pub record Fs (F : Type 0) : Type 0 where
  pub free : FreeMap F
  pub rest : Inodes

abbrev pub zeros : Bytes
zeros = replicate block_sector_size 0

-- `n` sectors over three kinds of blocks
abbrev pub direct_ct : ℕ → ℕ
direct_ct n = least n direct_count

abbrev pub indirect_ct : ℕ → ℕ
indirect_ct n = least (n - direct_count) indirect_count

abbrev pub dbl_indirect_ct : ℕ → ℕ
dbl_indirect_ct n = n - direct_count - indirect_count

module _ {F : Type 0} where
  unfoldable pub write_at : ℕ → Bytes → Fs F → Outcome (Fs F)
  write_at sector bytes s = do
    cache ← buffer_cache_write sector bytes 0 block_sector_size s.rest.cache
    ok (record s { rest = record s.rest { cache = cache } })

  pub read_table : ℕ → Fs F → Outcome (List ℕ × Fs F)
  unfolding table_at
  read_table block s = do
    (table, cache) ← table_at block s.rest.cache
    ok (table, record s { rest = record s.rest { cache = cache } })

module _ {F : Type 0} (bitmap_write : Bitmap → F → Inodes → Outcome (Bool × Inodes)) where
  -- `free_map_allocate (1, &slot)` where the slot is empty, and the sector zeroed
  fill_slot : ℕ → Fs F → Outcome (Option ℕ × Fs F)
  fill_slot slot s =
      if slot == 0
      then (do
        (o, free, rest) ← free_map_allocate bitmap_write 1 s.free s.rest
        elim o [
          | none ↦ ok (none, record { free = free; rest = rest })
          | some sector ↦ do
            s ← write_at sector zeros (record { free = free; rest = rest })
            ok (some sector, s)
        ])
      else ok (some slot, s)

  -- the loops of `inode_allocate` over the slots of a table, for `n` more from `i` on
  fill_loop : ℕ → ℕ → List ℕ → Fs F → Outcome (Bool × List ℕ × Fs F)
  fill_loop zero i table s = ok (true, table, s)
  fill_loop (suc n) i table s = do
    slot ← slot_at table i
    (o, s) ← fill_slot slot s
    elim o [
      | none ↦ ok (false, table, s)
      | some sector ↦ fill_loop n (i + 1) (set table i sector) s
    ]

  -- a block of numbers, allocated where `block` is 0, with its first `n` slots filled; on failure
  -- the block is not written back.
  fill_table : ℕ → ℕ → Fs F → Outcome (Bool × ℕ × Fs F)
  unfolding fill_loop fill_slot
  fill_table n block s = if n == 0 then ok (true, block, s) else (do
    (o, s) ← fill_slot block s
    elim o [
      | none ↦ ok (false, block, s)
      | some block ↦ do
        (table, s) ← read_table block s
        (filled, table, s) ← fill_loop n 0 table s
        if filled
            then (do s ← write_at block (bytes_of_words table) s; ok (true, block, s))
            else ok (false, block, s)
    ])

  -- With the length that the inode is to have. Nothing is allocated where the doubly indirect block
  -- would be used.
  unfoldable pub inode_allocate : InodeDisk → ℕ → Fs F → Outcome (Bool × InodeDisk × Fs F)
  unfolding fill_table
  inode_allocate disk length s =
      let n = bytes_to_sectors length in
      if ltb 0 (dbl_indirect_ct n) then ok (false, disk, s) else (do
        (filled, blocks, s) ← fill_loop (direct_ct n) 0 disk.direct_blocks s
        let disk : InodeDisk = record disk { direct_blocks = blocks }
        if filled
            then (do
              (filled, block, s) ← fill_table (indirect_ct n) disk.indirect_block s
              ok (filled, record disk { indirect_block = block }, s))
            else ok (false, disk, s))

  release_one : ℕ → Fs F → Outcome (Fs F)
  release_one sector s = do
    (free, rest) ← free_map_release bitmap_write sector 1 s.free s.rest
    ok (record { free = free; rest = rest })

  release_loop : ℕ → ℕ → List ℕ → Fs F → Outcome (Fs F)
  release_loop zero i table s = ok s
  release_loop (suc n) i table s = do
    sector ← slot_at table i
    s ← release_one sector s
    release_loop n (i + 1) table s

  -- The count for the doubly indirect block is the source's, and its loop writes a sector over a
  -- variable of four bytes.
  pub inode_deallocate : InodeDisk → ℕ → Fs F → Outcome (Fs F)
  unfolding release_loop release_one
  inode_deallocate disk length s =
      let n = bytes_to_sectors length in
      do
        s ← release_loop (direct_ct n) 0 disk.direct_blocks s
        s ←
            (if indirect_ct n == 0 then ok s else (do
              (table, s) ← read_table disk.indirect_block s
              s ← release_loop (indirect_ct n) 0 table s
              release_one disk.indirect_block s))
        if bytes_to_sectors (dbl_indirect_ct n) == 0
            then ok s
            else (do (table, s) ← read_table disk.double_indirect_block s; panic)

  -- with whether `calloc` finds memory
  unfoldable pub inode_create : ℕ → ℕ → Bool → Bool → Fs F → Outcome (Bool × Fs F)
  unfolding inode_allocate
  inode_create sector length is_dir memory s =
      if memory
      then (do
        let zeroed : InodeDisk = record {
          file_length = length;
          magic = inode_magic;
          directory = is_dir;
          direct_blocks = replicate direct_count 0;
          indirect_block = 0;
          double_indirect_block = 0;
        }
        (allocated, disk, s) ← inode_allocate zeroed length s
        if allocated
            then (do s ← write_at sector (to_bytes disk) s; ok (true, s))
            else ok (false, s))
      else ok (false, s)

  abbrev remove_open : ℕ → List ℕ → List ℕ
  remove_open p [] = []
  remove_open p (q ∷ qs) = if q == p then qs else q ∷ remove_open p qs

  -- the last opener closes
  close_last : ℕ → Inode → Fs F → Outcome (Fs F)
  close_last p inode s = do
    let s : Fs F = record s {
      rest = record s.rest { open_inodes = remove_open p s.rest.open_inodes };
    }
    s ←
        (if inode.removed
          then (do
            s ← release_one inode.sector s
            inode_deallocate inode.disk inode.disk.file_length s)
          else ok s)
    ok (record s { rest = record s.rest { inodes = update s.rest.inodes p none } })

  -- `none` is the null pointer.
  pub inode_close : Option ℕ → Fs F → Outcome (Fs F)
  unfolding close_last inode_deallocate
  inode_close none s = ok s
  inode_close (some p) s = do
    inode ← inode_at s.rest p
    let closed : Inode = record inode { open_cnt = inode.open_cnt - 1 }
    let s : Fs F = record s { rest = put_inode s.rest p closed }
    if closed.open_cnt == 0 then close_last p closed s else ok s

  -- the extension of the file by `inode_write_at`
  unfoldable pub extend : ℕ → ℕ → Fs F → Outcome (Fs F)
  extend p new_length s = do
    inode ← inode_at s.rest p
    if ltb inode.disk.file_length new_length
        then (do
          (_, disk, s) ← inode_allocate inode.disk new_length s
          let disk : InodeDisk = record disk { file_length = new_length }
          write_at inode.sector (to_bytes disk)
              (record s { rest = put_inode s.rest p (record inode { disk = disk }) }))
        else ok s

  unfoldable pub inode_write_at : ℕ → Bytes → ℕ → ℕ → Fs F → Outcome (ℕ × Fs F)
  unfolding extend
  inode_write_at p buffer size offset s = do
    inode ← inode_at s.rest p
    if inode.deny_write_cnt == 0
        then (do
          s ← extend p (offset + size) s
          inode ← inode_at s.rest p
          (bytes_written, offset, cache) ←
              write_loop (size + 1) inode.disk buffer size offset s.rest.cache
          let s : Fs F = record s { rest = record s.rest { cache = cache } }
          if ltb inode.disk.file_length offset
              then (do
                let disk : InodeDisk = record inode.disk { file_length = offset }
                s ←
                    write_at inode.sector (to_bytes disk)
                      (record s { rest = put_inode s.rest p (record inode { disk = disk }) })
                ok (bytes_written, s))
              else ok (bytes_written, s))
        else ok (0, s)
