-- ===== src/Inode/Long.antt =====
-- Files of more than 251 sectors: the doubly indirect block is never allocated.
use operating_system_pl_nt.Prelude.{
  ℕ, ◌+◌, ◌*◌, ◌<◌, ◌≡◌, refl, Bool, true, false, some, ok, Outcome, length, update_self, arith,
  ltb, lt→ltb,
}
use operating_system_pl_nt.Block.{block_sector_size}
use operating_system_pl_nt.Bitmap.{Bitmap}
use operating_system_pl_nt.Cache.Valid.{IsValid}
use operating_system_pl_nt.Cache.Refines.{buffer_cache_write-refines}
use operating_system_pl_nt.InodeDisk.{InodeDisk, to_bytes, direct_count, indirect_count}
use operating_system_pl_nt.InodeDisk.Codec.{to_bytes-length}
use operating_system_pl_nt.Inode.{Inode, Inodes, inode_at, put_inode, bytes_to_sectors}
use operating_system_pl_nt.Inode.Space.{
  Fs, inode_allocate, inode_create, extend, write_at, dbl_indirect_ct,
}

-- The bytes that direct blocks and one indirect block hold.
abbrev pub most : ℕ
most = (direct_count + indirect_count) * block_sector_size

module _ {F : Type 0} (bitmap_write : Bitmap → F → Inodes → Outcome (Bool × Inodes)) where
  inode_allocate_too_long :
      (disk : InodeDisk) (n : ℕ) (s : Fs F)
      → most < n
      → inode_allocate bitmap_write disk n s ≡ ok (false, disk, s)
  unfolding inode_allocate
  inode_allocate_too_long disk n s h =
      let doubly : ltb 0 (dbl_indirect_ct (bytes_to_sectors n)) ≡ true =
        lt→ltb 0 (dbl_indirect_ct (bytes_to_sectors n)) (omega arith) in
      simp (doubly, inode_allocate)

  -- No file of more bytes than the direct blocks and one indirect block hold can be created,
  -- whatever memory and sectors there are; the attempt changes nothing.
  pub inode_create_too_long :
      (sector n : ℕ) (is_dir memory : Bool) (s : Fs F)
      → most < n
      → inode_create bitmap_write sector n is_dir memory s ≡ ok (false, s)
  unfolding inode_create
  inode_create_too_long sector n is_dir true s h =
      simp (inode_create, inode_allocate_too_long _ n s h)
  inode_create_too_long sector n is_dir false s h = refl

  -- With a valid cache, and an inode that has its direct blocks and whose own sector is on the
  -- device, a write that extends the file past the bytes that direct blocks and one indirect block
  -- hold sets the length all the same: the inode then has the new length and only the sectors of
  -- before.
  pub extend_too_long :
      (p n : ℕ) (s : Fs F) (i : Inode)
      → s.rest.inodes p ≡ some i
      → length i.disk.direct_blocks ≡ direct_count
      → most < n
      → i.disk.file_length < n
      → IsValid s.rest.cache
      → i.sector < s.rest.cache.fs_device.size
      → (s' : Fs F) × (extend bitmap_write p n s ≡ ok s')
        × (s'.rest.inodes p ≡ some (record i { disk = record i.disk { file_length = n } }))
        × (s'.free ≡ s.free)
  unfolding extend inode_at write_at
  extend_too_long p n s i at blocks h longer v bound =
      let disk : InodeDisk = record i.disk { file_length = n } in
      let rest : Inodes = put_inode s.rest p (record i { disk = disk }) in
      let (c', writes, w) =
        buffer_cache_write-refines {c = s.rest.cache} i.sector (to_bytes disk) 0 block_sector_size v
          bound (omega arith) (omega (arith, to_bytes-length disk blocks)) in
      (
        record s { rest = record rest { cache = c' } },
        simp (
          at,
          extend,
          inode_at,
          lt→ltb i.disk.file_length n longer,
          inode_allocate_too_long i.disk n s h,
          write_at,
          writes,
        ),
        update_self s.rest.inodes p (some (record i { disk = disk })),
        refl,
      )
