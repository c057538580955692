-- ===== src/Tests/DirectoryRuns.antt =====
-- An empty directory of two entries, both free, in sector 2 of the blank device.
use operating_system_pl_nt.Prelude.{
  ℕ, zero, suc, ◌<◌, ◌≡◌, refl, true, false, Option, none, some, [], ◌∷◌, replicate, ok, arith,
  ◌==◌, if◌then◌else◌,
}
use operating_system_pl_nt.Cache.{BufferCache, buffer_cache_find}
use operating_system_pl_nt.Cache.Valid.{view}
use operating_system_pl_nt.Cache.Gets.{Same}
use operating_system_pl_nt.InodeDisk.{InodeDisk}
use operating_system_pl_nt.Inode.{Inode, Inodes}
use operating_system_pl_nt.Inode.Index.{sector_of}
use operating_system_pl_nt.Inode.Reads.{IsPlaced, byte_at}
use operating_system_pl_nt.Inode.Writes.{IsSeparate}
use operating_system_pl_nt.Inode.Space.{Fs}
use operating_system_pl_nt.File.{File}
use operating_system_pl_nt.Directory.{Dir, DirEntry, lookup}
use operating_system_pl_nt.Directory.Updates.{dir_add}
use operating_system_pl_nt.Directory.Lookups.{bytes_from, entry, holds}
use operating_system_pl_nt.Directory.Searches.{Finds, lookup-Finds}
use operating_system_pl_nt.Directory.Adds.{new_entry, Added}
use operating_system_pl_nt.Directory.Adding.{dir_add-Added, lookup-dir_add}
use operating_system_pl_nt.Tests.CacheRuns.{cache, cache-IsValid, filled}
use operating_system_pl_nt.Tests.FileRuns.{length-unused_blocks, disk, write_map, fs}

abbrev dir_disk : InodeDisk
dir_disk = record disk { file_length = 40; directory = true }

abbrev dir_inode : Inode
dir_inode = record {
  sector = 1;
  open_cnt = 1;
  removed = false;
  deny_write_cnt = 0;
  disk = dir_disk;
}

abbrev dir_inodes : Inodes
dir_inodes = record {
  cache = cache;
  inodes = λ p. if p == 0 then some dir_inode else none;
  open_inodes = 0 ∷ [];
}

abbrev dir_fs : Fs File
dir_fs = record fs { rest = dir_inodes }

abbrev dir : Dir
dir = record { inode = 0; pos = 0 }

on_device : (index : ℕ) → index < 1 → sector_of dir_disk cache index < 8
unfolding sector_of
on_device zero h = omega arith
on_device (suc index) h = absurd (omega arith)

one_sector :
    (i j : ℕ) → i < 1 → j < 1 → sector_of dir_disk cache i ≡ sector_of dir_disk cache j → i ≡ j
one_sector i j h k e = omega arith

dir-IsPlaced : IsPlaced dir_disk cache
dir-IsPlaced = record {
  few = omega arith;
  direct_length = omega (arith, length-unused_blocks);
  indirect_bound = λ h. absurd (omega arith);
  bound = on_device;
}

dir-IsSeparate : IsSeparate dir_disk cache 1
dir-IsSeparate = record { distinct = one_sector; table = λ many i h e. absurd (omega arith) }

first_free : (entry (byte_at dir_disk cache) 0).in_use ≡ false
unfolding byte_at sector_of view filled bytes_from buffer_cache_find
first_free = refl

second_free : (entry (byte_at dir_disk cache) 1).in_use ≡ false
unfolding byte_at sector_of view filled bytes_from buffer_cache_find
second_free = refl

nothing_there : (i : ℕ) → i < 2 → holds (byte_at dir_disk cache) (97 ∷ []) i ≡ false
nothing_there zero h = simp first_free
nothing_there (suc zero) h = simp second_free
nothing_there (suc (suc i)) h = absurd (omega arith)

lookup-Finds_example :
    (r : Option (DirEntry × ℕ)) × (c' : BufferCache) × (lookup dir (97 ∷ []) dir_inodes
      ≡ ok (r, record dir_inodes { cache = c' }))
    × Same cache c'
    × Finds (byte_at dir_disk cache) (97 ∷ []) 2 0 r
lookup-Finds_example =
    lookup-Finds dir (97 ∷ []) dir_inodes dir_inode refl cache-IsValid dir-IsPlaced (omega arith)

dir_add-Added_example :
    (c' : BufferCache) × (dir_add write_map dir
        (97 ∷ [])
        6
        false
        (replicate 20 9)
        ([], [])
        none
        true
        dir_fs
      ≡ ok (true, record dir_fs { rest = record dir_inodes { cache = c' } }))
    × Added dir_inode cache c' 0 (new_entry 6 (97 ∷ []) (entry (byte_at dir_disk cache) 0))
dir_add-Added_example =
    dir_add-Added write_map dir (97 ∷ []) 6 0 (replicate 20 9) ([], []) none true dir_fs dir_inode
      refl refl cache-IsValid dir-IsPlaced dir-IsSeparate (omega arith) (omega arith) (omega arith)
      refl (omega arith) (λ i h. absurd (omega arith)) first_free nothing_there

lookup-dir_add_example :
    (s' : Fs File) × (dir_add write_map dir
        (97 ∷ [])
        6
        false
        (replicate 20 9)
        ([], [])
        none
        true
        dir_fs
      ≡ ok (true, s'))
    × ((e : DirEntry) × (ofs : ℕ) × (s'' : Inodes) × (lookup dir (97 ∷ []) s'.rest
          ≡ ok (some (e, ofs), s''))
        × (e.inode_sector ≡ 6)
        × (ofs ≡ 0))
lookup-dir_add_example =
    lookup-dir_add write_map dir (97 ∷ []) 6 0 (replicate 20 9) ([], []) none true dir_fs dir_inode
      refl refl cache-IsValid dir-IsPlaced dir-IsSeparate (omega arith) (omega arith) (omega arith)
      refl (omega arith) (λ i h. absurd (omega arith)) first_free nothing_there
