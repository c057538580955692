-- ===== src/Tests/FileRuns.antt =====
-- A file of 600 bytes in sectors 2 and 3 of a device of eight sectors.
use operating_system_pl_nt.Prelude.{
  ℕ, zero, suc, ◌<◌, ◌≡◌, refl, Bool, true, false, none, some, List, [], ◌∷◌, replicate, length,
  take, length-replicate, Outcome, ok, arith,
}
use operating_system_pl_nt.Cache.{BufferCache}
use operating_system_pl_nt.Block.{Bytes}
use operating_system_pl_nt.Bitmap.{Bitmap}
use operating_system_pl_nt.InodeDisk.{InodeDisk, inode_magic}
use operating_system_pl_nt.Inode.{Inode, Inodes, inode_read_at}
use operating_system_pl_nt.Inode.Index.{sector_of}
use operating_system_pl_nt.Inode.Reads.{Reads, byte_at, IsPlaced, inode_read_at-Reads}
use operating_system_pl_nt.Inode.Writes.{IsSeparate, Wrote, overlay}
use operating_system_pl_nt.Inode.Overlays.{inode_write_at-Wrote, inode_read_at-inode_write_at}
use operating_system_pl_nt.Inode.Space.{Fs, inode_write_at}
use operating_system_pl_nt.File.{File, file_deny_write, file_allow_write, file_write_at}
use operating_system_pl_nt.File.Denials.{file_deny_write-Denies}
use operating_system_pl_nt.Tests.CacheRuns.{cache, cache-IsValid}

pub unused_blocks : List ℕ
unused_blocks = replicate 121 0

pub length-unused_blocks : length unused_blocks ≡ 121
unfolding unused_blocks
length-unused_blocks = length-replicate {A = ℕ} 121 0

abbrev pub disk : InodeDisk
disk = record {
  file_length = 600;
  magic = inode_magic;
  directory = false;
  direct_blocks = 2 ∷ 3 ∷ unused_blocks;
  indirect_block = 0;
  double_indirect_block = 0;
}

abbrev pub inode : Inode
inode = record { sector = 4; open_cnt = 1; removed = false; deny_write_cnt = 0; disk = disk }

on_device : (index : ℕ) → index < 2 → sector_of disk cache index < 8
unfolding sector_of
on_device zero h = omega arith
on_device (suc zero) h = omega arith
on_device (suc (suc index)) h = absurd (omega arith)

pub disk-IsPlaced : IsPlaced disk cache
disk-IsPlaced = record {
  few = omega arith;
  direct_length = omega (arith, length-unused_blocks);
  indirect_bound = λ h. absurd (omega arith);
  bound = on_device;
}

inode_read_at-Reads_example : Reads disk cache 700 100 (inode_read_at inode 700 100 cache)
inode_read_at-Reads_example = inode_read_at-Reads inode 700 100 cache-IsValid disk-IsPlaced

-- Inode 0 is open.
abbrev pub inodes : Inodes
inodes = record { cache = cache; inodes = λ p. some inode; open_inodes = 0 ∷ [] }

abbrev pub write_map : Bitmap → File → Inodes → Outcome (Bool × Inodes)
write_map b file s = ok (true, s)

abbrev pub fs : Fs File
fs = record {
  free = record { free_map = record { bit_cnt = 8; bits = 255 ∷ [] }; free_map_file = none };
  rest = inodes;
}

abbrev pub file : File
file = record { inode = 0; pos = 0; deny_write = false }

file_deny_write-Denies_example :
    (file' : File) × (s' : Inodes) × (file_deny_write file inodes ≡ ok (file', s'))
    × ((other : File) (buffer : Bytes) (size ofs : ℕ) (fs : Fs File)
        → other.inode ≡ 0
        → fs.rest ≡ s'
        → file_write_at write_map other buffer size ofs fs ≡ ok (0, fs))
    × ((s'' : Inodes) × (file_allow_write file' s' ≡ ok (file, s'')) × (s''.inodes 0 ≡ some inode))
file_deny_write-Denies_example =
    file_deny_write-Denies write_map file inodes inode refl refl (omega arith)

apart_sectors : (i j : ℕ) → i < 2 → j < 2 → sector_of disk cache i ≡ sector_of disk cache j → i ≡ j
unfolding sector_of
apart_sectors zero zero h k e = refl
apart_sectors zero (suc zero) h k e = absurd (omega (arith, e))
apart_sectors (suc zero) zero h k e = absurd (omega (arith, e))
apart_sectors (suc zero) (suc zero) h k e = refl
apart_sectors (suc (suc i)) j h k e = absurd (omega arith)
apart_sectors i (suc (suc j)) h k e = absurd (omega arith)

pub disk-IsSeparate : IsSeparate disk cache 2
disk-IsSeparate = record { distinct = apart_sectors; table = λ many i h e. absurd (omega arith) }

inode_write_at-Wrote_example :
    (c' : BufferCache) × (inode_write_at write_map 0 (7 ∷ 8 ∷ []) 2 511 fs
      ≡ ok (2, record fs { rest = record inodes { cache = c' } }))
    × Wrote disk cache c' (overlay (7 ∷ 8 ∷ []) 2 511 (byte_at disk cache))
inode_write_at-Wrote_example =
    inode_write_at-Wrote write_map 0 (7 ∷ 8 ∷ []) 2 511 fs inode refl refl cache-IsValid
      disk-IsPlaced disk-IsSeparate (omega arith) (omega arith)

inode_read_at-inode_write_at_example :
    (s' : Fs File) × (inode_write_at write_map 0 (7 ∷ 8 ∷ []) 2 511 fs ≡ ok (2, s'))
    × (s'.rest.inodes 0 ≡ some inode)
    × ((c'' : BufferCache) × (inode_read_at inode 2 511 s'.rest.cache
          ≡ ok (take 2 (7 ∷ 8 ∷ []), c'')))
inode_read_at-inode_write_at_example =
    inode_read_at-inode_write_at write_map 0 (7 ∷ 8 ∷ []) 2 511 fs inode refl refl cache-IsValid
      disk-IsPlaced disk-IsSeparate (omega arith) (omega arith)
