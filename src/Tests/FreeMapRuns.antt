-- ===== src/Tests/FreeMapRuns.antt =====
-- The free map of a device of eight sectors, in the file of FileRuns.
use operating_system_pl_nt.Prelude.{ℕ, ◌≡◌, refl, true, false, some, [], ◌∷◌, ok, ◌>>=◌, arith}
use operating_system_pl_nt.Bitmap.{
  Bitmap, bitmap_set, bitmap_mark, bitmap_contains, bitmap_set_multiple, bitmap_scan,
  bitmap_scan_and_flip, bitmap_test,
}
use operating_system_pl_nt.Bitmap.Member.{IsValid, member, Sets}
use operating_system_pl_nt.Bitmap.Ranges.{within}
use operating_system_pl_nt.Inode.{Inodes}
use operating_system_pl_nt.File.{File}
use operating_system_pl_nt.FreeMap.{FreeMap, save, free_map_allocate, free_map_release}
use operating_system_pl_nt.FreeMap.Alloc.{Allocates, free_map_allocate-Allocated}
use operating_system_pl_nt.FreeMap.Release.{free_map_allocate-disjoint, free_map_release-allocate}
use operating_system_pl_nt.FreeMap.Written.{
  bitmap_write, IsMapFile, Saved, Keeps, bitmap_write-Saved, free_map_allocate-Keeps,
}
use operating_system_pl_nt.Tests.CacheRuns.{cache-IsValid}
use operating_system_pl_nt.Tests.FileRuns.{inode, inodes, file, disk-IsPlaced, disk-IsSeparate}

abbrev map_of : ℕ → FreeMap File
map_of word = record {
  free_map = record { bit_cnt = 8; bits = word ∷ [] };
  free_map_file = some file;
}

map_of-IsValid : (word : ℕ) → IsValid (map_of word).free_map
map_of-IsValid word = record { small = omega arith; room = refl }

abbrev file-IsMapFile : IsMapFile 8 file inodes
file-IsMapFile = record {
  inode = inode;
  at = refl;
  allowed = refl;
  cache = cache-IsValid;
  placed = disk-IsPlaced;
  separate = disk-IsSeparate;
  room = omega arith;
}

free_map_allocate-Allocated_example :
    Allocates bitmap_write (map_of 7) 2 inodes (free_map_allocate bitmap_write 2 (map_of 7) inodes)
free_map_allocate-Allocated_example =
    free_map_allocate-Allocated bitmap_write 2 (map_of 7) inodes (map_of-IsValid 7)

free_map_allocate-Keeps_example : Keeps (map_of 7) 2 file inodes inode
free_map_allocate-Keeps_example =
    free_map_allocate-Keeps 2 (map_of 7) inodes file (map_of-IsValid 7) refl file-IsMapFile

abbrev two_written :
    (s' : Inodes) × (bitmap_write (map_of 31).free_map file inodes ≡ ok (true, s'))
    × Saved (map_of 31).free_map file inodes inode s'
two_written = bitmap_write-Saved (map_of 31).free_map file inodes (map_of-IsValid 31) file-IsMapFile

-- the inodes after the map with sectors 3 and 4 in use was written
abbrev inodes1 : Inodes
inodes1 = two_written.0

abbrev three_written :
    (s' : Inodes) × (bitmap_write (map_of 63).free_map file inodes1 ≡ ok (true, s'))
    × Saved (map_of 63).free_map file inodes1 (two_written.2).in_order.inode s'
three_written =
    bitmap_write-Saved (map_of 63).free_map file inodes1 (map_of-IsValid 63)
      (two_written.2).in_order

abbrev inodes2 : Inodes
inodes2 = three_written.0

scan_two : bitmap_scan_and_flip (map_of 7).free_map 0 2 false ≡ ok (3, (map_of 31).free_map)
unfolding bitmap_scan_and_flip bitmap_scan bitmap_contains bitmap_test bitmap_set_multiple
    bitmap_set bitmap_mark
scan_two = refl

scan_one : bitmap_scan_and_flip (map_of 31).free_map 0 1 false ≡ ok (5, (map_of 63).free_map)
unfolding bitmap_scan_and_flip bitmap_scan bitmap_contains bitmap_test bitmap_set_multiple
    bitmap_set bitmap_mark
scan_one = refl

first_two : free_map_allocate bitmap_write 2 (map_of 7) inodes ≡ ok (some 3, map_of 31, inodes1)
unfolding free_map_allocate save
first_two = simp (scan_two, two_written.1)

next_one : free_map_allocate bitmap_write 1 (map_of 31) inodes1 ≡ ok (some 5, map_of 63, inodes2)
unfolding free_map_allocate save
next_one = simp (scan_one, three_written.1)

free_map_allocate-disjoint_example : within 5 1 4 ≡ false
free_map_allocate-disjoint_example =
    free_map_allocate-disjoint bitmap_write (map_of 7) (map_of 31) (map_of 63) inodes inodes1
      inodes2 2 1 3 5 (map_of-IsValid 7) first_two next_one 4 refl

free_map_release-allocate_example :
    (b : Bitmap) × Sets (map_of 7).free_map b (member (map_of 7).free_map)
    × (free_map_release bitmap_write 3 2 (map_of 31) inodes1
        ≡ (bitmap_write b file inodes1 >>= λ w. ok (record (map_of 7) { free_map = b }, w.1)))
free_map_release-allocate_example =
    free_map_release-allocate bitmap_write (map_of 7) (map_of 31) inodes inodes1 file 2 3
      (map_of-IsValid 7) refl first_two
