-- ===== src/FreeMap.antt =====
-- filesys/free-map.c: the map of the sectors in use. `bitmap_write` goes through the file layer to
-- the inode of the free map; the functions here take it as an argument, over any state `S` of that
-- layer and any type `F` of open files, and its result says whether all bytes were written.
pub mod Alloc
pub mod Release
pub mod Init
pub mod Written
use operating_system_pl_nt.Prelude.{
  ℕ, Bool, true, false, not, ◌&&◌, Option, none, some, List, ◌==◌, if◌then◌else◌, Outcome, ok,
  panic, ◌>>=◌, ◌>>◌, assert,
}
use operating_system_pl_nt.Bitmap.{
  Bitmap, bitmap_error, bitmap_create, bitmap_mark, bitmap_set_multiple, bitmap_scan_and_flip,
  bitmap_all,
}

abbrev pub free_map_sector : ℕ
free_map_sector = 0

abbrev pub root_dir_sector : ℕ
root_dir_sector = 1

-- `free_map` and `free_map_file`; `none` is the null pointer.
pub record FreeMap (F : Type 0) : Type 0 where
  pub free_map : Bitmap
  pub free_map_file : Option F

-- `free_map_init`, with the size of the device and what `malloc` returns
pub free_map_init : (F : Type 0) → ℕ → Bool → Option (List ℕ) → Outcome (FreeMap F)
free_map_init F size header words = do
  created ← bitmap_create size header words
  elim created [
    | none ↦ panic
    | some b ↦ do
      b ← bitmap_mark b free_map_sector
      b ← bitmap_mark b root_dir_sector
      ok (record { free_map = b; free_map_file = none })
  ]

module _ {F S : Type 0} (bitmap_write : Bitmap → F → S → Outcome (Bool × S)) where
  -- the map written back, where its file is open
  unfoldable pub save : FreeMap F → S → Outcome (Bool × S)
  save m s = elim m.free_map_file [
    | none ↦ ok (true, s)
    | some file ↦ bitmap_write m.free_map file s
  ]

  -- The result is the first of the sectors, or nothing.
  unfoldable pub free_map_allocate : ℕ → FreeMap F → S → Outcome (Option ℕ × FreeMap F × S)
  unfolding save
  free_map_allocate cnt m s = do
    (sector, b) ← bitmap_scan_and_flip m.free_map 0 cnt false
    if sector == bitmap_error then ok (none, record m { free_map = b }, s) else (do
      (saved, s) ← save (record m { free_map = b }) s
      if saved then ok (some sector, record m { free_map = b }, s) else (do
        b ← bitmap_set_multiple b sector cnt false
        ok (none, record m { free_map = b }, s)))

  unfoldable pub free_map_release : ℕ → ℕ → FreeMap F → S → Outcome (FreeMap F × S)
  free_map_release sector cnt m s = do
    held ← bitmap_all m.free_map sector cnt
    assert held
    b ← bitmap_set_multiple m.free_map sector cnt false
    elim m.free_map_file [
      | none ↦ panic
      | some file ↦ do (_, s) ← bitmap_write b file s; ok (record m { free_map = b }, s)
    ]
