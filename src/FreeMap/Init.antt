-- ===== src/FreeMap/Init.antt =====
-- `free_map_init` leaves exactly the sectors of the free map and the root directory in use.
use operating_system_pl_nt.Prelude.{
  ℕ, ◌-◌, ◌^◌, ◌≤◌, ◌<◌, ◌≡◌, refl, ◌∙◌, List, true, ◌||◌, ◌==◌, none, some, length, ok, arith,
}
use operating_system_pl_nt.Bitmap.{elem_bits, elem_cnt}
use operating_system_pl_nt.Bitmap.Member.{IsValid, member, bitmap_mark-Makes}
use operating_system_pl_nt.Bitmap.Create.{bitmap_create-empty}
use operating_system_pl_nt.FreeMap.{FreeMap, free_map_init, free_map_sector, root_dir_sector}

-- On a device of at least two sectors, and with the memory there, `free_map_init` returns a map of
-- that many sectors, not yet backed by a file, in which sectors 0 and 1 are in use and no others.
pub free_map_init-reserved :
    (F : Type 0) (size : ℕ) (words : List ℕ)
    → 2 ≤ size
    → size ≤ 2 ^ 32 - elem_bits
    → length words ≡ elem_cnt size
    → (m : FreeMap F) × (free_map_init F size true (some words) ≡ ok m)
      × (m.free_map_file ≡ none)
      × IsValid m.free_map
      × (m.free_map.bit_cnt ≡ size)
      × ((j : ℕ)
          → j < size
          → member m.free_map j ≡ ((j == free_map_sector) || (j == root_dir_sector)))
unfolding free_map_init
free_map_init-reserved F size words two small room =
    let (b0, creates, v0, cnt0, empty) = bitmap_create-empty size words small room in
    let (b1, marks1, s1) = bitmap_mark-Makes 0 v0 (omega arith) in
    let (b2, marks2, s2) = bitmap_mark-Makes 1 s1.valid (omega (arith, s1.cnt_eq)) in
    (
      record { free_map = b2; free_map_file = none },
      simp (creates, marks1, marks2),
      refl,
      s2.valid,
      s2.cnt_eq ∙ s1.cnt_eq ∙ cnt0,
      λ j h. ground (arith, s2.member_eq j, s1.member_eq j, empty j),
    )
