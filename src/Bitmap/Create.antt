-- ===== src/Bitmap/Create.antt =====
-- `bitmap_create` returns an empty bitmap, whatever `malloc` left in its words.
use operating_system_pl_nt.Prelude.{
  ℕ, ◌-◌, ◌^◌, ◌≤◌, ◌<◌, ◌≡◌, List, true, false, some, length, ok, arith,
}
use operating_system_pl_nt.Bitmap.{Bitmap, elem_bits, elem_cnt, bitmap_set_all, bitmap_create}
use operating_system_pl_nt.Bitmap.Member.{IsValid, member}
use operating_system_pl_nt.Bitmap.Ranges.{bitmap_set_multiple-Makes}

-- With the memory there, a new bitmap of `bit_cnt` bits is valid and all its bits are clear.
pub bitmap_create-empty :
    (bit_cnt : ℕ) (words : List ℕ)
    → bit_cnt ≤ 2 ^ 32 - elem_bits
    → length words ≡ elem_cnt bit_cnt
    → (b : Bitmap) × (bitmap_create bit_cnt true (some words) ≡ ok (some b))
      × IsValid b
      × (b.bit_cnt ≡ bit_cnt)
      × ((j : ℕ) → j < bit_cnt → member b j ≡ false)
unfolding bitmap_create bitmap_set_all
bitmap_create-empty bit_cnt words small room =
    let raw : Bitmap = record { bit_cnt = bit_cnt; bits = words } in
    let (b, sets, s) =
      bitmap_set_multiple-Makes {b = raw} 0 bit_cnt false (record { small = small; room = room })
        (omega arith) in
    (b, simp sets, s.valid, s.cnt_eq, λ j h. ground (arith, s.member_eq j))
