-- ===== src/Tests/BitmapRuns.antt =====
-- A bitmap of eight bits, the lowest three of them set.
use operating_system_pl_nt.Prelude.{ℕ, ◌≡◌, refl, false, [], ◌∷◌, ok, arith}
use operating_system_pl_nt.Bitmap.{
  Bitmap, bitmap_set, bitmap_mark, bitmap_contains, bitmap_set_multiple, bitmap_scan,
  bitmap_scan_and_flip, bitmap_test,
}
use operating_system_pl_nt.Bitmap.Member.{IsValid}
use operating_system_pl_nt.Bitmap.Scan.{Flipped, bitmap_scan_and_flip-Flipped}

abbrev low_three : Bitmap
low_three = record { bit_cnt = 8; bits = 7 ∷ [] }

low_three-IsValid : IsValid low_three
low_three-IsValid = record { small = omega arith; room = refl }

scan_finds :
    bitmap_scan_and_flip low_three 0 2 false ≡ ok (3, record { bit_cnt = 8; bits = 31 ∷ [] })
unfolding bitmap_scan_and_flip bitmap_scan bitmap_contains bitmap_test bitmap_set_multiple
    bitmap_set bitmap_mark
scan_finds = refl

scan_fails : bitmap_scan low_three 0 6 false ≡ ok 0xffff_ffff
unfolding bitmap_scan bitmap_contains bitmap_test
scan_fails = refl

bitmap_scan_and_flip-Flipped_example :
    (k : ℕ) × (b' : Bitmap) × (bitmap_scan_and_flip low_three 0 2 false ≡ ok (k, b'))
    × Flipped low_three 0 2 false k b'
bitmap_scan_and_flip-Flipped_example =
    bitmap_scan_and_flip-Flipped 0 2 false low_three-IsValid (omega arith)
