-- ===== src/Tests/PallocRuns.antt =====
-- Two pools of four pages; the first page of the kernel's is in use.
use operating_system_pl_nt.Prelude.{◌≡◌, refl, true, false, some, [], ◌∷◌, ok, arith}
use operating_system_pl_nt.Bitmap.{
  bitmap_scan_and_flip, bitmap_scan, bitmap_contains, bitmap_test, bitmap_set_multiple, bitmap_set,
  bitmap_mark,
}
use operating_system_pl_nt.Bitmap.Member.{member, Sets}
use operating_system_pl_nt.Palloc.{Palloc, Flags, palloc_get_multiple, palloc_free_multiple}
use operating_system_pl_nt.Palloc.Pages.{IsPalloc, Gets, palloc_get_multiple-Gets}
use operating_system_pl_nt.Palloc.Frees.{palloc_free_multiple-get_multiple}

abbrev pools : Palloc
pools = record {
  kernel_pool = record { used_map = record { bit_cnt = 4; bits = 1 ∷ [] }; base = 1048576 };
  user_pool = record { used_map = record { bit_cnt = 4; bits = 0 ∷ [] }; base = 2097152 };
  memory = λ _. 7;
}

pools-IsPalloc : IsPalloc pools
pools-IsPalloc = record {
  kernel_map = record { small = omega arith; room = refl };
  user_map = record { small = omega arith; room = refl };
  kernel_base = refl;
  user_base = refl;
  apart = omega arith;
}

abbrev flags : Flags
flags = record { pal_assert = true; pal_zero = false; pal_user = false }

palloc_get_multiple-Gets_example : Gets flags 2 pools
palloc_get_multiple-Gets_example =
    palloc_get_multiple-Gets flags 2 pools (omega arith) pools-IsPalloc

abbrev pools_after : Palloc
pools_after = record pools {
  kernel_pool = record { used_map = record { bit_cnt = 4; bits = 7 ∷ [] }; base = 1048576 };
}

gets_two : palloc_get_multiple flags 2 pools ≡ ok (some 1052672, pools_after)
unfolding palloc_get_multiple bitmap_scan_and_flip bitmap_scan bitmap_contains bitmap_test
    bitmap_set_multiple bitmap_set bitmap_mark
gets_two = refl

palloc_free_multiple-get_multiple_example :
    (s'' : Palloc) × (palloc_free_multiple (some 1052672) 2 pools_after ≡ ok s'')
    × Sets pools.kernel_pool.used_map s''.kernel_pool.used_map (member pools.kernel_pool.used_map)
    × (s''.user_pool ≡ pools.user_pool)
palloc_free_multiple-get_multiple_example =
    palloc_free_multiple-get_multiple flags 2 pools pools_after 1052672 (omega arith) pools-IsPalloc
      gets_two
