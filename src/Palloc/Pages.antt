-- ===== src/Palloc/Pages.antt =====
-- What the page allocator gives and takes back.
use operating_system_pl_nt.Prelude.{
  ℕ, ◌+◌, ◌*◌, ◌/◌, ◌%◌, ◌<◌, ◌≤◌, ◌≡◌, ◌≢◌, ◌⊎◌, refl, inl, inr, Bool, true, false, not, ◌&&◌,
  none, some, if◌then◌else◌, ok, panic, arith, ne→==,
}
use operating_system_pl_nt.Bitmap.{Bitmap, bitmap_error, bitmap_scan_and_flip}
use operating_system_pl_nt.Bitmap.Member.{IsValid, member, Sets}
use operating_system_pl_nt.Bitmap.Ranges.{within}
use operating_system_pl_nt.Bitmap.Scan.{
  IsRun, Flipped, flipped, unchanged, bitmap_scan_and_flip-Flipped,
}
use operating_system_pl_nt.Palloc.{
  pgsize, Palloc, Flags, pool_of, put_map, fill, palloc_get_multiple,
}

-- Two pools of whole pages, of which the kernel's ends before the user's.
pub record IsPalloc (s : Palloc) : Type 0 where
  pub kernel_map : IsValid s.kernel_pool.used_map
  pub user_map : IsValid s.user_pool.used_map
  pub kernel_base : s.kernel_pool.base % pgsize ≡ 0
  pub user_base : s.user_pool.base % pgsize ≡ 0
  pub apart :
      s.kernel_pool.base / pgsize + s.kernel_pool.used_map.bit_cnt ≤ s.user_pool.base / pgsize

-- `cnt` pages from `pages` on, given from a pool, zeroed or not.
pub record Got (zeroed user : Bool) (cnt : ℕ) (s s' : Palloc) (pages : ℕ) : Type 0 where
  pub idx : ℕ
  pub pages_eq : pages ≡ (pool_of user s).base + pgsize * idx
  pub run : IsRun (pool_of user s).used_map idx cnt false
  pub first : (k : ℕ) → k < idx → ¬ IsRun (pool_of user s).used_map k cnt false
  pub sets :
      Sets
        (pool_of user s).used_map
        (pool_of user s').used_map
        (λ j. if within idx cnt j then true else member (pool_of user s).used_map j)
  pub base_eq : (pool_of user s').base ≡ (pool_of user s).base
  pub other_eq : pool_of (not user) s' ≡ pool_of (not user) s
  pub memory_eq :
      (a : ℕ) → s'.memory a ≡ (if zeroed && within pages (pgsize * cnt) a then 0 else s.memory a)

-- What a request comes to: pages, or, where no run of free pages is long enough, nothing or a
-- panic.
abbrev pub Gets : Flags → ℕ → Palloc → Type 0
Gets flags cnt s =
    ((pages : ℕ) × (s' : Palloc) × (palloc_get_multiple flags cnt s ≡ ok (some pages, s'))
      × Got flags.pal_zero flags.pal_user cnt s s' pages)
    ⊎ ((palloc_get_multiple flags cnt s ≡ (if flags.pal_assert then panic else ok (none, s)))
        × ((k : ℕ) → ¬ IsRun (pool_of flags.pal_user s).used_map k cnt false))

-- The state after pages from index `k` on were given.
abbrev given : Bool → Bool → ℕ → ℕ → Bitmap → Palloc → Palloc
given z u cnt k b s =
    if z
    then fill ((pool_of u s).base + pgsize * k) 0 (pgsize * cnt) (put_map u b s)
    else put_map u b s

got_lem :
    (z u : Bool) (cnt k : ℕ) (b : Bitmap) (s : Palloc)
    → IsRun (pool_of u s).used_map k cnt false
    → ((i : ℕ) → i < k → ¬ IsRun (pool_of u s).used_map i cnt false)
    → Sets
        (pool_of u s).used_map
        b
        (λ j. if within k cnt j then true else member (pool_of u s).used_map j)
    → Got z u cnt s (given z u cnt k b s) ((pool_of u s).base + pgsize * k)
got_lem true true cnt k b s run before sets = record {
  idx = k;
  pages_eq = refl;
  run = run;
  first = before;
  sets = sets;
  base_eq = refl;
  other_eq = refl;
  memory_eq = λ a. refl;
}
got_lem true false cnt k b s run before sets = record {
  idx = k;
  pages_eq = refl;
  run = run;
  first = before;
  sets = sets;
  base_eq = refl;
  other_eq = refl;
  memory_eq = λ a. refl;
}
got_lem false true cnt k b s run before sets = record {
  idx = k;
  pages_eq = refl;
  run = run;
  first = before;
  sets = sets;
  base_eq = refl;
  other_eq = refl;
  memory_eq = λ a. refl;
}
got_lem false false cnt k b s run before sets = record {
  idx = k;
  pages_eq = refl;
  run = run;
  first = before;
  sets = sets;
  base_eq = refl;
  other_eq = refl;
  memory_eq = λ a. refl;
}

put_same : (u : Bool) (s : Palloc) → put_map u (pool_of u s).used_map s ≡ s
put_same true s = refl
put_same false s = refl

get_lem :
    (flags : Flags) (cnt : ℕ) (s : Palloc) (k : ℕ) (b : Bitmap)
    → cnt ≢ 0
    → IsValid (pool_of flags.pal_user s).used_map
    → bitmap_scan_and_flip (pool_of flags.pal_user s).used_map 0 cnt false ≡ ok (k, b)
    → Flipped (pool_of flags.pal_user s).used_map 0 cnt false k b
    → Gets flags cnt s
unfolding palloc_get_multiple
get_lem flags cnt s k b some_pages v flips (flipped le run before sets) = inl (
  (pool_of flags.pal_user s).base + pgsize * k,
  given flags.pal_zero flags.pal_user cnt k b s,
  simp (
    ne→== cnt 0 some_pages,
    flips,
    ne→== k bitmap_error (λ e. absurd (omega (arith, e, v.small, run.fits))),
    palloc_get_multiple,
  ),
  got_lem flags.pal_zero flags.pal_user cnt k b s run (λ i. before i (omega arith)) sets,
)
get_lem flags cnt s k b some_pages v flips (unchanged all) = inr (
  simp (ne→== cnt 0 some_pages, flips, put_same flags.pal_user s, palloc_get_multiple),
  λ k. all k (omega arith),
)

map_of : (u : Bool) (s : Palloc) → IsPalloc s → IsValid (pool_of u s).used_map
map_of true s is = is.user_map
map_of false s is = is.kernel_map

-- A request for pages from a pool takes the first of its free pages that are enough in a row, and
-- zeroes them where that is asked for; it changes no other page, no other byte and not the other
-- pool. Where no run of free pages is long enough it returns nothing and changes nothing, or stops
-- the kernel where PAL_ASSERT is set.
pub palloc_get_multiple-Gets :
    (flags : Flags) (cnt : ℕ) (s : Palloc) → cnt ≢ 0 → IsPalloc s → Gets flags cnt s
palloc_get_multiple-Gets flags cnt s some_pages is =
    let (k, b, flips, f) =
      bitmap_scan_and_flip-Flipped {b = (pool_of flags.pal_user s).used_map} 0 cnt false
        (map_of flags.pal_user s is) (omega arith) in
    get_lem flags cnt s k b some_pages (map_of flags.pal_user s is) flips f
