-- ===== src/FreeMap/Release.antt =====
-- Sectors in use are never handed out again until they are released, and a release undoes an
-- allocation.
use mathlib.Core.Path.{subst₂}
use operating_system_pl_nt.Prelude.{
  ℕ, ◌+◌, ◌≤◌, ◌≡◌, refl, sym, ap, ◌∙◌, inl, inr, Bool, true, false, Option, some, if◌then◌else◌,
  Outcome, ok, panic, ◌>>=◌, ok-injective, arith,
}
use operating_system_pl_nt.Bitmap.{Bitmap, bitmap_all}
use operating_system_pl_nt.Bitmap.Member.{IsValid, member, Sets}
use operating_system_pl_nt.Bitmap.Ranges.{
  within, bitmap_set_multiple-Makes, Searched, missing, bitmap_all-Searched,
}
use operating_system_pl_nt.Bitmap.Scan.{IsRun, bitmap_all-flipped}
use operating_system_pl_nt.FreeMap.{FreeMap, free_map_allocate, free_map_release}
use operating_system_pl_nt.FreeMap.Alloc.{
  Allocated, taken, within_restored, free_map_allocate-Allocated,
}

-- A request for `n` sectors that was granted: they were free, and they alone are now in use.
record IsGranted {F : Type 0} (m : FreeMap F) (n a : ℕ) (m' : FreeMap F) : Type 0 where
  run : IsRun m.free_map a n false
  sets : Sets m.free_map m'.free_map (λ j. if within a n j then true else member m.free_map j)
  file : m'.free_map_file ≡ m.free_map_file

granted : {F : Type 0} {m m' : FreeMap F} {n a : ℕ} → Allocated m n (some a) m' → IsGranted m n a m'
granted (taken run before sets) = record { run = run; sets = sets; file = refl }

all_held :
    {F : Type 0} (m m' : FreeMap F) (n a : ℕ)
    → IsGranted m n a m'
    → bitmap_all m'.free_map a n ≡ ok true
all_held m m' n a g = bitmap_all-flipped m.free_map m'.free_map a n g.run g.sets

free_found :
    (b : Bitmap) (a n j : ℕ) (r : Bool)
    → within a n j ≡ true
    → member b j ≡ false
    → Searched b a n false r
    → r ≡ true
free_found b a n j true inside free s = refl
free_found b a n j false inside free (missing all) = ground (arith, all j)

module _ {F S : Type 0} (bitmap_write : Bitmap → F → S → Outcome (Bool × S)) where
  allocate-Allocated :
      (cnt : ℕ) (m m' : FreeMap F) (s s' : S) (o : Option ℕ)
      → IsValid m.free_map
      → free_map_allocate bitmap_write cnt m s ≡ ok (o, m', s')
      → Allocated m cnt o m'
  allocate-Allocated cnt m m' s s' o v e =
      elim (free_map_allocate-Allocated bitmap_write cnt m s v) [
        | inl (o1, m1, s1, e1, a) ↦
            let same : ◌≡◌ {A = Option ℕ × FreeMap F × S} (o1, m1, s1) (o, m', s') =
              ok-injective (sym e1 ∙ e) in
            subst₂ (Allocated m cnt) (ap (λ t. t.0) same) (ap (λ t. t.1) same) a
        | inr u ↦ absurd (elim u.ends [ inl (_, r) ↦ cc | inr (_, r) ↦ cc ])
      ]

  allocate-IsGranted :
      (n a : ℕ) (m m' : FreeMap F) (s s' : S)
      → IsValid m.free_map
      → free_map_allocate bitmap_write n m s ≡ ok (some a, m', s')
      → IsGranted m n a m'
  allocate-IsGranted n a m m' s s' v e = granted (allocate-Allocated n m m' s s' (some a) v e)

  -- Two requests in a row that are granted never share a sector, whatever `bitmap_write` does.
  pub free_map_allocate-disjoint :
      (m m1 m2 : FreeMap F) (s s1 s2 : S) (n k a b : ℕ)
      → IsValid m.free_map
      → free_map_allocate bitmap_write n m s ≡ ok (some a, m1, s1)
      → free_map_allocate bitmap_write k m1 s1 ≡ ok (some b, m2, s2)
      → (j : ℕ) → within a n j ≡ true
      → within b k j ≡ false
  free_map_allocate-disjoint m m1 m2 s s1 s2 n k a b v e1 e2 j in_a =
      let g1 : IsGranted m n a m1 = allocate-IsGranted n a m m1 s s1 v e1 in
      let g2 : IsGranted m1 k b m2 = allocate-IsGranted k b m1 m2 s1 s2 g1.sets.valid e2 in
      ground (arith, g1.sets.member_eq j, g2.run.all j)

  -- Sectors that are granted can be released: the map that the release makes, in memory and in what
  -- it hands to `bitmap_write`, has the bits from before the request, and the release returns
  -- whenever `bitmap_write` does, whatever that answers.
  pub free_map_release-allocate :
      (m m1 : FreeMap F) (s s1 : S) (f : F) (n a : ℕ)
      → IsValid m.free_map
      → m.free_map_file ≡ some f
      → free_map_allocate bitmap_write n m s ≡ ok (some a, m1, s1)
      → (b : Bitmap) × Sets m.free_map b (member m.free_map)
        × (free_map_release bitmap_write a n m1 s1
            ≡ (bitmap_write b f s1 >>= λ w. ok (record m { free_map = b }, w.1)))
  unfolding free_map_release
  free_map_release-allocate m m1 s s1 f n a v opened e =
      let g : IsGranted m n a m1 = allocate-IsGranted n a m m1 s s1 v e in
      let in_map : a + n ≤ m1.free_map.bit_cnt = omega (arith, g.sets.cnt_eq, g.run.fits) in
      let (b, clears, sets) = bitmap_set_multiple-Makes a n false g.sets.valid in_map in
      (
        b,
        within_restored m.free_map m1.free_map b a n g.run g.sets sets,
        simp (all_held m m1 n a g, clears, g.file ∙ opened, opened),
      )

  -- The release of a range with a free sector in it stops the kernel.
  pub free_map_release_twice :
      (m : FreeMap F) (s : S) (n a j : ℕ)
      → IsValid m.free_map
      → a + n ≤ m.free_map.bit_cnt
      → within a n j ≡ true
      → member m.free_map j ≡ false
      → free_map_release bitmap_write a n m s ≡ panic
  unfolding free_map_release
  free_map_release_twice m s n a j v in_map inside free =
      let (r, runs, searched) = bitmap_all-Searched a n v in_map in
      simp (runs, free_found m.free_map a n j r inside free searched)
