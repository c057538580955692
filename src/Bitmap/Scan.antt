-- ===== src/Bitmap/Scan.antt =====
-- `bitmap_scan` and `bitmap_scan_and_flip` find the first run of bits with a value, if there is
-- one.
use native.Mathlib.Decide.{ℕ_discrete}
use mathlib.Core.Path.{subst}
use operating_system_pl_nt.Prelude.{
  ℕ, zero, suc, ◌+◌, ◌-◌, ◌≤◌, ◌<◌, ◌≡◌, ◌≢◌, refl, sym, ap, ◌∙◌, Bool, true, false, not, inl, inr,
  leb, Bool-cases, if◌then◌else◌, ok, arith, ne→==,
}
use operating_system_pl_nt.Bitmap.{
  Bitmap, bitmap_all, bitmap_error, scan_loop, bitmap_scan, bitmap_scan_and_flip, bitmap_contains,
}
use operating_system_pl_nt.Bitmap.Member.{IsValid, member, Sets}
use operating_system_pl_nt.Bitmap.Ranges.{
  within, leb_of_le, Searched, found, missing, bitmap_contains-Searched, bitmap_all-Searched,
  bitmap_set_multiple-Makes,
}

-- `cnt` bits with the value from `i` on, inside the bitmap.
pub record IsRun (b : Bitmap) (i cnt : ℕ) (value : Bool) : Type 0 where
  pub fits : i + cnt ≤ b.bit_cnt
  pub all : (j : ℕ) → i ≤ j → j < i + cnt → member b j ≡ value

-- The first run at or after `start`, or BITMAP_ERROR where there is none.
pub data Scanned (b : Bitmap) (start cnt : ℕ) (value : Bool) : ℕ → Type 0 where
  first :
      {i : ℕ}
      → start ≤ i
      → IsRun b i cnt value
      → ((k : ℕ) → start ≤ k → k < i → ¬ IsRun b k cnt value)
      → Scanned b start cnt value i
  nowhere : ((k : ℕ) → start ≤ k → ¬ IsRun b k cnt value) → Scanned b start cnt value bitmap_error

not-not : (x : Bool) → not (not x) ≡ x
not-not true = refl
not-not false = refl

not-ne : (x : Bool) → not x ≢ x
not-ne true h = cc
not-ne false h = cc

Scanned-suc :
    (b : Bitmap) (i cnt : ℕ) (value : Bool) {r : ℕ}
    → ¬ IsRun b i cnt value
    → Scanned b (i + 1) cnt value r
    → Scanned b i cnt value r
Scanned-suc b i cnt value none (first le run before) = first (omega arith) run (λ k p q.
    elim (ℕ_discrete k i) [
      | yes here ↦ λ s. none (subst (λ n. IsRun b n cnt value) here s)
      | no later ↦ before k (omega arith) q
    ])
Scanned-suc b i cnt value none (nowhere all) = nowhere (λ k p. elim (ℕ_discrete k i) [
  | yes here ↦ λ s. none (subst (λ n. IsRun b n cnt value) here s)
  | no later ↦ all k (omega arith)
])

-- One value of `i`, by what `bitmap_contains` says there.
round :
    (n : ℕ) (b : Bitmap) (i cnt : ℕ) (value r : Bool)
    → i + cnt ≤ b.bit_cnt
    → bitmap_contains b i cnt (not value) ≡ ok r
    → Searched b i cnt (not value) r
    → (k : ℕ) × (scan_loop n b (i + 1) cnt value ≡ ok k) × Scanned b (i + 1) cnt value k
    → (k : ℕ) × (scan_loop (suc n) b i cnt value ≡ ok k) × Scanned b i cnt value k
unfolding scan_loop
round n b i cnt value true fits here (found j p q e) (k, loops, s) = (
  k,
  simp (here, loops),
  Scanned-suc b i cnt value (λ run. not-ne value (sym e ∙ run.all j p q)) s,
)
round n b i cnt value false fits here (missing all) rest = (
  i,
  simp here,
  first (omega arith) (record { fits = fits; all = λ j p q. all j p q ∙ not-not value })
      (λ k p q. absurd (omega arith)),
)

scan_loop-Scanned :
    (n : ℕ) (b : Bitmap) (i cnt : ℕ) (value : Bool)
    → IsValid b
    → b.bit_cnt < i + n + cnt
    → (n ≢ 0 → i + n + cnt ≡ b.bit_cnt + 1)
    → (k : ℕ) × (scan_loop n b i cnt value ≡ ok k) × Scanned b i cnt value k
unfolding scan_loop
scan_loop-Scanned zero b i cnt value v past exact =
    (bitmap_error, refl, nowhere (λ k p run. absurd (omega (arith, run.fits))))
scan_loop-Scanned (suc n) b i cnt value v past exact =
    let rest =
      scan_loop-Scanned n b (i + 1) cnt value v (omega arith)
        (λ _. omega (arith, exact (omega arith))) in
    let (r, here, s) =
      bitmap_contains-Searched i cnt (not value) v (omega (arith, exact (omega arith))) in
    round n b i cnt value r (omega (arith, exact (omega arith))) here s rest

-- A scan from `start` inside the bitmap returns, with the first run of `cnt` bits that have the
-- value, or with BITMAP_ERROR exactly when there is none.
pub bitmap_scan-Scanned :
    {b : Bitmap} (start cnt : ℕ) (value : Bool)
    → IsValid b
    → start ≤ b.bit_cnt
    → (k : ℕ) × (bitmap_scan b start cnt value ≡ ok k) × Scanned b start cnt value k
unfolding bitmap_scan
bitmap_scan-Scanned {b} start cnt value v h = elim (Bool-cases (leb cnt b.bit_cnt)) [
  | inl fits ↦
      let (k, loops, s) =
        scan_loop-Scanned (b.bit_cnt - cnt + 1 - start) b start cnt value v (ground arith)
          (ground arith) in
      (k, simp (leb_of_le start b.bit_cnt h, fits, loops), s)
  | inr wide ↦ (
    bitmap_error,
    simp (leb_of_le start b.bit_cnt h, wide),
    nowhere (λ k p run. absurd (ground (arith, run.fits))),
  )
]

-- The result of a scan that flips what it finds.
pub data Flipped (b : Bitmap) (start cnt : ℕ) (value : Bool) : ℕ → Bitmap → Type 0 where
  flipped :
      {i : ℕ} {b' : Bitmap}
      → start ≤ i
      → IsRun b i cnt value
      → ((k : ℕ) → start ≤ k → k < i → ¬ IsRun b k cnt value)
      → Sets b b' (λ j. if within i cnt j then not value else member b j)
      → Flipped b start cnt value i b'
  unchanged :
      ((k : ℕ) → start ≤ k → ¬ IsRun b k cnt value) → Flipped b start cnt value bitmap_error b

flip_found :
    (b : Bitmap) (start cnt : ℕ) (value : Bool) (k : ℕ)
    → IsValid b
    → bitmap_scan b start cnt value ≡ ok k
    → Scanned b start cnt value k
    → (b' : Bitmap) × (bitmap_scan_and_flip b start cnt value ≡ ok (k, b'))
      × Flipped b start cnt value k b'
unfolding bitmap_scan_and_flip
flip_found b start cnt value k v scans (first le run before) =
    let (b', sets, s) = bitmap_set_multiple-Makes k cnt (not value) v run.fits in
    (
      b',
      simp (scans, ne→== k bitmap_error (λ e. absurd (omega (arith, v.small, run.fits))), sets),
      flipped le run before s,
    )
flip_found b start cnt value k v scans (nowhere all) = (b, simp scans, unchanged all)

-- It flips the bits of the first run and no others, and changes nothing where there is no run.
pub bitmap_scan_and_flip-Flipped :
    {b : Bitmap} (start cnt : ℕ) (value : Bool)
    → IsValid b
    → start ≤ b.bit_cnt
    → (k : ℕ) × (b' : Bitmap) × (bitmap_scan_and_flip b start cnt value ≡ ok (k, b'))
      × Flipped b start cnt value k b'
bitmap_scan_and_flip-Flipped {b} start cnt value v h =
    let (k, scans, s) = bitmap_scan-Scanned start cnt value v h in
    let (b', flips, f) = flip_found b start cnt value k v scans s in (k, b', flips, f)

-- A scan for no bits at all returns `start`, whatever the bits are, and flips nothing.
pub bitmap_scan_and_flip_zero :
    {b : Bitmap} (start : ℕ) (value : Bool)
    → IsValid b
    → start ≤ b.bit_cnt
    → (b' : Bitmap) × (bitmap_scan_and_flip b start 0 value ≡ ok (start, b'))
      × ((j : ℕ) → member b' j ≡ member b j)
bitmap_scan_and_flip_zero {b} start value v h =
    let (k, b', flips, f) = bitmap_scan_and_flip-Flipped {b = b} start 0 value v h in
    zero_run k b' flips f
  where
    here : IsRun b start 0 value
    here = record { fits = omega arith; all = λ j p q. absurd (omega arith) }

    zero_run :
        (k : ℕ) (b' : Bitmap)
        → bitmap_scan_and_flip b start 0 value ≡ ok (k, b')
        → Flipped b start 0 value k b'
        → (b' : Bitmap) × (bitmap_scan_and_flip b start 0 value ≡ ok (start, b'))
          × ((j : ℕ) → member b' j ≡ member b j)
    zero_run k b' flips (flipped le run before s) = elim (ℕ_discrete k start) [
      | yes e ↦ (b', flips ∙ ap (λ n. ok (n, b')) e, λ j. ground (arith, s.member_eq j))
      | no ne ↦ absurd (before start (omega arith) (omega arith) here)
    ]
    zero_run k b' flips (unchanged all) = absurd (all start (omega arith) here)

-- The bits of a run that has been flipped are all set.
pub bitmap_all-flipped :
    (b b' : Bitmap) (a n : ℕ)
    → IsRun b a n false
    → Sets b b' (λ j. if within a n j then true else member b j)
    → bitmap_all b' a n ≡ ok true
bitmap_all-flipped b b' a n run sets =
    let (r, runs, searched) =
      bitmap_all-Searched a n sets.valid (omega (arith, sets.cnt_eq, run.fits)) in
    runs ∙ ap (λ x. ok (not x)) (none_free r searched)
  where
    none_free : (r : Bool) → Searched b' a n false r → r ≡ false
    none_free true (found j p q e) = absurd (ground (arith, sets.member_eq j))
    none_free false s = refl
