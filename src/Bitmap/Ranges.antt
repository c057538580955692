-- ===== src/Bitmap/Ranges.antt =====
-- The operations on a range of bits: setting them, and asking whether one has a value.
use native.Mathlib.Decide.{ℕ_discrete}
use operating_system_pl_nt.Prelude.{
  ℕ, zero, suc, ◌+◌, ◌≤◌, ◌<◌, ◌≡◌, refl, ap, ◌∙◌, Bool, true, false, not, ◌&&◌, inl, inr, leb, ltb,
  Bool-cases, if◌then◌else◌, ok, arith,
}
use operating_system_pl_nt.Bitmap.{
  Bitmap, add_size, same, set_loop, bitmap_set_multiple, contains_loop, bitmap_contains, bitmap_all,
  bitmap_none,
}
use operating_system_pl_nt.Bitmap.Member.{
  IsValid, member, Makes, bitmap_set-Makes, bitmap_test-eq-member,
}

abbrev pub within : ℕ → ℕ → ℕ → Bool
within start cnt j = leb start j && ltb j (start + cnt)

pub leb_of_le : (a b : ℕ) → a ≤ b → leb a b ≡ true
leb_of_le a b h = ground arith

pub add_size-eq :
    (b : Bitmap) (idx n : ℕ) → IsValid b → idx + n ≤ b.bit_cnt → add_size idx n ≡ idx + n
add_size-eq b idx n v h = omega (arith, v.small)

set_loop-Makes :
    (n : ℕ) (b : Bitmap) (idx : ℕ) (value : Bool)
    → IsValid b
    → idx + n ≤ b.bit_cnt
    → Makes b (λ j. if within idx n j then value else member b j) (set_loop n b idx value)
unfolding set_loop
set_loop-Makes zero b idx value v h =
    (b, refl, record { valid = v; cnt_eq = refl; member_eq = λ j. ground arith })
set_loop-Makes (suc n) b idx value v h =
    let rest = set_loop-Makes n in
    let (b1, sets, s) = bitmap_set-Makes idx v (omega arith) value in
    let (b2, loops, r) = rest b1 (idx + 1) value s.valid (omega (arith, s.cnt_eq)) in
    (
      b2,
      simp (sets, add_size-eq b idx 1 v (omega arith), loops),
      record {
        valid = r.valid;
        cnt_eq = r.cnt_eq ∙ s.cnt_eq;
        member_eq = λ j. ground (arith, r.member_eq j, s.member_eq j);
      },
    )

-- Setting `cnt` bits from `start` on changes those bits alone.
pub bitmap_set_multiple-Makes :
    {b : Bitmap} (start cnt : ℕ) (value : Bool)
    → IsValid b
    → start + cnt ≤ b.bit_cnt
    → Makes b
        (λ j. if within start cnt j then value else member b j)
        (bitmap_set_multiple b start cnt value)
unfolding bitmap_set_multiple
bitmap_set_multiple-Makes {b} start cnt value v h =
    let (b', loops, s) = set_loop-Makes cnt b start value v h in
    (
      b',
      simp (
        leb_of_le start b.bit_cnt (omega arith),
        add_size-eq b start cnt v h,
        leb_of_le (start + cnt) b.bit_cnt h,
        loops,
      ),
      s,
    )

-- Some bit of the range has the value, or none has.
pub data Searched (b : Bitmap) (start cnt : ℕ) (value : Bool) : Bool → Type 0 where
  found :
      (j : ℕ) → start ≤ j → j < start + cnt → member b j ≡ value → Searched b start cnt value true
  missing :
      ((j : ℕ) → start ≤ j → j < start + cnt → member b j ≡ not value)
      → Searched b start cnt value false

same→eq : (x y : Bool) → same x y ≡ true → x ≡ y
same→eq true y h = ground arith
same→eq false y h = ground arith

same→not : (x y : Bool) → same x y ≡ false → x ≡ not y
same→not true y h = ground arith
same→not false y h = ground arith

Searched-suc :
    (b : Bitmap) (idx n : ℕ) (value : Bool) {r : Bool}
    → member b idx ≡ not value
    → Searched b (idx + 1) n value r
    → Searched b idx (suc n) value r
Searched-suc b idx n value first (found j p q e) = found j (omega arith) (omega arith) e
Searched-suc b idx n value first (missing all) = missing (λ j p q. elim (ℕ_discrete j idx) [
  | yes here ↦ ap (member b) here ∙ first
  | no later ↦ all j (omega arith) (omega arith)
])

contains_loop-Searched :
    (n : ℕ) (b : Bitmap) (idx : ℕ) (value : Bool)
    → IsValid b
    → idx + n ≤ b.bit_cnt
    → (r : Bool) × (contains_loop n b idx value ≡ ok r) × Searched b idx n value r
unfolding contains_loop
contains_loop-Searched zero b idx value v h = (false, refl, missing (λ j p q. absurd (omega arith)))
contains_loop-Searched (suc n) b idx value v h =
    let (r, loops, s) = contains_loop-Searched n b (idx + 1) value v (omega arith) in
    elim (Bool-cases (same (member b idx) value)) [
      | inl eq ↦ (
        true,
        simp (bitmap_test-eq-member idx v (omega arith), eq),
        found idx (omega arith) (omega arith) (same→eq (member b idx) value eq),
      )
      | inr ne ↦ (
        r,
        simp (
          bitmap_test-eq-member idx v (omega arith),
          ne,
          add_size-eq b idx 1 v (omega arith),
          loops,
        ),
        Searched-suc b idx n value (same→not (member b idx) value ne) s,
      )
    ]

pub bitmap_contains-Searched :
    {b : Bitmap} (start cnt : ℕ) (value : Bool)
    → IsValid b
    → start + cnt ≤ b.bit_cnt
    → (r : Bool) × (bitmap_contains b start cnt value ≡ ok r) × Searched b start cnt value r
unfolding bitmap_contains
bitmap_contains-Searched {b} start cnt value v h =
    let (r, loops, s) = contains_loop-Searched cnt b start value v h in
    (
      r,
      simp (
        leb_of_le start b.bit_cnt (omega arith),
        add_size-eq b start cnt v h,
        leb_of_le (start + cnt) b.bit_cnt h,
        loops,
      ),
      s,
    )

-- `bitmap_all` and `bitmap_none` by the search for a bit that is off, or on.
pub bitmap_all-Searched :
    {b : Bitmap} (start cnt : ℕ)
    → IsValid b
    → start + cnt ≤ b.bit_cnt
    → (r : Bool) × (bitmap_all b start cnt ≡ ok (not r)) × Searched b start cnt false r
unfolding bitmap_all
bitmap_all-Searched start cnt v h =
    let (r, runs, s) = bitmap_contains-Searched start cnt false v h in (r, simp runs, s)

pub bitmap_none-Searched :
    {b : Bitmap} (start cnt : ℕ)
    → IsValid b
    → start + cnt ≤ b.bit_cnt
    → (r : Bool) × (bitmap_none b start cnt ≡ ok (not r)) × Searched b start cnt true r
unfolding bitmap_none
bitmap_none-Searched start cnt v h =
    let (r, runs, s) = bitmap_contains-Searched start cnt true v h in (r, simp runs, s)
