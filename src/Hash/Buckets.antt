-- ===== src/Hash/Buckets.antt =====
-- What the buckets of a table hold.
use Prim.Native.Nat.{bit_and}
use operating_system_pl_nt.Prelude.{
  get_or-set, ℕ, zero, suc, ◌+◌, ◌-◌, ◌≤◌, ◌<◌, ◌≡◌, ◌≢◌, ◌==◌, refl, inl, inr, false, List, [],
  ◌∷◌, if◌then◌else◌, length, get_or, set, ok, arith, Bool-cases, ne→==,
}
use operating_system_pl_nt.Prelude.Bits.{bit_and-below}
use operating_system_pl_nt.Hash.{bucket_at, turn_off_least_1bit, is_power_of_2, shrink, no_buckets}

-- How often an element is in a bucket, and in all.
abbrev pub times : ℕ → List ℕ → ℕ
times u [] = 0
times u (x ∷ xs) = if x == u then suc (times u xs) else times u xs

abbrev pub total : ℕ → List (List ℕ) → ℕ
total u [] = 0
total u (b ∷ bs) = times u b + total u bs

abbrev pub size : List (List ℕ) → ℕ
size [] = 0
size (b ∷ bs) = length b + size bs

abbrev pub bucket : List (List ℕ) → ℕ → List ℕ
bucket bs i = get_or bs i []

pub bucket_at-bucket :
    (bs : List (List ℕ)) (i : ℕ) → i < length bs → bucket_at bs i ≡ ok (bucket bs i)
unfolding bucket_at
bucket_at-bucket [] i h = absurd (omega arith)
bucket_at-bucket (b ∷ bs) zero h = refl
bucket_at-bucket (b ∷ bs) (suc i) h = bucket_at-bucket bs i (omega arith)

pub total-set :
    (u : ℕ) (bs : List (List ℕ)) (i : ℕ) (v : List ℕ)
    → i < length bs
    → total u (set bs i v) + times u (bucket bs i) ≡ total u bs + times u v
total-set u [] i v h = absurd (omega arith)
total-set u (b ∷ bs) zero v h = omega arith
total-set u (b ∷ bs) (suc i) v h = omega (arith, total-set u bs i v (omega arith))

pub size-set :
    (bs : List (List ℕ)) (i : ℕ) (v : List ℕ)
    → i < length bs
    → size (set bs i v) + length (bucket bs i) ≡ size bs + length v
size-set [] i v h = absurd (omega arith)
size-set (b ∷ bs) zero v h = omega arith
size-set (b ∷ bs) (suc i) v h = omega (arith, size-set bs i v (omega arith))

pub bucket-set :
    (bs : List (List ℕ)) (i j : ℕ) (v : List ℕ)
    → i < length bs
    → bucket (set bs i v) j ≡ (if i == j then v else bucket bs j)
bucket-set bs i j v h = get_or-set [] bs i j v h

-- An element that is somewhere is in a bucket.
pub somewhere :
    (u : ℕ) (bs : List (List ℕ))
    → total u bs ≢ 0
    → (i : ℕ) × (i < length bs) × (times u (bucket bs i) ≢ 0)
somewhere u [] h = absurd (h refl)
somewhere u (b ∷ bs) h = elim (Bool-cases (times u b == 0)) [
  | inl not_here ↦
      let (i, inside, there) = somewhere u bs (ground (arith, h, not_here)) in
      (suc i, omega arith, there)
  | inr here ↦ (0, omega arith, ground (arith, here))
]

pub empty-total : (u n : ℕ) → total u (no_buckets n) ≡ 0
empty-total u zero = refl
empty-total u (suc n) = omega (arith, empty-total u n)

pub empty-size : (n : ℕ) → size (no_buckets n) ≡ 0
empty-size zero = refl
empty-size (suc n) = omega (arith, empty-size n)

pub empty-bucket : (n i : ℕ) → bucket (no_buckets n) i ≡ []
empty-bucket zero i = refl
empty-bucket (suc n) zero = refl
empty-bucket (suc n) (suc i) = empty-bucket n i

-- The number of buckets is found: `shrink` ends within `x` rounds, and not at 0.
pub shrink-ends : (fuel x : ℕ) → 0 < x → x ≤ fuel → (y : ℕ) × (shrink fuel x ≡ ok y) × (0 < y)
unfolding shrink is_power_of_2 turn_off_least_1bit
shrink-ends zero x some_left h = absurd (omega arith)
shrink-ends (suc fuel) x some_left h =
    let rest : ℕ = bit_and x (x - 1) in
    let visible : (x == 0) ≡ false = ne→== x 0 (λ z. absurd (omega (arith, z, some_left))) in
    elim (Bool-cases (rest == 0)) [
      | inl power ↦
          (x, simp (power, visible, shrink, is_power_of_2, turn_off_least_1bit), some_left)
      | inr other ↦
          let (y, ends, more) =
            shrink-ends fuel rest (ground (arith, other))
              (omega (arith, bit_and-below x (x - 1), some_left, h)) in
          (y, simp (other, visible, shrink, is_power_of_2, turn_off_least_1bit) ends, more)
    ]
