-- ===== src/Bitmap/Member.antt =====
-- A bitmap as a set of numbers: what the operations on single bits do to it.
use Prim.Native.Nat.{bit_xor}
use native.Mathlib.Decide.{ℕ_discrete}
use operating_system_pl_nt.Prelude.{
  ℕ, ◌-◌, ◌/◌, ◌%◌, ◌^◌, ◌≤◌, ◌<◌, ◌≡◌, ◌≢◌, refl, sym, ap, ◌∙◌, Bool, true, false, not, ◌==◌,
  lt→ltb, ne→==, if◌then◌else◌, length, get_or, set, length-set, get_elem?-eq-get_or,
  get_or-set_self, get_or-set_ne, Outcome, ok, arith,
}
use operating_system_pl_nt.Prelude.Bits.{
  bit, bit-le-one, bit_and-pow, bit-mark, bit-reset, bit-flip,
}
use operating_system_pl_nt.Bitmap.{
  Bitmap, elem_bits, elem_cnt, put_word, bitmap_mark, bitmap_reset, bitmap_flip, bitmap_set,
  bitmap_test, word_at,
}

pub record IsValid (b : Bitmap) : Type 0 where
  pub small : b.bit_cnt ≤ 2 ^ 32 - elem_bits
  pub room : length b.bits ≡ elem_cnt b.bit_cnt

abbrev pub word : Bitmap → ℕ → ℕ
word b q = get_or b.bits q 0

-- Whether bit `j` is set.
unfoldable pub member : Bitmap → ℕ → Bool
member b j = bit (word b (j / 32)) (j % 32) == 1

-- The operation returns a bitmap of the same size with the bits `f`.
pub record Sets (b b' : Bitmap) (f : ℕ → Bool) : Type 0 where
  pub valid : IsValid b'
  pub cnt_eq : b'.bit_cnt ≡ b.bit_cnt
  pub member_eq : (j : ℕ) → member b' j ≡ f j

module _ {b : Bitmap} (idx : ℕ) (v : IsValid b) (inside : idx < b.bit_cnt) where
  word_bound : idx / 32 < length b.bits
  word_bound = omega (arith, v.small, v.room)

  member-here :
      (w : ℕ) (value : Bool)
      → ((k : ℕ)
          → k < 32
          → bit w k
            ≡ (if idx % 32 == k then (if value then 1 else 0) else bit (word b (idx / 32)) k))
      → (j : ℕ) → idx / 32 ≡ j / 32
      → member (put_word b (idx / 32) w) j ≡ (if idx == j then value else member b j)
  unfolding member
  member-here w value digits j here =
      let there : word (put_word b (idx / 32) w) (j / 32) ≡ w =
        ap (λ q. get_or (set b.bits (idx / 32) w) q 0) (sym here)
        ∙ get_or-set_self b.bits (idx / 32) w 0 word_bound in
      let old : word b (j / 32) ≡ word b (idx / 32) = ap (word b) (sym here) in
      rw (there, old) (ground (arith, digits (j % 32) (omega arith)))

  member-away :
      (w : ℕ) (value : Bool) (j : ℕ)
      → idx / 32 ≢ j / 32
      → member (put_word b (idx / 32) w) j ≡ (if idx == j then value else member b j)
  unfolding member
  member-away w value j away =
      let other : idx ≢ j = λ e. away (ap (λ n. n / 32) e) in
      simp (get_or-set_ne b.bits (idx / 32) (j / 32) w 0 away, ne→== idx j other)

  pub word_at-eq : word_at b (idx / 32) ≡ ok (word b (idx / 32))
  unfolding word_at
  word_at-eq = rw (get_elem?-eq-get_or b.bits (idx / 32) 0 word_bound, word_at)

  pub bitmap_test-eq-member : bitmap_test b idx ≡ ok (member b idx)
  unfolding bitmap_test member
  bitmap_test-eq-member =
      simp (lt→ltb idx b.bit_cnt inside, word_at-eq, bit_and-pow (word b (idx / 32)) (idx % 32))
        (ap ok (ground (arith, bit-le-one (idx % 32) (word b (idx / 32)))))

  -- The word of bit `idx` is replaced by `w`, which differs from it at most at that bit.
  put_word-Sets :
      (w : ℕ) (value : Bool)
      → ((k : ℕ)
          → k < 32
          → bit w k
            ≡ (if idx % 32 == k then (if value then 1 else 0) else bit (word b (idx / 32)) k))
      → Sets b (put_word b (idx / 32) w) (λ j. if idx == j then value else member b j)
  put_word-Sets w value digits = record {
    valid = record { small = v.small; room = length-set b.bits (idx / 32) w ∙ v.room };
    cnt_eq = refl;
    member_eq = λ j. elim (ℕ_discrete (idx / 32) (j / 32)) [
      | yes here ↦ member-here w value digits j here
      | no away ↦ member-away w value j away
    ];
  }

-- A call that returns a bitmap with the bits `f`.
abbrev pub Makes : Bitmap → (ℕ → Bool) → Outcome Bitmap → Type 0
Makes b f r = (b' : Bitmap) × (r ≡ ok b') × Sets b b' f

module _ {b : Bitmap} (idx : ℕ) (v : IsValid b) (inside : idx < b.bit_cnt) where
  -- Setting, clearing and flipping a bit change that bit alone.
  pub bitmap_mark-Makes : Makes b (λ j. if idx == j then true else member b j) (bitmap_mark b idx)
  unfolding bitmap_mark
  bitmap_mark-Makes = (
    _,
    simp (word_at-eq idx v inside),
    put_word-Sets idx v inside _ true (λ k _. bit-mark (word b (idx / 32)) (idx % 32) k),
  )

  pub bitmap_reset-Makes :
      Makes b (λ j. if idx == j then false else member b j) (bitmap_reset b idx)
  unfolding bitmap_reset
  bitmap_reset-Makes = (
    _,
    simp (word_at-eq idx v inside),
    put_word-Sets idx v inside _ false
        (λ k h. bit-reset 32 (word b (idx / 32)) (idx % 32) k (omega arith) h),
  )

  pub bitmap_flip-Makes :
      Makes b (λ j. if idx == j then not (member b idx) else member b j) (bitmap_flip b idx)
  unfolding bitmap_flip
  bitmap_flip-Makes =
      (_, simp (word_at-eq idx v inside), put_word-Sets idx v inside _ (not (member b idx)) flipped)
    where
      flipped :
          (k : ℕ)
          → k < 32
          → bit (bit_xor (word b (idx / 32)) (2 ^ (idx % 32))) k ≡ (
              if idx % 32 == k
              then (if not (member b idx) then 1 else 0)
              else bit (word b (idx / 32)) k)
      flipped k h =
          unfold member in
          ground
            (arith, bit-flip (word b (idx / 32)) (idx % 32) k, bit-le-one k (word b (idx / 32)))

  pub bitmap_set-Makes :
      (value : Bool)
      → Makes b (λ j. if idx == j then value else member b j) (bitmap_set b idx value)
  unfolding bitmap_set
  bitmap_set-Makes true = simp (lt→ltb idx b.bit_cnt inside) bitmap_mark-Makes
  bitmap_set-Makes false = simp (lt→ltb idx b.bit_cnt inside) bitmap_reset-Makes
