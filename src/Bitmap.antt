-- ===== src/Bitmap.antt =====
-- lib/kernel/bitmap.c, on the 32-bit machine that it runs on: an array of 32-bit words.
-- `bits[i]` outside the array is a `panic`: the source would touch memory that is not the bitmap's.
pub mod Member
pub mod Ranges
pub mod Scan
pub mod Create
use Prim.Native.Nat.{bit_and, bit_or, bit_xor}
use operating_system_pl_nt.Prelude.{
  ℕ, zero, suc, ◌+◌, ◌-◌, ◌*◌, ◌/◌, ◌%◌, ◌^◌, Bool, true, false, not, Option, none, some, List, [],
  leb, ltb, ◌==◌, if◌then◌else◌, get_elem?, set, replicate, Outcome, ok, panic, ◌>>=◌, ◌>>◌, assert,
}

-- SIZE_MAX, also BITMAP_ERROR
abbrev pub bitmap_error : ℕ
bitmap_error = 2 ^ 32 - 1

-- `size_t` addition
abbrev pub add_size : ℕ → ℕ → ℕ
add_size a b = (a + b) % 2 ^ 32

-- ELEM_BITS
abbrev pub elem_bits : ℕ
elem_bits = 32

pub record Bitmap : Type 0 where
  pub bit_cnt : ℕ
  pub bits : List ℕ

abbrev pub elem_idx : ℕ → ℕ
elem_idx bit_idx = bit_idx / elem_bits

abbrev pub bit_mask : ℕ → ℕ
bit_mask bit_idx = 2 ^ (bit_idx % elem_bits)

-- DIV_ROUND_UP
abbrev pub elem_cnt : ℕ → ℕ
elem_cnt bit_cnt = (bit_cnt + (elem_bits - 1)) % 2 ^ 32 / elem_bits

abbrev pub byte_cnt : ℕ → ℕ
byte_cnt bit_cnt = 4 * elem_cnt bit_cnt

-- `b->bits[elem_idx]`, read and written
pub word_at : Bitmap → ℕ → Outcome ℕ
word_at b q = elim (get_elem? b.bits q) [ none ↦ panic | some w ↦ ok w ]

abbrev pub put_word : Bitmap → ℕ → ℕ → Bitmap
put_word b q w = record b { bits = set b.bits q w }

unfoldable pub bitmap_mark : Bitmap → ℕ → Outcome Bitmap
unfolding word_at
bitmap_mark b bit_idx = do
  w ← word_at b (elem_idx bit_idx)
  ok (put_word b (elem_idx bit_idx) (bit_or w (bit_mask bit_idx)))

unfoldable pub bitmap_reset : Bitmap → ℕ → Outcome Bitmap
unfolding word_at
bitmap_reset b bit_idx = do
  w ← word_at b (elem_idx bit_idx)
  ok (put_word b (elem_idx bit_idx) (bit_and w (2 ^ 32 - 1 - bit_mask bit_idx)))

unfoldable pub bitmap_flip : Bitmap → ℕ → Outcome Bitmap
bitmap_flip b bit_idx = do
  w ← word_at b (elem_idx bit_idx)
  ok (put_word b (elem_idx bit_idx) (bit_xor w (bit_mask bit_idx)))

unfoldable pub bitmap_set : Bitmap → ℕ → Bool → Outcome Bitmap
bitmap_set b idx value = do
  assert (ltb idx b.bit_cnt)
  if value then bitmap_mark b idx else bitmap_reset b idx

unfoldable pub bitmap_test : Bitmap → ℕ → Outcome Bool
unfolding word_at
bitmap_test b idx = do
  assert (ltb idx b.bit_cnt)
  w ← word_at b (elem_idx idx)
  ok (not (bit_and w (bit_mask idx) == 0))

-- the loop of `bitmap_set_multiple`, for `n` more bits from `idx` on
set_loop : ℕ → Bitmap → ℕ → Bool → Outcome Bitmap
set_loop zero b idx value = ok b
set_loop (suc n) b idx value = do b ← bitmap_set b idx value; set_loop n b (add_size idx 1) value

abbrev pub in_bounds : Bitmap → ℕ → ℕ → Outcome (Unit {0})
in_bounds b start cnt = do assert (leb start b.bit_cnt); assert (leb (add_size start cnt) b.bit_cnt)

unfoldable pub bitmap_set_multiple : Bitmap → ℕ → ℕ → Bool → Outcome Bitmap
unfolding set_loop
bitmap_set_multiple b start cnt value = do in_bounds b start cnt; set_loop cnt b start value

unfoldable pub bitmap_set_all : Bitmap → Bool → Outcome Bitmap
unfolding bitmap_set_multiple
bitmap_set_all b value = bitmap_set_multiple b 0 b.bit_cnt value

-- `==` on bool
abbrev pub same : Bool → Bool → Bool
same true y = y
same false y = not y

count_loop : ℕ → Bitmap → ℕ → Bool → ℕ → Outcome ℕ
count_loop zero b idx value value_cnt = ok value_cnt
count_loop (suc n) b idx value value_cnt = do
  t ← bitmap_test b idx
  count_loop n b (add_size idx 1) value (if same t value then value_cnt + 1 else value_cnt)

pub bitmap_count : Bitmap → ℕ → ℕ → Bool → Outcome ℕ
unfolding count_loop
bitmap_count b start cnt value = do in_bounds b start cnt; count_loop cnt b start value 0

contains_loop : ℕ → Bitmap → ℕ → Bool → Outcome Bool
contains_loop zero b idx value = ok false
contains_loop (suc n) b idx value = do
  t ← bitmap_test b idx
  let rest = contains_loop n b (add_size idx 1) value
  if same t value then ok true else rest

unfoldable pub bitmap_contains : Bitmap → ℕ → ℕ → Bool → Outcome Bool
unfolding contains_loop
bitmap_contains b start cnt value = do in_bounds b start cnt; contains_loop cnt b start value

pub bitmap_any : Bitmap → ℕ → ℕ → Outcome Bool
bitmap_any b start cnt = bitmap_contains b start cnt true

pub bitmap_none : Bitmap → ℕ → ℕ → Outcome Bool
bitmap_none b start cnt = do c ← bitmap_contains b start cnt true; ok (not c)

unfoldable pub bitmap_all : Bitmap → ℕ → ℕ → Outcome Bool
bitmap_all b start cnt = do c ← bitmap_contains b start cnt false; ok (not c)

-- the loop of `bitmap_scan`, for the `n` values of `i` that are left
scan_loop : ℕ → Bitmap → ℕ → ℕ → Bool → Outcome ℕ
scan_loop zero b i cnt value = ok bitmap_error
scan_loop (suc n) b i cnt value = do
  c ← bitmap_contains b i cnt (not value)
  let rest = scan_loop n b (i + 1) cnt value
  if not c then ok i else rest

-- `last - start + 1` rounds, none when `last < start`
unfoldable pub bitmap_scan : Bitmap → ℕ → ℕ → Bool → Outcome ℕ
unfolding scan_loop
bitmap_scan b start cnt value = do
  assert (leb start b.bit_cnt)
  if leb cnt b.bit_cnt
      then scan_loop (b.bit_cnt - cnt + 1 - start) b start cnt value
      else ok bitmap_error

unfoldable pub bitmap_scan_and_flip : Bitmap → ℕ → ℕ → Bool → Outcome (ℕ × Bitmap)
bitmap_scan_and_flip b start cnt value = do
  idx ← bitmap_scan b start cnt value
  if not (idx == bitmap_error)
      then (do b ← bitmap_set_multiple b idx cnt (not value); ok (idx, b))
      else ok (idx, b)

-- `bitmap_create`, with what the two calls of `malloc` return: whether there is room for the
-- structure, and an array with any contents or nothing.
unfoldable pub bitmap_create : ℕ → Bool → Option (List ℕ) → Outcome (Option Bitmap)
bitmap_create bit_cnt false words = ok none
bitmap_create bit_cnt true none =
    if bit_cnt == 0 then ok (some (record { bit_cnt = 0; bits = [] })) else ok none
bitmap_create bit_cnt true (some words) = do
  b ← bitmap_set_all (record { bit_cnt = bit_cnt; bits = words }) false
  ok (some b)
