-- ===== src/Hash.antt =====
-- lib/kernel/hash.c, hash.h: hash tables. An element is its address, and a bucket is the sequence
-- of its elements; the functions `hash` and `less` of a table are arguments. `malloc` is an
-- argument of the calls that use it. A bucket out of range is a `panic`.
pub mod Buckets
pub mod Rehash
pub mod Finds
use Prim.Native.Nat.{bit_and, bit_xor}
use operating_system_pl_nt.Prelude.{
  ℕ, zero, suc, ◌+◌, ◌-◌, ◌*◌, ◌/◌, ◌%◌, ◌^◌, ◌==◌, Bool, true, false, not, ◌&&◌, Option, none,
  some, List, [], ◌∷◌, ltb, if◌then◌else◌, get_elem?, set, replicate, Outcome, ok, panic,
  out_of_fuel, ◌>>=◌,
}

-- `struct hash`
pub record Hash : Type 0 where
  pub elem_cnt : ℕ
  pub bucket_cnt : ℕ
  pub buckets : List (List ℕ)

-- `h->buckets[i]`
unfoldable pub bucket_at : List (List ℕ) → ℕ → Outcome (List ℕ)
bucket_at buckets i = elim (get_elem? buckets i) [ none ↦ panic | some b ↦ ok b ]

unfoldable pub turn_off_least_1bit : ℕ → ℕ
turn_off_least_1bit x = bit_and x (x - 1)

unfoldable pub is_power_of_2 : ℕ → Bool
unfolding turn_off_least_1bit
is_power_of_2 x = not (x == 0) && (turn_off_least_1bit x == 0)

-- the loop of `rehash` that makes the number of buckets a power of two
unfoldable pub shrink : ℕ → ℕ → Outcome ℕ
shrink zero x = out_of_fuel
shrink (suc fuel) x =
    let rest = shrink fuel (turn_off_least_1bit x) in if is_power_of_2 x then ok x else rest

-- MIN_ELEMS_PER_BUCKET is not used.
abbrev pub best_elems_per_bucket : ℕ
best_elems_per_bucket = 2

abbrev pub ideal : ℕ → ℕ
ideal elem_cnt = let n : ℕ = elem_cnt / best_elems_per_bucket in if ltb n 4 then 4 else n

abbrev pub no_buckets : ℕ → List (List ℕ)
no_buckets n = replicate n []

unfoldable pub hash_init : Bool → Option Hash
hash_init memory =
    if memory then some (record { elem_cnt = 0; bucket_cnt = 4; buckets = no_buckets 4 }) else none

-- without a destructor
unfoldable pub hash_clear : Hash → Hash
hash_clear h = record h { elem_cnt = 0; buckets = no_buckets h.bucket_cnt }

unfoldable pub hash_size : Hash → ℕ
hash_size h = h.elem_cnt

unfoldable pub hash_empty : Hash → Bool
hash_empty h = h.elem_cnt == 0

-- FNV_32_PRIME and FNV_32_BASIS
abbrev fnv_32_prime : ℕ
fnv_32_prime = 16777619

abbrev fnv_32_basis : ℕ
fnv_32_basis = 2166136261

hash_loop : ℕ → List ℕ → ℕ
hash_loop hash [] = hash
hash_loop hash (x ∷ buf) = hash_loop (bit_xor (hash * fnv_32_prime % 2 ^ 32) x) buf

-- of all the bytes in a block
pub hash_bytes : List ℕ → ℕ
unfolding hash_loop
hash_bytes buf = hash_loop fnv_32_basis buf

pub hash_string : List ℕ → ℕ
unfolding hash_loop
hash_string s = hash_loop fnv_32_basis s

-- of the 32 bits `i`
pub hash_int : ℕ → ℕ
unfolding hash_bytes
hash_int i = hash_bytes (i % 256 ∷ i / 256 % 256 ∷ i / 65536 % 256 ∷ i / 16777216 % 256 ∷ [])

module _ (hash : ℕ → ℕ) (less : ℕ → ℕ → Bool) where
  -- `find_bucket`
  abbrev pub find_bucket : Hash → ℕ → ℕ
  find_bucket h e = bit_and (hash e) (h.bucket_cnt - 1)

  abbrev pub equal : ℕ → ℕ → Bool
  equal x e = not (less x e) && not (less e x)

  unfoldable pub find_elem : List ℕ → ℕ → Option ℕ
  find_elem [] e = none
  find_elem (x ∷ bucket) e = let rest = find_elem bucket e in if equal x e then some x else rest

  -- into bucket `i`, which is `bucket`
  abbrev pub insert_elem : Hash → ℕ → List ℕ → ℕ → Hash
  insert_elem h i bucket e = record h {
    elem_cnt = h.elem_cnt + 1;
    buckets = set h.buckets i (e ∷ bucket);
  }

  abbrev pub without : ℕ → List ℕ → List ℕ
  without e [] = []
  without e (x ∷ xs) = if x == e then xs else x ∷ without e xs

  -- from bucket `i`, which is `bucket`
  abbrev pub remove_elem : Hash → ℕ → List ℕ → ℕ → Hash
  remove_elem h i bucket e = record h {
    elem_cnt = h.elem_cnt - 1;
    buckets = set h.buckets i (without e bucket);
  }

  -- the loops of `rehash` that move the elements of the old buckets
  unfoldable pub move_bucket : List ℕ → Hash → Outcome Hash
  move_bucket [] h = ok h
  move_bucket (e ∷ old_bucket) h = do
    bucket ← bucket_at h.buckets (find_bucket h e)
    move_bucket old_bucket (record h { buckets = set h.buckets (find_bucket h e) (e ∷ bucket) })

  unfoldable pub move_buckets : List (List ℕ) → Hash → Outcome Hash
  move_buckets [] h = ok h
  move_buckets (b ∷ old_buckets) h = do h ← move_bucket b h; move_buckets old_buckets h

  unfoldable pub rehash : Bool → Hash → Outcome Hash
  rehash memory h = do
    new_bucket_cnt ← shrink (ideal h.elem_cnt) (ideal h.elem_cnt)
    if new_bucket_cnt == h.bucket_cnt
        then ok h
        else (if memory
            then move_buckets h.buckets
                (record h { bucket_cnt = new_bucket_cnt; buckets = no_buckets new_bucket_cnt })
            else ok h)

  unfoldable pub hash_insert : Bool → Hash → ℕ → Outcome (Option ℕ × Hash)
  hash_insert memory h new = do
    bucket ← bucket_at h.buckets (find_bucket h new)
    let old = find_elem bucket new
    h ←
        rehash memory
          (elim old [ none ↦ insert_elem h (find_bucket h new) bucket new | some _ ↦ h ])
    ok (old, h)

  unfoldable pub hash_replace : Bool → Hash → ℕ → Outcome (Option ℕ × Hash)
  hash_replace memory h new = do
    let i = find_bucket h new
    bucket ← bucket_at h.buckets i
    let old = find_elem bucket new
    let h : Hash = elim old [ none ↦ h | some o ↦ remove_elem h i bucket o ]
    bucket ← bucket_at h.buckets i
    h ← rehash memory (insert_elem h i bucket new)
    ok (old, h)

  unfoldable pub hash_find : Hash → ℕ → Outcome (Option ℕ)
  hash_find h e = do bucket ← bucket_at h.buckets (find_bucket h e); ok (find_elem bucket e)

  -- what was found in bucket `i` is taken out
  unfoldable pub delete_found : Bool → Hash → ℕ → List ℕ → Option ℕ → Outcome (Option ℕ × Hash)
  delete_found memory h i bucket none = ok (none, h)
  delete_found memory h i bucket (some found) = do
    h ← rehash memory (remove_elem h i bucket found)
    ok (some found, h)

  unfoldable pub hash_delete : Bool → Hash → ℕ → Outcome (Option ℕ × Hash)
  hash_delete memory h e = do
    bucket ← bucket_at h.buckets (find_bucket h e)
    delete_found memory h (find_bucket h e) bucket (find_elem bucket e)
