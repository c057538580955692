-- ===== src/Tests/HashRuns.antt =====
-- A table of numbers with four buckets, which has 6 and 9.
use Prim.Native.Nat.{bit_and}
use operating_system_pl_nt.Prelude.{
  ℕ, zero, suc, ◌≡◌, ◌≢◌, refl, ap, true, Option, [], ◌∷◌, ltb, ok, arith,
}
use operating_system_pl_nt.Hash.{Hash, equal, hash_insert, hash_find, hash_delete}
use operating_system_pl_nt.Hash.Buckets.{times, total, bucket}
use operating_system_pl_nt.Hash.Rehash.{IsHash}
use operating_system_pl_nt.Hash.Finds.{
  Found, Inserted, Deleted, hash_find-Found, hash_insert-Inserted, hash_delete-Deleted,
}

abbrev number : ℕ → ℕ
number e = e

abbrev table : Hash
table = record { elem_cnt = 2; bucket_cnt = 4; buckets = [] ∷ (9 ∷ []) ∷ (6 ∷ []) ∷ [] ∷ [] }

their_bucket : (i u : ℕ) → times u (bucket table.buckets i) ≢ 0 → bit_and u 3 ≡ i
their_bucket zero u there = absurd (there refl)
their_bucket (suc zero) u there = ap (λ n. bit_and n 3) {x = u} {y = 9} (ground (arith, there))
their_bucket (suc (suc zero)) u there =
    ap (λ n. bit_and n 3) {x = u} {y = 6} (ground (arith, there))
their_bucket (suc (suc (suc zero))) u there = absurd (there refl)
their_bucket (suc (suc (suc (suc i)))) u there = absurd (there refl)

table-IsHash : IsHash number ltb table
table-IsHash = record {
  places = record { length_eq = refl; some_buckets = omega arith; placed = their_bucket };
  cnt_eq = refl;
}

equal_numbers : (a b : ℕ) → equal number ltb a b ≡ true → number a ≡ number b
equal_numbers a b h = ground (arith, h)

hash_find-Found_example :
    (r : Option ℕ) × (hash_find number ltb table 6 ≡ ok r)
    × Found number ltb 6 (λ u. total u table.buckets) r
hash_find-Found_example = hash_find-Found number ltb table 6 table-IsHash equal_numbers

hash_insert-Inserted_example :
    (r : Option ℕ) × (h' : Hash) × (hash_insert number ltb true table 5 ≡ ok (r, h'))
    × IsHash number ltb h'
    × Found number ltb 5 (λ u. total u table.buckets) r
    × Inserted number ltb table 5 r h'
hash_insert-Inserted_example =
    hash_insert-Inserted number ltb true table 5 table-IsHash equal_numbers

hash_delete-Deleted_example :
    (r : Option ℕ) × (h' : Hash) × (hash_delete number ltb true table 9 ≡ ok (r, h'))
    × IsHash number ltb h'
    × Found number ltb 9 (λ u. total u table.buckets) r
    × Deleted number ltb table r h'
hash_delete-Deleted_example = hash_delete-Deleted number ltb true table 9 table-IsHash equal_numbers
