-- ===== src/Hash/Finds.antt =====
-- Insertion, search and deletion in a hash table.
use Prim.Native.Nat.{bit_and}
use mathlib.Core.Path.{subst}
use operating_system_pl_nt.Prelude.{
  ℕ, ◌+◌, ◌-◌, ◌<◌, ◌≡◌, ◌≢◌, ◌==◌, ◌⊎◌, refl, sym, ap, ◌∙◌, inl, inr, Bool, true, false, Option,
  none, some, List, [], ◌∷◌, if◌then◌else◌, length, Option-cases, ok, arith, Bool-cases,
}
use operating_system_pl_nt.Hash.{
  Hash, find_bucket, equal, find_elem, insert_elem, without, remove_elem, hash_insert, hash_find,
  delete_found, hash_delete,
}
use operating_system_pl_nt.Hash.Buckets.{
  times, total, bucket, bucket_at-bucket, total-set, size-set, somewhere,
}
use operating_system_pl_nt.Hash.Rehash.{
  IsPlaced, IsHash, in_range, set-IsPlaced, pushed, rehash-Same,
}

module _ (hash : ℕ → ℕ) (less : ℕ → ℕ → Bool) where
  -- What is found of a sequence.
  abbrev pub Found : ℕ → (ℕ → ℕ) → Option ℕ → Type 0
  Found e times none = (u : ℕ) → times u ≢ 0 → equal hash less u e ≡ false
  Found e times (some o) = (times o ≢ 0) × (equal hash less o e ≡ true)

  find_elem-cases :
      (b : List ℕ) (e : ℕ)
      → ((find_elem hash less b e ≡ none) × ((u : ℕ) → times u b ≢ 0 → equal hash less u e ≡ false))
        ⊎ ((o : ℕ) × (find_elem hash less b e ≡ some o)
            × (times o b ≢ 0)
            × (equal hash less o e ≡ true))
  unfolding find_elem
  find_elem-cases [] e = inl (refl, λ u there. absurd (there refl))
  find_elem-cases (x ∷ b) e = elim (Bool-cases (equal hash less x e)) [
    | inl same ↦ inr (x, simp (same, find_elem), (λ z. absurd (ground (arith, z))), same)
    | inr other ↦ elim (find_elem-cases b e) [
      | inl (nothing, absent) ↦ inl (
        simp (other, find_elem) nothing,
        λ u there. elim (Bool-cases (x == u)) [
          | inl here ↦ ap (λ y. equal hash less y e) {x = u} {y = x} (ground (arith, here)) ∙ other
          | inr later ↦ absent u (λ z. there (ground (arith, later, z)))
        ],
      )
      | inr (o, found, there, same) ↦
          inr (o, simp (other, find_elem) found, (λ z. there (ground (arith, z))), same)
    ]
  ]

  -- An element of a bucket is one of the table.
  in_total :
      (u i : ℕ) (bs : List (List ℕ)) → i < length bs → times u (bucket bs i) ≢ 0 → total u bs ≢ 0
  in_total u i bs inside there = λ z. there (omega (arith, total-set u bs i [] inside, z))

  -- What `find_elem` finds in the bucket of `e` is found in the table.
  found_lem :
      (h : Hash) (e : ℕ)
      → IsPlaced hash less h
      → ((a b : ℕ) → equal hash less a b ≡ true → hash a ≡ hash b)
      → Found e
          (λ u. total u h.buckets)
          (find_elem hash less (bucket h.buckets (find_bucket hash less h e)) e)
  found_lem h e p respects =
      let i : ℕ = find_bucket hash less h e in
      elim (find_elem-cases (bucket h.buckets i) e) [
        | inl (nothing, absent) ↦ rw nothing (λ u there. elim (Bool-cases (equal hash less u e)) [
          | inl same ↦
              let (j, inside, here) = somewhere u h.buckets there in
              let at : j ≡ i =
                sym (p.placed j u here)
                ∙ ap (λ n. bit_and n (h.bucket_cnt - 1)) (respects u e same) in
              absent u (λ z. here (ap (λ k. times u (bucket h.buckets k)) at ∙ z))
          | inr other ↦ other
        ])
        | inr (o, found, there, same) ↦
            rw found (in_total o i h.buckets (in_range hash less h e p) there, same)
      ]

  -- In a table whose elements are in the buckets of their hashes, where equal elements have equal
  -- hashes, hash_find returns an element of the table that is equal to the one given, and nothing
  -- only if there is none.
  pub hash_find-Found :
      (h : Hash) (e : ℕ)
      → IsHash hash less h
      → ((a b : ℕ) → equal hash less a b ≡ true → hash a ≡ hash b)
      → (r : Option ℕ) × (hash_find hash less h e ≡ ok r) × Found e (λ u. total u h.buckets) r
  unfolding hash_find
  hash_find-Found h e is respects =
      let i : ℕ = find_bucket hash less h e in
      (
        find_elem hash less (bucket h.buckets i) e,
        simp (bucket_at-bucket h.buckets i (in_range hash less h e is.places), hash_find),
        found_lem h e is.places respects,
      )

  insert_elem-IsHash :
      (h : Hash) (e : ℕ)
      → IsHash hash less h
      → IsHash hash less (
          insert_elem hash less h
            (find_bucket hash less h e)
            (bucket h.buckets (find_bucket hash less h e))
            e)
  insert_elem-IsHash h e is =
      let i : ℕ = find_bucket hash less h e in
      let b : List ℕ = bucket h.buckets i in
      let inside = in_range hash less h e is.places in
      record {
        places =
            set-IsPlaced hash less h i (h.elem_cnt + 1) (e ∷ b) is.places inside
              (pushed hash less h e is.places);
        cnt_eq = omega (arith, is.cnt_eq, size-set h.buckets i (e ∷ b) inside);
      }

  -- What an insertion makes of a table, by what it returns.
  abbrev pub Inserted : Hash → ℕ → Option ℕ → Hash → Type 0
  Inserted h e none h' =
      (h'.elem_cnt ≡ h.elem_cnt + 1)
      × ((u : ℕ) → total u h'.buckets ≡ total u h.buckets + (if e == u then 1 else 0))
  Inserted h e (some o) h' =
      (h'.elem_cnt ≡ h.elem_cnt) × ((u : ℕ) → total u h'.buckets ≡ total u h.buckets)

  -- Under the conditions of `hash_find-Found`, hash_insert returns what hash_find finds. Where that
  -- is nothing the table has the new element besides those it had, and else those it had; with or
  -- without memory to change the number of buckets, the elements are in the buckets of their hashes
  -- and their number is right.
  pub hash_insert-Inserted :
      (memory : Bool) (h : Hash) (e : ℕ)
      → IsHash hash less h
      → ((a b : ℕ) → equal hash less a b ≡ true → hash a ≡ hash b)
      → (r : Option ℕ) × (h' : Hash) × (hash_insert hash less memory h e ≡ ok (r, h'))
        × IsHash hash less h'
        × Found e (λ u. total u h.buckets) r
        × Inserted h e r h'
  unfolding hash_insert
  hash_insert-Inserted memory h e is respects =
      let i : ℕ = find_bucket hash less h e in
      let b : List ℕ = bucket h.buckets i in
      let inside = in_range hash less h e is.places in
      let gets = bucket_at-bucket h.buckets i inside in
      let finds = found_lem h e is.places respects in
      elim (Option-cases (find_elem hash less b e)) [
        | inl nothing ↦
            let h1 : Hash = insert_elem hash less h i b e in
            let (h2, runs, same) = rehash-Same hash less memory h1 (insert_elem-IsHash h e is) in
            (
              none,
              h2,
              simp (gets, nothing, runs, hash_insert),
              same.valid,
              subst (Found e (λ u. total u h.buckets)) nothing finds,
              (
                same.elem_cnt_eq,
                λ u. ground (arith, same.total_eq u, total-set u h.buckets i (e ∷ b) inside),
              ),
            )
        | inr (o, found) ↦
            let (h2, runs, same) = rehash-Same hash less memory h is in
            (
              some o,
              h2,
              simp (gets, found, runs, hash_insert),
              same.valid,
              subst (Found e (λ u. total u h.buckets)) found finds,
              (same.elem_cnt_eq, same.total_eq),
            )
      ]

  times-without :
      (o u : ℕ) (b : List ℕ)
      → times o b ≢ 0
      → times u (without hash less o b) + (if o == u then 1 else 0) ≡ times u b
  times-without o u [] there = absurd (there refl)
  times-without o u (x ∷ b) there = elim (Bool-cases (x == o)) [
    | inl same ↦ ground (arith, same)
    | inr other ↦ ground (arith, other, times-without o u b (λ z. there (ground (arith, other, z))))
  ]

  length-without :
      (o : ℕ) (b : List ℕ) → times o b ≢ 0 → length (without hash less o b) + 1 ≡ length b
  length-without o [] there = absurd (there refl)
  length-without o (x ∷ b) there = elim (Bool-cases (x == o)) [
    | inl same ↦ ground (arith, same)
    | inr other ↦ ground (arith, other, length-without o b (λ z. there (ground (arith, other, z))))
  ]

  remove_elem-IsHash :
      (h : Hash) (e o : ℕ)
      → IsHash hash less h
      → times o (bucket h.buckets (find_bucket hash less h e)) ≢ 0
      → IsHash hash less (
          remove_elem hash less h
            (find_bucket hash less h e)
            (bucket h.buckets (find_bucket hash less h e))
            o)
  remove_elem-IsHash h e o is there =
      let i : ℕ = find_bucket hash less h e in
      let b : List ℕ = bucket h.buckets i in
      let inside = in_range hash less h e is.places in
      record {
        places =
            set-IsPlaced hash less h i (h.elem_cnt - 1) (without hash less o b) is.places inside
              (λ u left.
                is.places.placed i u (λ z. left (omega (arith, times-without o u b there, z))));
        cnt_eq = omega (
          arith,
          is.cnt_eq,
          size-set h.buckets i (without hash less o b) inside,
          length-without o b there,
        );
      }

  -- What a deletion makes of a table, by what it returns.
  abbrev pub Deleted : Hash → Option ℕ → Hash → Type 0
  Deleted h none h' = h' ≡ h
  Deleted h (some o) h' =
      (h'.elem_cnt + 1 ≡ h.elem_cnt)
      × ((u : ℕ) → total u h'.buckets + (if o == u then 1 else 0) ≡ total u h.buckets)

  -- Under the conditions of `hash_find-Found`, hash_delete returns what hash_find finds. That
  -- element is taken out of the table once, the others stay, their number is right, and they are in
  -- the buckets of their hashes.
  pub hash_delete-Deleted :
      (memory : Bool) (h : Hash) (e : ℕ)
      → IsHash hash less h
      → ((a b : ℕ) → equal hash less a b ≡ true → hash a ≡ hash b)
      → (r : Option ℕ) × (h' : Hash) × (hash_delete hash less memory h e ≡ ok (r, h'))
        × IsHash hash less h'
        × Found e (λ u. total u h.buckets) r
        × Deleted h r h'
  unfolding hash_delete delete_found
  hash_delete-Deleted memory h e is respects =
      let i : ℕ = find_bucket hash less h e in
      let b : List ℕ = bucket h.buckets i in
      let inside = in_range hash less h e is.places in
      let gets = bucket_at-bucket h.buckets i inside in
      let finds = found_lem h e is.places respects in
      elim (find_elem-cases b e) [
        | inl (nothing, _) ↦ (
          none,
          h,
          simp (gets, nothing, hash_delete, delete_found),
          is,
          subst (Found e (λ u. total u h.buckets)) nothing finds,
          refl,
        )
        | inr (o, found, there, equal_to) ↦
            let h1 : Hash = remove_elem hash less h i b o in
            let (h2, runs, same) =
              rehash-Same hash less memory h1 (remove_elem-IsHash h e o is there) in
            let some_left : 0 < h.elem_cnt = omega (
              arith,
              is.cnt_eq,
              size-set h.buckets i (without hash less o b) inside,
              length-without o b there,
            ) in
            (
              some o,
              h2,
              simp (gets, found, runs, hash_delete, delete_found),
              same.valid,
              subst (Found e (λ u. total u h.buckets)) found finds,
              (
                omega (arith, same.elem_cnt_eq, some_left),
                λ u. omega (
                  arith,
                  same.total_eq u,
                  times-without o u b there,
                  total-set u h.buckets i (without hash less o b) inside,
                ),
              ),
            )
      ]
