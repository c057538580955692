-- ===== src/Hash/Rehash.antt =====
-- A table with its elements in the buckets of their hashes, and the change of the number of
-- buckets.
use operating_system_pl_nt.Prelude.{
  ℕ, ◌+◌, ◌-◌, ◌<◌, ◌≡◌, ◌≢◌, ◌==◌, refl, ap, ◌∙◌, inl, inr, Bool, List, [], ◌∷◌, length, set,
  length-set, length-replicate, ok, arith, Bool-cases,
}
use operating_system_pl_nt.Prelude.Bits.{bit_and-below}
use operating_system_pl_nt.Hash.{
  Hash, ideal, no_buckets, find_bucket, move_bucket, move_buckets, rehash,
}
use operating_system_pl_nt.Hash.Buckets.{
  bucket, bucket-set, bucket_at-bucket, empty-bucket, empty-size, empty-total, shrink-ends, size,
  size-set, times, total, total-set,
}

module _ (hash : ℕ → ℕ) (less : ℕ → ℕ → Bool) where
  -- Every element is in the bucket of its hash.
  pub record IsPlaced (h : Hash) : Type 0 where
    pub length_eq : length h.buckets ≡ h.bucket_cnt
    pub some_buckets : 0 < h.bucket_cnt
    pub placed : (i u : ℕ) → times u (bucket h.buckets i) ≢ 0 → find_bucket hash less h u ≡ i

  -- The count of elements is right too.
  pub record IsHash (h : Hash) : Type 0 where
    pub places : IsPlaced h
    pub cnt_eq : h.elem_cnt ≡ size h.buckets

  pub in_range : (h : Hash) (e : ℕ) → IsPlaced h → find_bucket hash less h e < length h.buckets
  in_range h e p =
      omega (arith, bit_and-below (hash e) (h.bucket_cnt - 1), p.some_buckets, p.length_eq)

  -- A bucket that is replaced by one whose elements belong there.
  pub set-IsPlaced :
      (h : Hash) (i n : ℕ) (v : List ℕ)
      → IsPlaced h
      → i < length h.buckets
      → ((u : ℕ) → times u v ≢ 0 → find_bucket hash less h u ≡ i)
      → IsPlaced (record h { elem_cnt = n; buckets = set h.buckets i v })
  set-IsPlaced h i n v p inside right = record {
    length_eq = length-set h.buckets i v ∙ p.length_eq;
    some_buckets = p.some_buckets;
    placed = λ j u there. elim (Bool-cases (i == j)) [
      | inl same ↦
          let here : bucket (set h.buckets i v) j ≡ v =
            bucket-set h.buckets i j v inside ∙ simp same in
          right u (λ z. there (ap (times u) here ∙ z)) ∙ ground (arith, same)
      | inr other ↦
          let kept : bucket (set h.buckets i v) j ≡ bucket h.buckets j =
            bucket-set h.buckets i j v inside ∙ simp other in
          p.placed j u (λ z. there (ap (times u) kept ∙ z))
    ];
  }

  pub pushed :
      (h : Hash) (e : ℕ)
      → IsPlaced h
      → (u : ℕ) → times u (e ∷ bucket h.buckets (find_bucket hash less h e)) ≢ 0
      → find_bucket hash less h u ≡ find_bucket hash less h e
  pushed h e p u there = elim (Bool-cases (e == u)) [
    | inl same ↦ ap (find_bucket hash less h) {x = u} {y = e} (ground (arith, same))
    | inr other ↦ p.placed (find_bucket hash less h e) u (λ z. there (ground (arith, other, z)))
  ]

  -- What a move of elements makes of a table.
  pub record Moved (h h' : Hash) (sum : ℕ → ℕ) (n : ℕ) : Type 0 where
    pub places : IsPlaced h'
    pub elem_cnt_eq : h'.elem_cnt ≡ h.elem_cnt
    pub size_eq : size h'.buckets ≡ size h.buckets + n
    pub total_eq : (u : ℕ) → total u h'.buckets ≡ total u h.buckets + sum u

  move_bucket-Moved :
      (es : List ℕ) (h : Hash)
      → IsPlaced h
      → (h' : Hash) × (move_bucket hash less es h ≡ ok h')
        × Moved h h' (λ u. times u es) (length es)
  unfolding move_bucket
  move_bucket-Moved [] h p = (
    h,
    refl,
    record { places = p; elem_cnt_eq = refl; size_eq = omega arith; total_eq = λ u. omega arith },
  )
  move_bucket-Moved (e ∷ es) h p =
      let i : ℕ = find_bucket hash less h e in
      let b : List ℕ = bucket h.buckets i in
      let inside = in_range h e p in
      let p1 : IsPlaced (record h { buckets = set h.buckets i (e ∷ b) }) =
        set-IsPlaced h i h.elem_cnt (e ∷ b) p inside (pushed h e p) in
      let (h', moves, m) =
        move_bucket-Moved es (record h { buckets = set h.buckets i (e ∷ b) }) p1 in
      (
        h',
        simp (bucket_at-bucket h.buckets i inside, moves, move_bucket),
        record {
          places = m.places;
          elem_cnt_eq = m.elem_cnt_eq;
          size_eq = omega (arith, m.size_eq, size-set h.buckets i (e ∷ b) inside);
          total_eq = λ u. ground (arith, m.total_eq u, total-set u h.buckets i (e ∷ b) inside);
        },
      )

  move_buckets-Moved :
      (bs : List (List ℕ)) (h : Hash)
      → IsPlaced h
      → (h' : Hash) × (move_buckets hash less bs h ≡ ok h') × Moved h h' (λ u. total u bs) (size bs)
  unfolding move_buckets
  move_buckets-Moved [] h p = (
    h,
    refl,
    record { places = p; elem_cnt_eq = refl; size_eq = omega arith; total_eq = λ u. omega arith },
  )
  move_buckets-Moved (b ∷ bs) h p =
      let (h1, moves1, m1) = move_bucket-Moved b h p in
      let (h2, moves2, m2) = move_buckets-Moved bs h1 m1.places in
      (
        h2,
        simp (moves1, moves2, move_buckets),
        record {
          places = m2.places;
          elem_cnt_eq = m2.elem_cnt_eq ∙ m1.elem_cnt_eq;
          size_eq = omega (arith, m1.size_eq, m2.size_eq);
          total_eq = λ u. omega (arith, m1.total_eq u, m2.total_eq u);
        },
      )

  -- Rehashing keeps a table, its elements and their number.
  pub record Same (h h' : Hash) : Type 0 where
    pub valid : IsHash h'
    pub elem_cnt_eq : h'.elem_cnt ≡ h.elem_cnt
    pub total_eq : (u : ℕ) → total u h'.buckets ≡ total u h.buckets

  cleared-IsPlaced :
      (c n : ℕ) → 0 < n → IsPlaced (record { elem_cnt = c; bucket_cnt = n; buckets = no_buckets n })
  cleared-IsPlaced c n h = record {
    length_eq = length-replicate {A = List ℕ} n [];
    some_buckets = h;
    placed = λ i u there. absurd (there (ap (times u) (empty-bucket n i)));
  }

  pub rehash-Same :
      (memory : Bool) (h : Hash)
      → IsHash h
      → (h' : Hash) × (rehash hash less memory h ≡ ok h') × Same h h'
  unfolding rehash
  rehash-Same memory h is =
      let same : Same h h = record { valid = is; elem_cnt_eq = refl; total_eq = λ u. refl } in
      let n : ℕ = ideal h.elem_cnt in
      let (cnt, shrinks, some_buckets) = shrink-ends n n (ground arith) (omega arith) in
      elim (Bool-cases (cnt == h.bucket_cnt)) [
        | inl kept ↦ (h, simp (shrinks, kept, rehash), same)
        | inr changed ↦ elim (Bool-cases memory) [
          | inr nothing ↦ (h, simp (shrinks, changed, nothing, rehash), same)
          | inl found ↦
              let empty : Hash = record h { bucket_cnt = cnt; buckets = no_buckets cnt } in
              let (h', moves, m) =
                move_buckets-Moved h.buckets empty (cleared-IsPlaced h.elem_cnt cnt some_buckets) in
              (
                h',
                simp (shrinks, changed, found, rehash) moves,
                record {
                  valid = record {
                    places = m.places;
                    cnt_eq = omega (arith, m.elem_cnt_eq, m.size_eq, empty-size cnt, is.cnt_eq);
                  };
                  elem_cnt_eq = m.elem_cnt_eq;
                  total_eq = λ u. omega (arith, m.total_eq u, empty-total u cnt);
                },
              )
        ]
      ]
