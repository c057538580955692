-- ===== src/Prelude/Slices.antt =====
-- Parts of lists, read by position.
use Prim.Native.Nat.{ℕ, zero, suc, ◌+◌, ◌-◌, ◌<◌, ◌≤◌}
use mathlib.Core.Path.{◌≡◌, refl, ap, ◌∙◌}
use mathlib.Core.Logic.{inl, inr}
use mathlib.Core.Bool.{◌&&◌}
use mathlib.Core.List.{List, [], ◌∷◌, ◌++◌}
use native.Mathlib.Omega.{arith}
use operating_system_pl_nt.Prelude.Tests.{ltb, leb, ◌==◌, if◌then◌else◌, Bool-cases, ne→==}
use operating_system_pl_nt.Prelude.Lists.{length, get_or, set, take, drop, length-take}

module _ {ℓ} {A : Type ℓ} (d : A) where
  pub get_or-append :
      (xs ys : List A) (k : ℕ)
      → get_or (xs ++ ys) k d
        ≡ (if ltb k (length xs) then get_or xs k d else get_or ys (k - length xs) d)
  get_or-append [] ys k = ground arith
  get_or-append (x ∷ xs) ys zero = ground arith
  get_or-append (x ∷ xs) ys (suc k) = ground (arith, get_or-append xs ys k)

  pub get_or-take : (n k : ℕ) (xs : List A) → k < n → get_or (take n xs) k d ≡ get_or xs k d
  get_or-take zero k xs h = absurd (omega arith)
  get_or-take (suc n) k [] h = refl
  get_or-take (suc n) zero (x ∷ xs) h = refl
  get_or-take (suc n) (suc k) (x ∷ xs) h = get_or-take n k xs (omega arith)

  pub get_or-drop : (n k : ℕ) (xs : List A) → get_or (drop n xs) k d ≡ get_or xs (n + k) d
  get_or-drop zero k xs = ap (λ i. get_or xs i d) (omega arith)
  get_or-drop (suc n) k [] = refl
  get_or-drop (suc n) k (x ∷ xs) =
      get_or-drop n k xs ∙ ap (λ i. get_or (x ∷ xs) i d) {x = suc (n + k)} (omega arith)

module _ {A : Type 0} (d : A) where
  -- `n` elements of `ys` in place of those of `xs` from `at` on.
  pub get_or-splice :
      (at n k : ℕ) (ys xs : List A)
      → at + n ≤ length xs
      → n ≤ length ys
      → get_or (take at xs ++ (take n ys ++ drop (at + n) xs)) k d
        ≡ (if leb at k && ltb k (at + n) then get_or ys (k - at) d else get_or xs k d)
  get_or-splice at n k ys xs room given =
      let front : length (take at xs) ≡ at = omega (arith, length-take at xs) in
      let middle : length (take n ys) ≡ n = omega (arith, length-take n ys) in
      elim (Bool-cases (ltb k at)) [
        | inl early ↦
            get_or-append d (take at xs) (take n ys ++ drop (at + n) xs) k
            ∙ ground (arith, front, get_or-take d at k xs)
        | inr late ↦ elim (Bool-cases (ltb k (at + n))) [
          | inl inside ↦
              get_or-append d (take at xs) (take n ys ++ drop (at + n) xs) k
              ∙ ground (
                arith,
                front,
                middle,
                get_or-append d (take n ys) (drop (at + n) xs) (k - at),
                get_or-take d n (k - at) ys,
              )
          | inr after ↦
              get_or-append d (take at xs) (take n ys ++ drop (at + n) xs) k
              ∙ ground (
                arith,
                front,
                middle,
                get_or-append d (take n ys) (drop (at + n) xs) (k - at),
                get_or-drop d (at + n) (k - at - n) xs,
              )
        ]
      ]

  -- Lists with the same elements at every place.
  pub list_ext :
      (xs ys : List A)
      → length xs ≡ length ys
      → ((k : ℕ) → k < length xs → get_or xs k d ≡ get_or ys k d)
      → xs ≡ ys
  list_ext [] [] e f = refl
  list_ext [] (y ∷ ys) e f = absurd (omega arith)
  list_ext (x ∷ xs) [] e f = absurd (omega arith)
  list_ext (x ∷ xs) (y ∷ ys) e f =
      let head_eq : x ≡ y = f 0 (omega arith) in
      let tail_eq = list_ext xs ys (omega arith) (λ k h. f (suc k) (omega arith)) in cc

module _ {ℓ} {A : Type ℓ} (d : A) where
  pub get_or-set :
      (xs : List A) (i j : ℕ) (v : A)
      → i < length xs
      → get_or (set xs i v) j d ≡ (if i == j then v else get_or xs j d)
  get_or-set [] i j v h = absurd (omega arith)
  get_or-set (x ∷ xs) zero zero v h = refl
  get_or-set (x ∷ xs) zero (suc j) v h = simp (ne→== 0 (suc j) (λ z. absurd (omega (arith, z))))
  get_or-set (x ∷ xs) (suc i) zero v h = simp (ne→== (suc i) 0 (λ z. absurd (omega (arith, z))))
  get_or-set (x ∷ xs) (suc i) (suc j) v h =
      let same : (i == j) ≡ (suc i == suc j) = ground arith in
      get_or-set xs i j v (omega arith) ∙ ap (λ b. if b then v else get_or xs j d) same
