-- ===== src/Links/Ordered.antt =====
-- `list_insert_ordered` and `list_max`.
use mathlib.Core.Path.{subst}
use operating_system_pl_nt.Prelude.{
  ℕ, zero, suc, ◌<◌, ◌≡◌, refl, ap, inl, inr, Bool, true, false, List, [], ◌∷◌, ◌++◌, if◌then◌else◌,
  length, arith, Bool-cases, eq→==, ne→==, ok,
}
use operating_system_pl_nt.Links.{Store, Links, place_loop, list_insert_ordered, max_loop, list_max}
use operating_system_pl_nt.Links.Chain.{mem, first, IsList}
use operating_system_pl_nt.Links.Inserts.{list_insert-IsList}
use operating_system_pl_nt.Links.Queue.{Walk, Seg-Walk, next_lem, begin_lem}

module _ (less : ℕ → ℕ → Bool) where
  -- No element is less than the one before it.
  abbrev pub Sorted : List ℕ → Type 0
  Sorted [] = Unit {0}
  Sorted (x ∷ []) = Unit {0}
  Sorted (x ∷ y ∷ xs) = (less y x ≡ false) × Sorted (y ∷ xs)

  Sorted-tail : (x : ℕ) (xs : List ℕ) → Sorted (x ∷ xs) → Sorted xs
  Sorted-tail x [] s = tt
  Sorted-tail x (y ∷ xs) (_, s) = s

  Sorted-cons :
      (x e : ℕ) (ys zs : List ℕ)
      → less e x ≡ false
      → Sorted (x ∷ (ys ++ zs))
      → Sorted (ys ++ (e ∷ zs))
      → Sorted (x ∷ (ys ++ (e ∷ zs)))
  Sorted-cons x e [] zs above s t = (above, t)
  Sorted-cons x e (y ∷ ys) zs above s t = (s.0, t)

  -- Where the loop stops.
  abbrev Stops : ℕ → Links → ℕ → List ℕ → Store → Type 0
  Stops fuel l e xs m =
      (ys : List ℕ) × (zs : List ℕ) × (xs ≡ ys ++ zs)
      × (place_loop less fuel l e (first xs l.tail) m ≡ ok (first zs l.tail))
      × Sorted (ys ++ (e ∷ zs))

  place_loop-Stops :
      (fuel : ℕ) (l : Links) (e : ℕ) (xs : List ℕ) (m : Store)
      → ((x y : ℕ) → less x y ≡ true → less y x ≡ false)
      → length xs < fuel
      → Walk m xs l.tail
      → Sorted xs
      → Stops fuel l e xs m
  unfolding place_loop
  place_loop-Stops zero l e xs m asym enough w s = absurd (omega arith)
  place_loop-Stops (suc fuel) l e [] m asym enough w s =
      ([], [], refl, simp (eq→== l.tail l.tail refl, place_loop), tt)
  place_loop-Stops (suc fuel) l e (x ∷ xs) m asym enough (at, apart, w) s =
      elim (Bool-cases (less e x)) [
        | inl below ↦
            ([], x ∷ xs, refl, simp (ne→== x l.tail apart, below, place_loop), (asym e x below, s))
        | inr above ↦
            let (ys, zs, whole, stops, s') =
              place_loop-Stops fuel l e xs m asym (omega arith) w (Sorted-tail x xs s) in
            (
              x ∷ ys,
              zs,
              ap (λ k. x ∷ k) whole,
              simp (
                ne→== x l.tail apart,
                above,
                next_lem m x (first xs l.tail) at,
                place_loop,
                stops,
              ),
              Sorted-cons x e ys zs above (subst (λ k. Sorted (x ∷ k)) whole s) s',
            )
      ]

  -- Where `less` never holds both ways, and with a round more than there are elements, a new
  -- element comes into a sorted list at a place where the list stays sorted, and the order of the
  -- others does not change.
  pub list_insert_ordered-Sorted :
      (m : Store) (l : Links) (xs : List ℕ) (e fuel : ℕ)
      → IsList m l xs
      → Sorted xs
      → ((x y : ℕ) → less x y ≡ true → less y x ≡ false)
      → mem e (l.head ∷ l.tail ∷ xs) ≡ false
      → length xs < fuel
      → (ys : List ℕ) × (zs : List ℕ) × (m' : Store) × (xs ≡ ys ++ zs)
        × (list_insert_ordered less fuel l e m ≡ ok m')
        × IsList m' l (ys ++ (e ∷ zs))
        × Sorted (ys ++ (e ∷ zs))
  unfolding list_insert_ordered
  list_insert_ordered-Sorted m l xs e fuel is s asym fresh enough =
      let (ys, zs, whole, stops, s') =
        place_loop-Stops fuel l e xs m asym enough
          (Seg-Walk m l.head l.tail xs is.seg is.distinct.1.0) s in
      let (m', inserts, is', _) =
        list_insert-IsList m l ys zs e (subst (IsList m l) whole is)
          (subst (λ k. mem e (l.head ∷ l.tail ∷ k) ≡ false) whole fresh) in
      (ys, zs, m', whole, simp (begin_lem is, list_insert_ordered, stops, inserts), is', s')

  -- The first greatest of a sequence, `max` so far.
  pub greatest : ℕ → List ℕ → ℕ
  greatest max [] = max
  greatest max (x ∷ xs) = greatest (if less max x then x else max) xs

  max_loop-greatest :
      (fuel : ℕ) (l : Links) (max : ℕ) (xs : List ℕ) (m : Store)
      → length xs < fuel
      → Walk m xs l.tail
      → max_loop less fuel l max (first xs l.tail) m ≡ ok (greatest max xs)
  unfolding max_loop greatest
  max_loop-greatest zero l max xs m enough w = absurd (omega arith)
  max_loop-greatest (suc fuel) l max [] m enough w = simp (eq→== l.tail l.tail refl, max_loop)
  max_loop-greatest (suc fuel) l max (x ∷ xs) m enough (at, apart, w) =
      simp (ne→== x l.tail apart, next_lem m x (first xs l.tail) at, max_loop)
        (max_loop-greatest fuel l (if less max x then x else max) xs m (omega arith) w)

  -- On a list that is not empty, `list_max` is the greatest of its sequence, taken from the front;
  -- the walk needs a round for each element and one more.
  pub list_max-greatest :
      (m : Store) (l : Links) (x : ℕ) (xs : List ℕ) (fuel : ℕ)
      → IsList m l (x ∷ xs)
      → length (x ∷ xs) < fuel
      → list_max less fuel l m ≡ ok (greatest x xs)
  unfolding list_max
  list_max-greatest m l x xs fuel is enough =
      let (at, apart, w) = Seg-Walk m l.head l.tail (x ∷ xs) is.seg is.distinct.1.0 in
      simp (begin_lem is, ne→== x l.tail apart, next_lem m x (first xs l.tail) at, list_max)
        (max_loop-greatest fuel l x xs m (omega arith) w)
