-- ===== src/Links/Queue.antt =====
-- Linked lists as sequences: both ends, the size, the greatest element, and insertion in order.
use mathlib.Core.Path.{subst}
use mathlib.Core.List.{append-nil}
use operating_system_pl_nt.Prelude.{
  ℕ, zero, suc, ◌+◌, ◌<◌, ◌≡◌, ◌≢◌, ◌==◌, refl, sym, ap, ◌∙◌, inl, inr, false, some, List, [], ◌∷◌,
  ◌++◌, length, arith, Option-cases, eq→==, ne→==, ok,
}
use operating_system_pl_nt.Links.{
  Store, Links, list_begin, list_next, list_push_front, list_push_back, list_empty, list_front,
  list_back, list_pop_front, list_pop_back, size_loop, list_size,
}
use operating_system_pl_nt.Links.Chain.{mem, Seg, Seg-next, Seg-split, first, IsList}
use operating_system_pl_nt.Links.Inserts.{list_insert-IsList, list_remove-IsList}

module _ {m : Store} {l : Links} {xs : List ℕ} (is : IsList m l xs) where
  pub begin_lem : list_begin l m ≡ ok (first xs l.tail)
  unfolding list_begin
  begin_lem = simp (Seg-next m l.head l.tail xs is.seg, list_begin)

  pub list_push_front-IsList :
      (e : ℕ)
      → mem e (l.head ∷ l.tail ∷ xs) ≡ false
      → (m' : Store) × (list_push_front l e m ≡ ok m') × IsList m' l (e ∷ xs)
  unfolding list_push_front
  list_push_front-IsList e fresh =
      let (m', inserts, is', _) = list_insert-IsList m l [] xs e is fresh in
      (m', simp (begin_lem, list_push_front, inserts), is')

  pub list_push_back-IsList :
      (e : ℕ)
      → mem e (l.head ∷ l.tail ∷ xs) ≡ false
      → (m' : Store) × (list_push_back l e m ≡ ok m') × IsList m' l (xs ++ (e ∷ []))
  unfolding list_push_back
  list_push_back-IsList e fresh =
      let same : xs ≡ xs ++ [] = sym (append-nil xs) in
      let (m', inserts, is', _) =
        list_insert-IsList m l xs [] e (subst (IsList m l) same is)
          (subst (λ ys. mem e (l.head ∷ l.tail ∷ ys) ≡ false) same fresh) in
      (m', inserts, is')

  empty_lem : list_empty l m ≡ ok (first xs l.tail == l.tail)
  unfolding list_empty
  empty_lem = simp (begin_lem, list_empty)

module _ {m : Store} {l : Links} (x : ℕ) (xs : List ℕ) (is : IsList m l (x ∷ xs)) where
  pub list_pop_front-IsList : (m' : Store) × (list_pop_front l m ≡ ok (x, m')) × IsList m' l xs
  unfolding list_pop_front list_front
  list_pop_front-IsList =
      let (m', removes, is', _) = list_remove-IsList m l [] xs x is in
      let some_left : (x == l.tail) ≡ false = ground (arith, is.distinct.1.0) in
      (
        m',
        simp (
          empty_lem is,
          some_left,
          Seg-next m l.head l.tail (x ∷ xs) is.seg,
          list_pop_front,
          list_front,
          removes,
        ),
        is',
      )

first-append : (xs : List ℕ) (x t : ℕ) → (first (xs ++ (x ∷ [])) t == t) ≡ (first xs x == t)
first-append [] x t = refl
first-append (y ∷ ys) x t = refl

module _ {m : Store} {l : Links} (x : ℕ) (xs : List ℕ) (is : IsList m l (xs ++ (x ∷ []))) where
  first_lem : (first (xs ++ (x ∷ [])) l.tail == l.tail) ≡ false
  first_lem = go xs is.distinct.1.0
    where
      go :
          (ys : List ℕ)
          → mem l.tail (ys ++ (x ∷ [])) ≡ false
          → (first (ys ++ (x ∷ [])) l.tail == l.tail) ≡ false
      go [] h = ground (arith, h)
      go (y ∷ ys) h = ground (arith, h)

  pub list_pop_back-IsList : (m' : Store) × (list_pop_back l m ≡ ok (x, m')) × IsList m' l xs
  unfolding list_pop_back list_back
  list_pop_back-IsList =
      let (m', removes, is', _) = list_remove-IsList m l xs [] x is in
      let (_, last_link) = Seg-split m l.head x l.tail xs [] is.seg in
      (
        m',
        simp (empty_lem is, first_lem, last_link.1, list_pop_back, list_back, removes),
        subst (IsList m' l) (append-nil xs) is',
      )

-- Walking along a list.
pub next_lem : (m : Store) (a b : ℕ) → m.next a ≡ some b → list_next a m ≡ ok b
unfolding list_next
next_lem m a b at = elim (Option-cases (m.prev a)) [
  | inl head ↦ simp (at, head, list_next)
  | inr (p, interior) ↦ simp (at, interior, list_next)
]

-- The elements `xs` are before the tail `t`, from the element where the walk stands.
abbrev pub Walk : Store → List ℕ → ℕ → Type 0
Walk m [] t = Unit {0}
Walk m (x ∷ xs) t = (m.next x ≡ some (first xs t)) × (x ≢ t) × Walk m xs t

pub Seg-Walk : (m : Store) (a t : ℕ) (xs : List ℕ) → Seg m a xs t → mem t xs ≡ false → Walk m xs t
Seg-Walk m a t [] s out = tt
Seg-Walk m a t (x ∷ xs) (link, s) out = (
  Seg-next m x t xs s,
  (λ z. absurd (ground (arith, z, out))),
  Seg-Walk m x t xs s (ground (arith, out)),
)

size_loop-length :
    (fuel : ℕ) (l : Links) (m : Store) (xs : List ℕ) (cnt : ℕ)
    → length xs < fuel
    → Walk m xs l.tail
    → size_loop fuel l (first xs l.tail) cnt m ≡ ok (cnt + length xs)
unfolding size_loop
size_loop-length zero l m xs cnt enough w = absurd (omega arith)
size_loop-length (suc fuel) l m [] cnt enough w =
    simp (eq→== l.tail l.tail refl, size_loop) (ap ok (omega arith))
size_loop-length (suc fuel) l m (x ∷ xs) cnt enough (at, apart, w) =
    simp (ne→== x l.tail apart, next_lem m x (first xs l.tail) at, size_loop)
      (size_loop-length fuel l m xs (cnt + 1) (omega arith) w ∙ ap ok (omega arith))

-- With a round more than there are elements, the size of a list is the length of its sequence.
pub list_size-length :
    (m : Store) (l : Links) (xs : List ℕ) (fuel : ℕ)
    → IsList m l xs
    → length xs < fuel
    → list_size fuel l m ≡ ok (length xs)
unfolding list_size
list_size-length m l xs fuel is enough =
    simp (begin_lem is, list_size)
      (size_loop-length fuel l m xs 0 enough (Seg-Walk m l.head l.tail xs is.seg is.distinct.1.0)
        ∙ ap ok (omega arith))
