-- ===== src/Links/Inserts.antt =====
-- Insertion into a linked list and removal from it.
use operating_system_pl_nt.Prelude.{
  ℕ, ◌≡◌, ◌≢◌, ◌==◌, refl, sym, ◌∙◌, inl, inr, true, false, some, List, [], ◌∷◌, ◌++◌, arith,
  Option-cases, eq→==, ne→==, ok,
}
use operating_system_pl_nt.Links.{Store, Links, set_prev, set_next, list_insert, list_remove}
use operating_system_pl_nt.Links.Chain.{
  mem, mem-append, mem-last, Distinct, Distinct-insert, Distinct-delete, Linked, Seg, Seg-prev,
  Seg-cut, Seg-split, Seg-replace, Rest, last, first, first-cases, behind, mem-behind, IsList,
  Parts, Distinct-Parts,
}

-- The pointers of elements that are not in `nodes` are the same.
abbrev pub Untouched : List ℕ → Store → Store → Type 0
Untouched nodes m m' =
    (y : ℕ) → mem y nodes ≡ false → (m'.next y ≡ m.next y) × (m'.prev y ≡ m.prev y)

abbrev inserted : Store → ℕ → ℕ → ℕ → Store
inserted m e p b =
    set_prev b (some e) (set_next p (some e) (set_next e (some b) (set_prev e (some p) m)))

insert_lem :
    (m : Store) (b e p : ℕ) → e ≢ b → m.prev b ≡ some p → list_insert b e m ≡ ok (inserted m e p b)
unfolding list_insert
insert_lem m b e p apart at = elim (Option-cases (m.next b)) [
  | inl last_one ↦ simp (at, last_one, ne→== e b apart, list_insert)
  | inr (n, interior) ↦ simp (at, interior, ne→== e b apart, list_insert)
]

-- `ys` before and `zs` behind the place.
module _ (m : Store) (l : Links) (ys zs : List ℕ) (e : ℕ) (is : IsList m l (ys ++ zs))
    (fresh : mem e (l.head ∷ l.tail ∷ (ys ++ zs)) ≡ false) where
  abbrev p : ℕ
  p = last l.head ys

  abbrev b : ℕ
  b = first zs l.tail

  parts : Parts l.head l.tail ys zs
  parts = Distinct-Parts l.head l.tail ys zs is.distinct

  e-front : mem e (l.head ∷ ys) ≡ false
  e-front = ground (arith, fresh, mem-append e ys zs)

  e-behind : (mem e zs ≡ false) × (e ≢ l.tail)
  e-behind = (ground (arith, fresh, mem-append e ys zs), λ z. absurd (ground (arith, z, fresh)))

  e-b : e ≢ b
  e-b z = elim (first-cases zs l.tail) [
    | inl at_end ↦ absurd (e-behind.1 (z ∙ at_end))
    | inr inside ↦ absurd (ground (arith, z, inside, e-behind.0))
  ]

  y-b : (y : ℕ) → mem y (l.head ∷ ys) ≡ true → y ≢ b
  y-b y h z = elim (first-cases zs l.tail) [
    | inl at_end ↦ absurd ((parts.out y h).1 (z ∙ at_end))
    | inr inside ↦ absurd (ground (arith, z, inside, (parts.out y h).0))
  ]

  m' : Store
  m' = inserted m e p b

  insert-Seg : Seg m' l.head (ys ++ (e ∷ zs)) l.tail
  unfolding m'
  insert-Seg =
      let (s, r) = Seg-cut m l.head l.tail ys zs is.seg in
      let at_p : (p == p) ≡ true = eq→== p p refl in
      let p-e : p ≢ e = (λ z. absurd (ground (arith, z, e-front, mem-last l.head ys))) in
      Seg-replace m m' l.head b l.tail ys (e ∷ []) zs s r parts.front
        ((ground arith, ground (arith, e-b)), (ground (arith, p-e), ground arith))
        (λ y h k. ground (arith, h, k, e-front))
        (λ y h. ground (arith, y-b y (ground (arith, h)), e-front, h))
        (λ y h. ground (arith, h, e-behind.0, (parts.out p (mem-last l.head ys)).0))
        (λ y h. elim (mem-behind y l.tail zs h) [
          | inl at_end ↦ ground (arith, at_end, e-behind.1, h, parts.border)
          | inr inside ↦ ground (arith, inside, e-behind.0, h, parts.border)
        ])

  insert-IsList : IsList m' l (ys ++ (e ∷ zs))
  unfolding m'
  insert-IsList = record {
    starts = ground (arith, y-b l.head (ground arith), fresh, is.starts);
    stops = ground (arith, (parts.out p (mem-last l.head ys)).1, fresh, is.stops);
    seg = insert-Seg;
    distinct = (
      ground (arith, fresh, is.distinct.0, mem-append l.head ys zs, mem-append l.head ys (e ∷ zs)),
      (
        ground
            (arith, fresh, is.distinct.1.0, mem-append l.tail ys zs, mem-append l.tail ys (e ∷ zs)),
        Distinct-insert e ys zs is.distinct.1.1 (ground (arith, fresh)),
      ),
    );
  }

  insert-Untouched : Untouched (e ∷ l.head ∷ l.tail ∷ (ys ++ zs)) m m'
  unfolding m'
  insert-Untouched y out =
      let y-p : p ≢ y =
        (λ z. absurd (ground (arith, z, out, mem-last l.head ys, mem-append y ys zs))) in
      (
        ground (arith, out, y-p),
        elim (first-cases zs l.tail) [
          | inl at_end ↦ ground (arith, out, at_end)
          | inr inside ↦
              let y-b' : b ≢ y =
                (λ z. absurd (ground (arith, z, inside, out, mem-append y ys zs))) in
              ground (arith, out, y-b')
        ],
      )

-- A new element goes in front of an element of a list, or of its tail: the call returns, the list
-- has the element at that place, and no pointer outside the list has changed.
pub list_insert-IsList :
    (m : Store) (l : Links) (ys zs : List ℕ) (e : ℕ)
    → IsList m l (ys ++ zs)
    → mem e (l.head ∷ l.tail ∷ (ys ++ zs)) ≡ false
    → (m' : Store) × (list_insert (first zs l.tail) e m ≡ ok m')
      × IsList m' l (ys ++ (e ∷ zs))
      × Untouched (e ∷ l.head ∷ l.tail ∷ (ys ++ zs)) m m'
unfolding m'
list_insert-IsList m l ys zs e is fresh = (
  m' m l ys zs e is fresh,
  insert_lem m (first zs l.tail) e (last l.head ys) (e-b m l ys zs e is fresh)
      (Seg-prev m l.head (first zs l.tail) ys (Seg-cut m l.head l.tail ys zs is.seg).0),
  insert-IsList m l ys zs e is fresh,
  insert-Untouched m l ys zs e is fresh,
)

-- Removal of `e`, with what stands before and behind it.
abbrev removed : Store → ℕ → ℕ → Store
removed m p n = set_prev n (some p) (set_next p (some n) m)

remove_lem :
    (m : Store) (e p n : ℕ)
    → e ≢ p
    → m.prev e ≡ some p
    → m.next e ≡ some n
    → list_remove e m ≡ ok (n, removed m p n)
unfolding list_remove
remove_lem m e p n apart before behind =
    simp (before, behind, ne→== p e (λ z. apart (sym z)), list_remove)

module _ (m : Store) (l : Links) (ys zs : List ℕ) (e : ℕ) (is : IsList m l (ys ++ (e ∷ zs))) where
  abbrev q : ℕ
  q = last l.head ys

  abbrev n : ℕ
  n = first zs l.tail

  rest_distinct :
      Distinct (l.head ∷ l.tail ∷ (ys ++ zs)) × (mem e (l.head ∷ l.tail ∷ (ys ++ zs)) ≡ false)
  rest_distinct =
      let (d, fresh) = Distinct-delete e ys zs is.distinct.1.1 in
      (
        (
          ground (arith, is.distinct.0, mem-append l.head ys zs, mem-append l.head ys (e ∷ zs)),
          (
            ground (arith, is.distinct.1.0, mem-append l.tail ys zs, mem-append l.tail ys (e ∷ zs)),
            d,
          ),
        ),
        ground (
          arith,
          fresh,
          is.distinct.0,
          is.distinct.1.0,
          mem-append l.head ys (e ∷ zs),
          mem-append l.tail ys (e ∷ zs),
        ),
      )

  gone : Store
  gone = removed m q n

  rest-Parts : Parts l.head l.tail ys zs
  rest-Parts = Distinct-Parts l.head l.tail ys zs rest_distinct.0

  y-n : (y : ℕ) → mem y (l.head ∷ ys) ≡ true → y ≢ n
  y-n y h z = elim (first-cases zs l.tail) [
    | inl at_end ↦ absurd ((rest-Parts.out y h).1 (z ∙ at_end))
    | inr inside ↦ absurd (ground (arith, z, inside, (rest-Parts.out y h).0))
  ]

  -- The parts on both sides.
  around : Seg m l.head ys e × Linked m e n × Rest m zs l.tail
  around =
      let (s, r) = Seg-split m l.head e l.tail ys zs is.seg in
      let (u, w) = Seg-cut m e l.tail [] zs r in (s, u, w)

  remove-Seg : Seg gone l.head (ys ++ zs) l.tail
  unfolding gone
  remove-Seg =
      let (s, link, r) = around in
      Seg-replace m gone l.head e l.tail ys [] zs s r rest-Parts.front (ground arith, ground arith)
        (λ y h k. ground (arith, k)) (λ y h. ground (arith, y-n y (ground (arith, h)), h))
        (λ y h. ground (arith, h, (rest-Parts.out q (mem-last l.head ys)).0))
        (λ y h. ground (arith, h, rest-Parts.border))

  remove-IsList : IsList gone l (ys ++ zs)
  unfolding gone
  remove-IsList = record {
    starts = ground (arith, y-n l.head (ground arith), is.starts);
    stops = ground (arith, (rest-Parts.out q (mem-last l.head ys)).1, is.stops);
    seg = remove-Seg;
    distinct = rest_distinct.0;
  }

  remove-Untouched : Untouched (l.head ∷ l.tail ∷ (ys ++ zs)) m gone
  unfolding gone
  remove-Untouched y out =
      let y-q : q ≢ y =
        (λ z. absurd (ground (arith, z, out, mem-last l.head ys, mem-append y ys zs))) in
      (
        ground (arith, out, y-q),
        elim (first-cases zs l.tail) [
          | inl at_end ↦ ground (arith, out, at_end)
          | inr inside ↦
              let y-n' : n ≢ y =
                (λ z. absurd (ground (arith, z, inside, out, mem-append y ys zs))) in
              ground (arith, out, y-n')
        ],
      )

-- The removal of an element of a list returns the one behind it, or the tail; the list is the same
-- without the element, and no other pointer has changed, those of the element itself included.
pub list_remove-IsList :
    (m : Store) (l : Links) (ys zs : List ℕ) (e : ℕ)
    → IsList m l (ys ++ (e ∷ zs))
    → (m' : Store) × (list_remove e m ≡ ok (first zs l.tail, m'))
      × IsList m' l (ys ++ zs)
      × Untouched (l.head ∷ l.tail ∷ (ys ++ zs)) m m'
unfolding gone
list_remove-IsList m l ys zs e is =
    let (s, link, r) = around m l ys zs e is in
    let apart : e ≢ last l.head ys = (λ z. absurd (
      ground
        (arith, z, (rest_distinct m l ys zs e is).1, mem-last l.head ys, mem-append e ys zs))) in
    (
      gone m l ys zs e is,
      remove_lem m e (last l.head ys) (first zs l.tail) apart (Seg-prev m l.head e ys s) link.0,
      remove-IsList m l ys zs e is,
      remove-Untouched m l ys zs e is,
    )
