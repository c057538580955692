-- ===== src/Links/Chain.antt =====
-- The store as a picture of lists: which elements stand between two others, and that no element
-- stands twice.
use operating_system_pl_nt.Prelude.{
  ℕ, ◌≡◌, ◌≢◌, ◌==◌, refl, ◌∙◌, ◌⊎◌, inl, inr, Bool, true, false, ◌||◌, none, some, List, [], ◌∷◌,
  ◌++◌, arith, Bool-cases,
}
use operating_system_pl_nt.Links.{Store, Links}

abbrev pub mem : ℕ → List ℕ → Bool
mem y [] = false
mem y (x ∷ xs) = (x == y) || mem y xs

pub mem-append : (y : ℕ) (xs ys : List ℕ) → mem y (xs ++ ys) ≡ (mem y xs || mem y ys)
mem-append y [] ys = refl
mem-append y (x ∷ xs) ys = ground (arith, mem-append y xs ys)

abbrev pub Distinct : List ℕ → Type 0
Distinct [] = Unit {0}
Distinct (x ∷ xs) = (mem x xs ≡ false) × Distinct xs

-- Two lists have no element in common.
abbrev pub Apart : List ℕ → List ℕ → Type 0
Apart xs ys = (y : ℕ) → mem y xs ≡ true → mem y ys ≡ false

pub Distinct-append :
    (xs ys : List ℕ) → Distinct (xs ++ ys) → Distinct xs × Distinct ys × Apart xs ys
Distinct-append [] ys d = (tt, d, λ y h. cc)
Distinct-append (x ∷ xs) ys (fresh, d) =
    let (dx, dy, apart) = Distinct-append xs ys d in
    (
      (ground (arith, fresh, mem-append x xs ys), dx),
      dy,
      λ y h. ground (arith, h, apart y, fresh, mem-append x xs ys),
    )

pub append-Distinct :
    (xs ys : List ℕ) → Distinct xs → Distinct ys → Apart xs ys → Distinct (xs ++ ys)
append-Distinct [] ys dx dy apart = dy
append-Distinct (x ∷ xs) ys (fresh, dx) dy apart = (
  ground (arith, fresh, mem-append x xs ys, apart x),
  append-Distinct xs ys dx dy (λ y h. apart y (ground (arith, h))),
)

abbrev pub Linked : Store → ℕ → ℕ → Type 0
Linked m a b = (m.next a ≡ some b) × (m.prev b ≡ some a)

-- From `a`, the elements `xs` come before `b`.
abbrev pub Seg : Store → ℕ → List ℕ → ℕ → Type 0
Seg m a [] b = Linked m a b
Seg m a (x ∷ xs) b = Linked m a x × Seg m x xs b

pub Seg-append :
    (m : Store) (a x b : ℕ) (xs ys : List ℕ)
    → Seg m a xs x
    → Seg m x ys b
    → Seg m a (xs ++ (x ∷ ys)) b
Seg-append m a x b [] ys l s = (l, s)
Seg-append m a x b (y ∷ xs) ys (l, r) s = (l, Seg-append m y x b xs ys r s)

pub Seg-split :
    (m : Store) (a x b : ℕ) (xs ys : List ℕ)
    → Seg m a (xs ++ (x ∷ ys)) b
    → Seg m a xs x × Seg m x ys b
Seg-split m a x b [] ys (l, s) = (l, s)
Seg-split m a x b (y ∷ xs) ys (l, r) = let (s, t) = Seg-split m y x b xs ys r in ((l, s), t)

-- The element before the end of a segment.
abbrev pub last : ℕ → List ℕ → ℕ
last a [] = a
last a (x ∷ xs) = last x xs

pub mem-last : (a : ℕ) (xs : List ℕ) → mem (last a xs) (a ∷ xs) ≡ true
mem-last a [] = ground arith
mem-last a (x ∷ xs) = ground (arith, mem-last x xs)

pub Seg-prev : (m : Store) (a b : ℕ) (xs : List ℕ) → Seg m a xs b → m.prev b ≡ some (last a xs)
Seg-prev m a b [] l = l.1
Seg-prev m a b (x ∷ xs) (l, s) = Seg-prev m x b xs s

abbrev pub first : List ℕ → ℕ → ℕ
first [] b = b
first (x ∷ xs) b = x

pub Seg-next : (m : Store) (a b : ℕ) (xs : List ℕ) → Seg m a xs b → m.next a ≡ some (first xs b)
Seg-next m a b [] l = l.0
Seg-next m a b (x ∷ xs) (l, s) = l.0

-- A segment whose pointers are not written.
pub Seg-frame :
    (m m' : Store) (a b : ℕ) (xs : List ℕ)
    → ((y : ℕ) → mem y (a ∷ xs) ≡ true → m'.next y ≡ m.next y)
    → ((y : ℕ) → mem y (xs ++ (b ∷ [])) ≡ true → m'.prev y ≡ m.prev y)
    → Seg m a xs b
    → Seg m' a xs b
Seg-frame m m' a b [] nexts prevs (n, p) = (nexts a (ground arith) ∙ n, prevs b (ground arith) ∙ p)
Seg-frame m m' a b (x ∷ xs) nexts prevs ((n, p), s) = (
  (nexts a (ground arith) ∙ n, prevs x (ground arith) ∙ p),
  Seg-frame m m' x b xs (λ y h. nexts y (ground (arith, h))) (λ y h. prevs y (ground (arith, h))) s,
)

-- The elements `zs` before the end `t`, of which the first is reached in some way.
abbrev pub Rest : Store → List ℕ → ℕ → Type 0
Rest m [] t = Unit {0}
Rest m (z ∷ zs) t = Seg m z zs t

pub Seg-cut :
    (m : Store) (a t : ℕ) (ys zs : List ℕ)
    → Seg m a (ys ++ zs) t
    → Seg m a ys (first zs t) × Rest m zs t
Seg-cut m a t [] [] s = (s, tt)
Seg-cut m a t [] (z ∷ zs) s = s
Seg-cut m a t (y ∷ ys) zs (l, s) = let (u, r) = Seg-cut m y t ys zs s in ((l, u), r)

pub Seg-join :
    (m : Store) (a t : ℕ) (ys zs : List ℕ)
    → Seg m a ys (first zs t)
    → Rest m zs t
    → Seg m a (ys ++ zs) t
Seg-join m a t [] [] s r = s
Seg-join m a t [] (z ∷ zs) s r = (s, r)
Seg-join m a t (y ∷ ys) zs (l, s) r = (l, Seg-join m y t ys zs s r)

-- A segment that leads to another element than before.
Seg-redirect :
    (m m' : Store) (a b e : ℕ) (xs : List ℕ)
    → ((y : ℕ) → mem y (a ∷ xs) ≡ true → y ≢ last a xs → m'.next y ≡ m.next y)
    → ((y : ℕ) → mem y xs ≡ true → m'.prev y ≡ m.prev y)
    → Linked m' (last a xs) e
    → Distinct (a ∷ xs)
    → Seg m a xs b
    → Seg m' a xs e
Seg-redirect m m' a b e [] nexts prevs link d s = link
Seg-redirect m m' a b e (x ∷ xs) nexts prevs link (fresh, d) ((n, p), s) =
    let apart : a ≢ last x xs = (λ z. absurd (ground (arith, z, fresh, mem-last x xs))) in
    (
      (nexts a (ground arith) apart ∙ n, prevs x (ground arith) ∙ p),
      Seg-redirect m m' x b e xs (λ y h k. nexts y (ground (arith, h)) k)
          (λ y h. prevs y (ground (arith, h))) link d s,
    )

abbrev pub behind : List ℕ → ℕ → List ℕ
behind [] t = []
behind (z ∷ zs) t = zs ++ (t ∷ [])

Rest-frame :
    (m m' : Store) (t : ℕ) (zs : List ℕ)
    → ((y : ℕ) → mem y zs ≡ true → m'.next y ≡ m.next y)
    → ((y : ℕ) → mem y (behind zs t) ≡ true → m'.prev y ≡ m.prev y)
    → Rest m zs t
    → Rest m' zs t
Rest-frame m m' t [] nexts prevs r = tt
Rest-frame m m' t (z ∷ zs) nexts prevs r = Seg-frame m m' z t zs nexts prevs r

-- What stands between `ys` and `zs` is replaced by `ws`.
pub Seg-replace :
    (m m' : Store) (a b t : ℕ) (ys ws zs : List ℕ)
    → Seg m a ys b
    → Rest m zs t
    → Distinct (a ∷ ys)
    → Seg m' (last a ys) ws (first zs t)
    → ((y : ℕ) → mem y (a ∷ ys) ≡ true → y ≢ last a ys → m'.next y ≡ m.next y)
    → ((y : ℕ) → mem y ys ≡ true → m'.prev y ≡ m.prev y)
    → ((y : ℕ) → mem y zs ≡ true → m'.next y ≡ m.next y)
    → ((y : ℕ) → mem y (behind zs t) ≡ true → m'.prev y ≡ m.prev y)
    → Seg m' a (ys ++ (ws ++ zs)) t
Seg-replace m m' a b t ys [] zs s r d link n1 p1 n2 p2 =
    Seg-join m' a t ys zs (Seg-redirect m m' a b (first zs t) ys n1 p1 link d s)
      (Rest-frame m m' t zs n2 p2 r)
Seg-replace m m' a b t ys (w ∷ ws) zs s r d (link, middle) n1 p1 n2 p2 =
    Seg-join m' a t ys (w ∷ (ws ++ zs)) (Seg-redirect m m' a b w ys n1 p1 link d s)
      (Seg-join m' w t ws zs middle (Rest-frame m m' t zs n2 p2 r))

-- The elements of list `l` are `xs`, in order.
pub record IsList (m : Store) (l : Links) (xs : List ℕ) : Type 0 where
  pub starts : m.prev l.head ≡ none
  pub stops : m.next l.tail ≡ none
  pub seg : Seg m l.head xs l.tail
  pub distinct : Distinct (l.head ∷ l.tail ∷ xs)

-- An element in the middle, or none, of a list without repetition.
pub Distinct-insert :
    (e : ℕ) (ys zs : List ℕ)
    → Distinct (ys ++ zs)
    → mem e (ys ++ zs) ≡ false
    → Distinct (ys ++ (e ∷ zs))
Distinct-insert e [] zs d fresh = (fresh, d)
Distinct-insert e (y ∷ ys) zs (out, d) fresh = (
  ground (arith, out, fresh, mem-append y ys zs, mem-append y ys (e ∷ zs)),
  Distinct-insert e ys zs d (ground (arith, fresh)),
)

pub Distinct-delete :
    (e : ℕ) (ys zs : List ℕ)
    → Distinct (ys ++ (e ∷ zs))
    → Distinct (ys ++ zs) × (mem e (ys ++ zs) ≡ false)
Distinct-delete e [] zs (fresh, d) = (d, fresh)
Distinct-delete e (y ∷ ys) zs (out, d) =
    let (d', fresh) = Distinct-delete e ys zs d in
    (
      (ground (arith, out, mem-append y ys zs, mem-append y ys (e ∷ zs)), d'),
      ground (arith, out, fresh, mem-append y ys (e ∷ zs)),
    )

-- Two parts of a list, with its head and tail.
pub record Parts (h t : ℕ) (ys zs : List ℕ) : Type 0 where
  pub front : Distinct (h ∷ ys)
  pub out : (y : ℕ) → mem y (h ∷ ys) ≡ true → (mem y zs ≡ false) × (y ≢ t)
  pub border : mem (first zs t) (behind zs t) ≡ false

border_lem :
    (t : ℕ) (zs : List ℕ) → mem t zs ≡ false → Distinct zs → mem (first zs t) (behind zs t) ≡ false
border_lem t [] out d = refl
border_lem t (z ∷ zs) out (fresh, d) = ground (arith, out, fresh, mem-append z zs (t ∷ []))

pub Distinct-Parts : (h t : ℕ) (ys zs : List ℕ) → Distinct (h ∷ t ∷ (ys ++ zs)) → Parts h t ys zs
Distinct-Parts h t ys zs (head_out, (tail_out, d)) =
    let (dy, dz, apart) = Distinct-append ys zs d in
    record {
      front = (ground (arith, head_out, mem-append h ys zs), dy);
      out = λ y h'. (
        ground (arith, h', apart y, head_out, mem-append h ys zs),
        (λ e. absurd (ground (arith, h', e, head_out, tail_out, mem-append t ys zs))),
      );
      border = border_lem t zs (ground (arith, tail_out, mem-append t ys zs)) dz;
    }

-- The end, or the first of the elements before it.
pub first-cases : (zs : List ℕ) (t : ℕ) → (first zs t ≡ t) ⊎ (mem (first zs t) zs ≡ true)
first-cases [] t = inl refl
first-cases (z ∷ zs) t = inr (ground arith)

pub mem-behind : (y t : ℕ) (zs : List ℕ) → mem y (behind zs t) ≡ true → (y ≡ t) ⊎ (mem y zs ≡ true)
mem-behind y t [] h = cc
mem-behind y t (z ∷ zs) h = elim (Bool-cases (mem y zs)) [
  | inl there ↦ inr (ground (arith, there))
  | inr not_there ↦ inl (ground (arith, h, not_there, mem-append y zs (t ∷ [])))
]
