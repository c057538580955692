-- ===== src/Strings/Find.antt =====
-- The comparison, the search and the copy of lib/string.c against descriptions on lists.
use operating_system_pl_nt.Prelude.{
  ℕ, zero, suc, ◌%◌, ◌<◌, ◌≤◌, ◌≡◌, ◌≢◌, inl, inr, refl, sym, ap, ◌∙◌, true, false, Option, none,
  some, List, [], ◌∷◌, ◌++◌, ◌==◌, ne→==, if◌then◌else◌, ltb, length, get_elem?, take, drop, arith,
  Bool-cases, length-take,
}
use mathlib.Core.Option
use mathlib.Core.Path.{subst}
use operating_system_pl_nt.Strings.{Sign, less, equal, greater, strcmp, chr_loop, strchr, strlcpy}

-- `a` comes before `b` in the order of dictionaries.
pub data Before : List ℕ → List ℕ → Type 0 where
  shorter : {y : ℕ} {b : List ℕ} → Before [] (y ∷ b)
  first : {x y : ℕ} {a b : List ℕ} → x < y → Before (x ∷ a) (y ∷ b)
  next : {x y : ℕ} {a b : List ℕ} → x ≡ y → Before a b → Before (x ∷ a) (y ∷ b)

abbrev pub Ordered : List ℕ → List ℕ → Sign → Type 0
Ordered a b less = Before a b
Ordered a b equal = a ≡ b
Ordered a b greater = Before b a

push :
    {x y : ℕ} (a b : List ℕ)
    → x ≡ y
    → (sign : Sign) → Ordered a b sign
    → Ordered (x ∷ a) (y ∷ b) sign
push a b e less o = next e o
push a b e equal o = cc
push a b e greater o = next (sym e) o

-- The sign of a comparison is the order of dictionaries on the characters.
pub strcmp-Ordered : (a b : List ℕ) → Ordered a b (strcmp a b)
unfolding strcmp
strcmp-Ordered [] [] = refl
strcmp-Ordered [] (y ∷ b) = shorter
strcmp-Ordered (x ∷ a) [] = shorter
strcmp-Ordered (x ∷ a) (y ∷ b) = elim (Bool-cases (x == y)) [
  | inl same ↦
      subst (Ordered (x ∷ a) (y ∷ b)) (sym (heads_same same))
        (push a b (ground arith) (strcmp a b) (strcmp-Ordered a b))
  | inr differs ↦ elim (Bool-cases (ltb x y)) [
    | inl below ↦
        subst (Ordered (x ∷ a) (y ∷ b)) (sym (heads_below differs below)) (first (ground arith))
    | inr above ↦
        subst (Ordered (x ∷ a) (y ∷ b)) (sym (heads_above differs above)) (first (ground arith))
  ]
]
  where
    heads_same : (x == y) ≡ true → strcmp (x ∷ a) (y ∷ b) ≡ strcmp a b
    heads_same h = simp h

    heads_below : (x == y) ≡ false → ltb x y ≡ true → strcmp (x ∷ a) (y ∷ b) ≡ less
    heads_below h k = simp (h, k)

    heads_above : (x == y) ≡ false → ltb x y ≡ false → strcmp (x ∷ a) (y ∷ b) ≡ greater
    heads_above h k = simp (h, k)

-- No place of `string`, or the first one, holds `c`.
abbrev pub Found : ℕ → List ℕ → Option ℕ → Type 0
Found c string none = (i : ℕ) → get_elem? string i ≢ some c
Found c string (some i) =
    (get_elem? string i ≡ some c) × ((j : ℕ) → j < i → get_elem? string j ≢ some c)

Found-cons :
    (c x : ℕ) (string : List ℕ) (o : Option ℕ)
    → x ≢ c
    → Found c string o
    → Found c (x ∷ string) (Option.map suc o)
Found-cons c x string none n f = nowhere
  where
    nowhere : (i : ℕ) → get_elem? (x ∷ string) i ≢ some c
    nowhere zero = λ e. n (cc)
    nowhere (suc i) = f i
Found-cons c x string (some i) n (at, before) = (at, earlier)
  where
    earlier : (j : ℕ) → j < suc i → get_elem? (x ∷ string) j ≢ some c
    earlier zero _ = λ e. n (cc)
    earlier (suc j) h = before j (omega arith)

chr_loop-Found : (string : List ℕ) (c : ℕ) → c ≢ 0 → Found c string (chr_loop string c)
unfolding chr_loop
chr_loop-Found [] c n = subst (Found c []) (sym (end_lem (ne→== c 0 n))) (λ i. λ e. cc)
  where
    end_lem : (c == 0) ≡ false → chr_loop [] c ≡ none
    end_lem h = simp h
chr_loop-Found (x ∷ string) c n = elim (Bool-cases (x == c)) [
  | inl same ↦
      subst (Found c (x ∷ string)) (sym (hit same)) (ground arith, λ j below. absurd (omega arith))
  | inr differs ↦
      subst (Found c (x ∷ string)) (sym (miss differs))
        (Found-cons c x string (chr_loop string c) (ground arith) (chr_loop-Found string c n))
]
  where
    hit : (x == c) ≡ true → chr_loop (x ∷ string) c ≡ some 0
    hit h = simp h

    miss : (x == c) ≡ false → chr_loop (x ∷ string) c ≡ Option.map suc (chr_loop string c)
    miss h = simp h

-- For a character that is not null, `strchr` finds its first place.
pub strchr-Found : (string : List ℕ) (c : ℕ) → c ≢ 0 → c < 256 → Found c string (strchr string c)
unfolding strchr
strchr-Found string c n small =
    let same : c % 256 ≡ c = omega arith in rw same (chr_loop-Found string c n)

abbrev least : ℕ → ℕ → ℕ
least a b = if ltb a b then a else b

least_below : (a b : ℕ) → least a b ≤ b
least_below a b = ground arith

take-append-drop : (n : ℕ) (xs : List ℕ) → take n xs ++ drop n xs ≡ xs
take-append-drop zero xs = refl
take-append-drop (suc n) [] = refl
take-append-drop (suc n) (x ∷ xs) = ap (λ l. x ∷ l) (take-append-drop n xs)

take-length : (xs : List ℕ) → take (length xs) xs ≡ xs
take-length [] = refl
take-length (x ∷ xs) = ap (λ l. x ∷ l) (take-length xs)

-- A copy fills the buffer up to its last byte at most, is the front of the source, and is all of
-- it where that fits.
pub strlcpy-fits :
    (src : List ℕ) (size : ℕ)
    → 0 < size
    → (dst : List ℕ) × (strlcpy src size ≡ (some dst, length src))
      × (length dst < size)
      × ((rest : List ℕ) × (src ≡ dst ++ rest))
      × (length src < size → dst ≡ src)
unfolding strlcpy
strlcpy-fits src zero h = absurd (omega arith)
strlcpy-fits src (suc size) h =
    let n : ℕ = least (length src) size in
    (
      take n src,
      refl,
      omega (arith, length-take n src, least_below (length src) size),
      (drop n src, sym (take-append-drop n src)),
      λ fits. ap (λ k. take k src) (ground arith) ∙ take-length src,
    )
