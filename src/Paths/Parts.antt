-- ===== src/Paths/Parts.antt =====
-- The parts of a path, one after the other.
use operating_system_pl_nt.Prelude.{
  ℕ, zero, suc, ◌≡◌, ◌%◌, ◌<◌, ◌≢◌, ◌==◌, refl, ap, ◌∙◌, inl, inr, true, false, none, some, List,
  [], ◌∷◌, take, arith, Bool-cases, ne→==,
}
use operating_system_pl_nt.Strings.{
  chr_loop, strchr, is_some, strtok_r, skip_delimiters, split_token, token_from,
}
use operating_system_pl_nt.Directory.{name_max}
use operating_system_pl_nt.Paths.{slash, skip_slashes, copy_part, part_from, get_next_part}

-- Each character of a string is a byte that is not null.
abbrev pub IsString : List ℕ → Type 0
IsString [] = Unit {0}
IsString (x ∷ xs) = ((x ≢ 0) × (x < 256)) × IsString xs

slash_lem : (x : ℕ) → (x ≢ 0) × (x < 256) → is_some (strchr (slash ∷ []) x) ≡ (x == slash)
unfolding strchr chr_loop
slash_lem x (n, small) =
    let visible : (x == 0) ≡ false = ne→== x 0 n in
    let kept : x % 256 ≡ x = omega arith in
    rw kept (elim (Bool-cases (x == slash)) [
      | inl same ↦ let turned : (slash == x) ≡ true = ground (arith, same) in simp (turned, same)
      | inr other ↦
          let turned : (slash == x) ≡ false = ground (arith, other) in simp (turned, other, visible)
    ])

skip-same : (src : List ℕ) → IsString src → skip_slashes src ≡ skip_delimiters src (slash ∷ [])
unfolding skip_slashes skip_delimiters
skip-same [] is = refl
skip-same (x ∷ src) (n, is) = elim (Bool-cases (x == slash)) [
  | inl same ↦ simp (same, slash_lem x n, skip_slashes, skip_delimiters) (skip-same src is)
  | inr other ↦ simp (other, slash_lem x n, skip_slashes, skip_delimiters)
]

skip-IsString : (src : List ℕ) → IsString src → IsString (skip_slashes src)
unfolding skip_slashes
skip-IsString [] is = tt
skip-IsString (x ∷ src) (n, is) = elim (Bool-cases (x == slash)) [
  | inl same ↦ rw same (skip-IsString src is)
  | inr other ↦ rw other (n, is)
]

copy_part-take :
    (room : ℕ) (src : List ℕ)
    → IsString src
    → (copy_part room src).0 ≡ take room (split_token src (slash ∷ [])).0
unfolding copy_part split_token
copy_part-take zero [] is = refl
copy_part-take (suc room) [] is = refl
copy_part-take zero (x ∷ src) (n, is) = elim (Bool-cases (x == slash)) [
  | inl same ↦ simp (same, copy_part)
  | inr other ↦ simp (other, copy_part) (copy_part-take zero src is)
]
copy_part-take (suc room) (x ∷ src) (n, is) = elim (Bool-cases (x == slash)) [
  | inl same ↦ simp (same, slash_lem x n, copy_part, split_token)
  | inr other ↦
      simp (other, slash_lem x n, copy_part, split_token)
        (ap (λ r. x ∷ r) (copy_part-take room src is))
]

-- A part and a token end before the same slash.
copy_part-rest :
    (room : ℕ) (src : List ℕ)
    → IsString src
    → skip_slashes (copy_part room src).1 ≡ skip_slashes (split_token src (slash ∷ [])).1
unfolding copy_part split_token skip_slashes
copy_part-rest zero [] is = refl
copy_part-rest (suc room) [] is = refl
copy_part-rest zero (x ∷ src) (n, is) = elim (Bool-cases (x == slash)) [
  | inl same ↦ simp (same, slash_lem x n, copy_part, split_token, skip_slashes)
  | inr other ↦ simp (other, slash_lem x n, copy_part, split_token) (copy_part-rest zero src is)
]
copy_part-rest (suc room) (x ∷ src) (n, is) = elim (Bool-cases (x == slash)) [
  | inl same ↦ simp (same, slash_lem x n, copy_part, split_token, skip_slashes)
  | inr other ↦ simp (other, slash_lem x n, copy_part, split_token) (copy_part-rest room src is)
]

copy_part-IsString : (room : ℕ) (src : List ℕ) → IsString src → IsString (copy_part room src).1
unfolding copy_part
copy_part-IsString zero [] is = tt
copy_part-IsString (suc room) [] is = tt
copy_part-IsString zero (x ∷ src) (n, is) = elim (Bool-cases (x == slash)) [
  | inl same ↦ rw same (n, is)
  | inr other ↦ rw other (copy_part-IsString zero src is)
]
copy_part-IsString (suc room) (x ∷ src) (n, is) = elim (Bool-cases (x == slash)) [
  | inl same ↦ rw same (n, is)
  | inr other ↦ rw other (copy_part-IsString room src is)
]

split_token-IsString : (src : List ℕ) → IsString src → IsString (split_token src (slash ∷ [])).1
unfolding split_token
split_token-IsString [] is = tt
split_token-IsString (x ∷ src) (n, is) = elim (Bool-cases (is_some (strchr (slash ∷ []) x))) [
  | inl same ↦ rw same is
  | inr other ↦ rw other (split_token-IsString src is)
]

-- The parts that the first `n` calls of `get_next_part` give, each call with the source pointer
-- that the call before left, up to the one that finds none.
pub parts : ℕ → List ℕ → List (List ℕ)
parts zero src = []
parts (suc n) src = elim (get_next_part src) [ none ↦ [] | some (part, rest) ↦ part ∷ parts n rest ]

-- The tokens of the first `n` calls of `strtok_r`, each cut to the length of a name.
pub tokens : ℕ → List ℕ → List (List ℕ)
tokens zero s = []
tokens (suc n) s =
    let (token, rest) = strtok_r s (slash ∷ []) in
    elim token [ none ↦ [] | some token ↦ take name_max token ∷ tokens n rest ]

-- both, after the slashes in front
next_round :
    (n : ℕ) (r : List ℕ)
    → IsString r
    → ((src s : List ℕ)
        → IsString src
        → IsString s
        → skip_slashes src ≡ skip_slashes s
        → parts n src ≡ tokens n s)
    → ◌≡◌ {A = List (List ℕ)}
        (elim (part_from r) [ none ↦ [] | some (part, rest) ↦ part ∷ parts n rest ])
        (elim (token_from r (slash ∷ [])).0 [
          | none ↦ []
          | some token ↦ take name_max token ∷ tokens n (token_from r (slash ∷ [])).1
        ])
next_round n [] is more = refl
next_round n (x ∷ r) is more =
    ap (λ p. p ∷ parts n (copy_part name_max (x ∷ r)).1) (copy_part-take name_max (x ∷ r) is)
    ∙ ap (λ ps. take name_max (split_token (x ∷ r) (slash ∷ [])).0 ∷ ps)
        (more (copy_part name_max (x ∷ r)).1 (split_token (x ∷ r) (slash ∷ [])).1
          (copy_part-IsString name_max (x ∷ r) is) (split_token-IsString (x ∷ r) is)
          (copy_part-rest name_max (x ∷ r) is))

parts-same :
    (n : ℕ) (src s : List ℕ)
    → IsString src
    → IsString s
    → skip_slashes src ≡ skip_slashes s
    → parts n src ≡ tokens n s
unfolding parts tokens get_next_part strtok_r
parts-same zero src s is is' e = refl
parts-same (suc n) src s is is' e =
    next_round n (skip_slashes src) (skip-IsString src is) (parts-same n)
    ∙ ap
        (λ r. elim (token_from r (slash ∷ [])).0 [
          | none ↦ []
          | some token ↦ take name_max token ∷ tokens n (token_from r (slash ∷ [])).1
        ])
        (e ∙ skip-same s is')

-- On a string, however often they are called, `get_next_part` and `strtok_r` with a slash as
-- delimiter walk along the same parts: each part is the token in its place, cut to 14 characters,
-- and the calls of the one find no more when those of the other do.
pub get_next_part-token : (n : ℕ) (src : List ℕ) → IsString src → parts n src ≡ tokens n src
get_next_part-token n src is = parts-same n src src is is refl
