-- ===== src/Strings/Tokens.antt =====
-- What `strtok_r` takes off a string.
use mathlib.Core.Path.{subst}
use operating_system_pl_nt.Prelude.{
  ℕ, ◌≡◌, ◌≢◌, ◌⊎◌, inl, inr, refl, sym, ap, ◌∙◌, Bool, true, false, Option, none, some, List, [],
  ◌∷◌, ◌++◌, Bool-cases,
}
use operating_system_pl_nt.Strings.{
  is_some, strchr, skip_delimiters, split_token, token_from, strtok_r,
}

-- Whether `strchr` finds a character among the delimiters.
abbrev pub delimits : List ℕ → ℕ → Bool
delimits delimiters x = is_some (strchr delimiters x)

pub data Each (delimiters : List ℕ) (value : Bool) : List ℕ → Type 0 where
  nil : Each delimiters value []
  cons :
      {x : ℕ} {xs : List ℕ}
      → delimits delimiters x ≡ value
      → Each delimiters value xs
      → Each delimiters value (x ∷ xs)

-- What is left after the token: all but the delimiter that ends it.
abbrev pub Ends : List ℕ → List ℕ → List ℕ → Type 0
Ends delimiters after rest =
    ((after ≡ []) × (rest ≡ [])) ⊎ ((x : ℕ) × (delimits delimiters x ≡ true) × (after ≡ x ∷ rest))

abbrev pub Split : List ℕ → List ℕ → List ℕ × List ℕ → Type 0
Split delimiters s (token, rest) =
    (after : List ℕ) × (s ≡ token ++ after)
    × Each delimiters false token
    × Ends delimiters after rest

-- `before` is skipped.
abbrev pub Token : List ℕ → List ℕ → Option (List ℕ) × List ℕ → Type 0
Token delimiters s (none, rest) = Each delimiters true s × (rest ≡ [])
Token delimiters s (some token, rest) =
    (before after : List ℕ) × (s ≡ before ++ (token ++ after))
    × Each delimiters true before
    × Each delimiters false token
    × (token ≢ [])
    × Ends delimiters after rest

split_token-Split : (s delimiters : List ℕ) → Split delimiters s (split_token s delimiters)
unfolding split_token
split_token-Split [] delimiters = ([], refl, nil, inl (refl, refl))
split_token-Split (x ∷ s) delimiters = elim (Bool-cases (delimits delimiters x)) [
  | inl found ↦
      subst (Split delimiters (x ∷ s)) (sym (stop found)) (x ∷ s, refl, nil, inr (x, found, refl))
  | inr plain ↦
      let (after, whole, each, ends) = split_token-Split s delimiters in
      subst (Split delimiters (x ∷ s)) (sym (go plain))
        (after, ap (λ l. x ∷ l) whole, cons plain each, ends)
]
  where
    stop : delimits delimiters x ≡ true → split_token (x ∷ s) delimiters ≡ ([], s)
    stop h = simp h

    go :
        delimits delimiters x ≡ false
        → split_token (x ∷ s) delimiters
          ≡ (x ∷ (split_token s delimiters).0, (split_token s delimiters).1)
    go h = simp h

-- What is skipped are delimiters, and what follows does not start with one.
abbrev Skips : List ℕ → List ℕ → List ℕ → Type 0
Skips delimiters s [] = Each delimiters true s
Skips delimiters s (x ∷ rest) =
    (before : List ℕ) × (s ≡ before ++ (x ∷ rest))
    × Each delimiters true before
    × (delimits delimiters x ≡ false)

Skips-cons :
    (delimiters : List ℕ) (x : ℕ) (s rest : List ℕ)
    → delimits delimiters x ≡ true
    → Skips delimiters s rest
    → Skips delimiters (x ∷ s) rest
Skips-cons delimiters x s [] found each = cons found each
Skips-cons delimiters x s (y ∷ rest) found (before, whole, each, plain) =
    (x ∷ before, ap (λ l. x ∷ l) whole, cons found each, plain)

skip_delimiters-Skips : (s delimiters : List ℕ) → Skips delimiters s (skip_delimiters s delimiters)
unfolding skip_delimiters
skip_delimiters-Skips [] delimiters = nil
skip_delimiters-Skips (x ∷ s) delimiters = elim (Bool-cases (delimits delimiters x)) [
  | inl found ↦ subst (Skips delimiters (x ∷ s)) (sym (go found)) (
      Skips-cons delimiters x s (skip_delimiters s delimiters) found
        (skip_delimiters-Skips s delimiters))
  | inr plain ↦ subst (Skips delimiters (x ∷ s)) (sym (stop plain)) ([], refl, nil, plain)
]
  where
    go :
        delimits delimiters x ≡ true
        → skip_delimiters (x ∷ s) delimiters ≡ skip_delimiters s delimiters
    go h = simp h

    stop : delimits delimiters x ≡ false → skip_delimiters (x ∷ s) delimiters ≡ x ∷ s
    stop h = simp h

-- A token that starts with a plain character.
token_nonempty :
    (x : ℕ) (s delimiters : List ℕ)
    → delimits delimiters x ≡ false
    → (split_token (x ∷ s) delimiters).0 ≢ []
unfolding split_token
token_nonempty x s delimiters plain e =
    let starts : (split_token (x ∷ s) delimiters).0 ≡ x ∷ (split_token s delimiters).0 =
      simp plain in
    cc

token_from-Token :
    (s from delimiters : List ℕ)
    → Skips delimiters s from
    → Token delimiters s (token_from from delimiters)
token_from-Token s [] delimiters each = (each, refl)
token_from-Token s (x ∷ from) delimiters (before, whole, each, plain) =
    let (after, cut, tokens, ends) = split_token-Split (x ∷ from) delimiters in
    (
      before,
      after,
      whole ∙ ap (λ l. before ++ l) cut,
      each,
      tokens,
      token_nonempty x from delimiters plain,
      ends,
    )

-- A call skips delimiters. It finds no token exactly where nothing else is left, or a token with
-- no delimiter in it, which is never empty and runs up to the next delimiter or the end; the rest
-- starts behind that delimiter.
pub strtok_r-Token : (s delimiters : List ℕ) → Token delimiters s (strtok_r s delimiters)
unfolding strtok_r
strtok_r-Token s delimiters =
    token_from-Token s (skip_delimiters s delimiters) delimiters
      (skip_delimiters-Skips s delimiters)
