-- ===== src/Paths/Splits.antt =====
-- How paths are split.
use mathlib.Core.Path.{subst}
use operating_system_pl_nt.Prelude.{
  ℕ, zero, suc, ◌+◌, ◌≤◌, ◌<◌, ◌≡◌, ◌≢◌, ◌==◌, ◌⊎◌, refl, sym, ap, ◌∙◌, inl, inr, Bool, false, ◌||◌,
  Option, none, some, List, [], ◌∷◌, ◌++◌, ltb, if◌then◌else◌, length, take, drop, arith,
  Bool-cases, Outcome, ok, ◌>>=◌,
}
use operating_system_pl_nt.Bitmap.{Bitmap}
use operating_system_pl_nt.Inode.{Inodes, inode_at}
use operating_system_pl_nt.Inode.Space.{Fs}
use operating_system_pl_nt.File.{File}
use operating_system_pl_nt.Strings.{last_from, strrchr, strlcpy, strtok_r, skip_delimiters}
use operating_system_pl_nt.Directory.{Dir, name_max}
use operating_system_pl_nt.Directory.Updates.{dir_open_root, dir_reopen, dir_close}
use operating_system_pl_nt.Paths.{
  slash, on_parts, base_of, split_path, Memory, dir_open_path, create_under, open_under,
  remove_under, filesys_create, filesys_open, filesys_remove,
}

-- Whether a path has a slash.
abbrev pub has : List ℕ → Bool
has [] = false
has (x ∷ xs) = (x == slash) || has xs

last_from-none : (xs : List ℕ) (i : ℕ) (p : Option ℕ) → has xs ≡ false → last_from xs slash i p ≡ p
unfolding last_from
last_from-none [] i p h = refl
last_from-none (x ∷ xs) i p h =
    let other : (x == slash) ≡ false = ground (arith, h) in
    simp (other, last_from) (last_from-none xs (i + 1) p (ground (arith, h)))

last_from-some :
    (front name : List ℕ) (i : ℕ) (p : Option ℕ)
    → has name ≡ false
    → last_from (front ++ (slash ∷ name)) slash i p ≡ some (i + length front)
unfolding last_from
last_from-some [] name i p h = last_from-none name (i + 1) (some i) h ∙ ap some (omega arith)
last_from-some (x ∷ front) name i p h =
    last_from-some front name (i + 1) (if x == slash then some i else p) h ∙ ap some (omega arith)

-- A path without a slash, or the parts before and after its last.
data Parted : List ℕ → Type 0 where
  plain : {path : List ℕ} → has path ≡ false → Parted path
  parted :
      {path : List ℕ} (front name : List ℕ)
      → path ≡ front ++ (slash ∷ name)
      → has name ≡ false
      → Parted path

Parted-cons : (x : ℕ) (path : List ℕ) → Parted path → Parted (x ∷ path)
Parted-cons x path (plain h) = elim (Bool-cases (x == slash)) [
  | inl same ↦ parted [] path (ap (λ y. y ∷ path) (ground (arith, same))) h
  | inr other ↦ plain (ground (arith, other, h))
]
Parted-cons x path (parted front name e h) = parted (x ∷ front) name (ap (λ p. x ∷ p) e) h

Parted_lem : (path : List ℕ) → Parted path
Parted_lem [] = plain refl
Parted_lem (x ∷ path) = Parted-cons x path (Parted_lem path)

take_before : (xs ys : List ℕ) → take (length xs) (xs ++ ys) ≡ xs
take_before [] ys = refl
take_before (x ∷ xs) ys = ap (λ r. x ∷ r) (take_before xs ys)

drop_after : (xs ys : List ℕ) (c : ℕ) → drop (length xs + 1) (xs ++ (c ∷ ys)) ≡ ys
drop_after [] ys c = refl
drop_after (x ∷ xs) ys c =
    ap (λ n. drop n (x ∷ (xs ++ (c ∷ ys)))) {x = length (x ∷ xs) + 1} {y = suc (length xs + 1)}
      (omega arith)
    ∙ drop_after xs ys c

take_short : (n : ℕ) (xs : List ℕ) → length xs ≤ n → take (length xs) xs ≡ take n xs
take_short zero [] h = refl
take_short (suc n) [] h = refl
take_short zero (x ∷ xs) h = absurd (omega arith)
take_short (suc n) (x ∷ xs) h = ap (λ r. x ∷ r) (take_short n xs (omega arith))

base_of-take : (src : List ℕ) → base_of src ≡ take name_max src
unfolding strlcpy
base_of-take src = elim (Bool-cases (ltb (length src) name_max)) [
  | inl short ↦ simp short (take_short name_max src (ground (arith, short)))
  | inr long ↦ simp long
]

-- What `split_path` makes of a path.
abbrev pub Splits : List ℕ → Option (List ℕ × List ℕ) → Type 0
Splits path none =
    (path ≡ [])
    ⊎ ((front : List ℕ) × (name : List ℕ) × (path ≡ front ++ (slash ∷ name))
        × (has name ≡ false)
        × (name_max < length front))
Splits path (some (dir, base)) =
    (path ≢ [])
    × ((name : List ℕ) × (has name ≡ false)
        × (base ≡ take name_max name)
        × (((path ≡ name) × (dir ≡ []))
            ⊎ ((path ≡ dir ++ (slash ∷ name)) × (length dir ≤ name_max))))

strrchr-plain : (path : List ℕ) → has path ≡ false → strrchr path slash ≡ none
unfolding strrchr
strrchr-plain path h = last_from-none path 0 none h

strrchr-parted :
    (front name : List ℕ)
    → has name ≡ false
    → strrchr (front ++ (slash ∷ name)) slash ≡ some (length front)
unfolding strrchr
strrchr-parted front name h = last_from-some front name 0 none h ∙ ap some (omega arith)

-- `split_path` by what `strrchr` finds
abbrev cut : List ℕ → Option ℕ → Option (List ℕ × List ℕ)
cut p o = elim o [
  | none ↦ some ([], base_of p)
  | some n ↦ if ltb name_max n then none else some (take n p, base_of (drop (n + 1) p))
]

found_lem :
    (n : ℕ) (p front name : List ℕ)
    → take n p ≡ front
    → drop (n + 1) p ≡ name
    → ◌≡◌ {A = Option (List ℕ × List ℕ)}
        (if ltb name_max n then none else some (take n p, base_of (drop (n + 1) p)))
        (if ltb name_max n then none else some (front, base_of name))
found_lem n p front name e e' =
    ap (λ d. if ltb name_max n then none else some (d, base_of (drop (n + 1) p))) e
    ∙ ap (λ b. if ltb name_max n then none else some (front, base_of b)) e'

split_path-parted :
    (front name : List ℕ)
    → has name ≡ false
    → split_path (front ++ (slash ∷ name))
      ≡ (if ltb name_max (length front) then none else some (front, base_of name))
unfolding split_path
split_path-parted [] name h = ap (cut (slash ∷ name)) (strrchr-parted [] name h)
split_path-parted (x ∷ front) name h =
    ap (cut ((x ∷ front) ++ (slash ∷ name))) (strrchr-parted (x ∷ front) name h)
    ∙ found_lem (length (x ∷ front)) ((x ∷ front) ++ (slash ∷ name)) (x ∷ front) name
        (take_before (x ∷ front) (slash ∷ name)) (drop_after (x ∷ front) name slash)

split_path-plain :
    (x : ℕ) (path : List ℕ)
    → has (x ∷ path) ≡ false
    → split_path (x ∷ path) ≡ some ([], base_of (x ∷ path))
unfolding split_path
split_path-plain x path h = simp (strrchr-plain (x ∷ path) h, split_path)

nonempty : (front name : List ℕ) → front ++ (slash ∷ name) ≢ []
nonempty [] name e = cc
nonempty (x ∷ front) name e = cc

parted-Splits :
    (front name : List ℕ)
    → has name ≡ false
    → Splits (front ++ (slash ∷ name)) (split_path (front ++ (slash ∷ name)))
parted-Splits front name h =
    rw (split_path-parted front name h) (elim (Bool-cases (ltb name_max (length front))) [
      | inl long ↦ rw long (inr (front, name, refl, h, ground (arith, long)))
      | inr short ↦
          rw short
            (nonempty front name, (name, h, base_of-take name, inr (refl, ground (arith, short))))
    ])

Parted-Splits :
    (x : ℕ) (path : List ℕ) → Parted (x ∷ path) → Splits (x ∷ path) (split_path (x ∷ path))
Parted-Splits x path (plain h) =
    rw (split_path-plain x path h)
      ((λ e. cc), (x ∷ path, h, base_of-take (x ∷ path), inl (refl, refl)))
Parted-Splits x path (parted front name e h) =
    subst (λ p. Splits p (split_path p)) (sym e) (parted-Splits front name h)

-- split_path fails on the empty path, and where the part before the last slash has more than 14
-- characters. Else the base name is the part after the last slash, cut to 14 characters, and the
-- directory is the part before it, or is empty where there is no slash.
pub split_path-Splits : (path : List ℕ) → Splits path (split_path path)
unfolding split_path
split_path-Splits [] = inl refl
split_path-Splits (x ∷ path) = Parted-Splits x path (Parted_lem (x ∷ path))

-- A name with a slash in front, and without: the directory is empty for both.
split_path_absolute :
    (x : ℕ) (name : List ℕ)
    → has (x ∷ name) ≡ false
    → split_path (slash ∷ x ∷ name) ≡ some ([], take name_max (x ∷ name))
split_path_absolute x name h =
    split_path-parted [] (x ∷ name) h ∙ ap (λ b. some ([], b)) (base_of-take (x ∷ name))

split_path_relative :
    (x : ℕ) (name : List ℕ)
    → has (x ∷ name) ≡ false
    → split_path (x ∷ name) ≡ some ([], take name_max (x ∷ name))
split_path_relative x name h =
    split_path-plain x name h ∙ ap (λ b. some ([], b)) (base_of-take (x ∷ name))

on_parts-eq {ℓ} :
    {A : Type ℓ} (p : List ℕ) (failure : Outcome A) (f : List ℕ → List ℕ → Outcome A)
    {dir base : List ℕ}
    → split_path p ≡ some (dir, base)
    → on_parts p failure f ≡ f dir base
unfolding on_parts
on_parts-eq p failure f e = ap (λ o. elim o [ none ↦ failure | some (dir, base) ↦ f dir base ]) e

module _ (bitmap_write : Bitmap → File → Inodes → Outcome (Bool × Inodes)) (cwd : Option Dir)
    (memory : Memory) (s : Fs File) where
  -- The working directory opened once more, or the root directory for a thread that has none,
  -- unless it was removed.
  pub working_dir : Outcome (Option Dir × Fs File)
  working_dir = do
    (o, s) ← elim cwd [
      | none ↦ dir_open_root bitmap_write (memory.inode 0) (memory.dir 0) s
      | some dir ↦ dir_reopen bitmap_write dir (memory.dir 0) s
    ]
    elim o [
      | none ↦ ok (none, s)
      | some dir ↦ do
        inode ← inode_at s.rest dir.inode
        if inode.removed
            then (do s ← dir_close bitmap_write (some dir) s; ok (none, s))
            else ok (some dir, s)
    ]

  dir_open_path-working_dir : dir_open_path bitmap_write [] cwd memory s ≡ working_dir
  unfolding dir_open_path working_dir strtok_r skip_delimiters
  dir_open_path-working_dir = refl

  -- A path names `base` in the working directory, for the three calls.
  abbrev pub Names : List ℕ → List ℕ → Type 0
  Names path base =
      (filesys_open bitmap_write path cwd memory s
        ≡ (working_dir >>= λ r. open_under bitmap_write r.0 base memory r.1))
      × (filesys_remove bitmap_write path cwd memory s
          ≡ (working_dir >>= λ r. remove_under bitmap_write r.0 base memory r.1))
      × ((initial_size : ℕ) (is_dir : Bool)
          → filesys_create bitmap_write path initial_size is_dir cwd memory s ≡ (
              working_dir >>= λ r.
              create_under bitmap_write r.0 base initial_size is_dir memory r.1))

  Names-split : (path base : List ℕ) → split_path path ≡ some ([], base) → Names path base
  unfolding filesys_open filesys_remove filesys_create
  Names-split path base e = (
    on_parts-eq path (ok (none, s)) _ e
        ∙ ap
            (λ (o : Outcome (Option Dir × Fs File)).
              o >>= λ r. open_under bitmap_write r.0 base memory r.1)
            dir_open_path-working_dir,
    on_parts-eq path (ok (false, s)) _ e
        ∙ ap
            (λ (o : Outcome (Option Dir × Fs File)).
              o >>= λ r. remove_under bitmap_write r.0 base memory r.1)
            dir_open_path-working_dir,
    λ initial_size is_dir.
        on_parts-eq path (ok (false, s)) _ e
        ∙ ap
            (λ (o : Outcome (Option Dir × Fs File)).
              o >>= λ r. create_under bitmap_write r.0 base initial_size is_dir memory r.1)
            dir_open_path-working_dir,
  )

  -- A name that has no slash, and the same name with one slash in front, both mean the name, cut to
  -- 14 characters, in the working directory of the thread, where it has one, and not in the root
  -- directory: that is the directory in which it is opened, removed or created, unless it is itself
  -- removed.
  pub filesys_absolute :
      (x : ℕ) (name : List ℕ)
      → has (x ∷ name) ≡ false
      → Names (slash ∷ x ∷ name) (take name_max (x ∷ name))
        × Names (x ∷ name) (take name_max (x ∷ name))
  filesys_absolute x name h = (
    Names-split (slash ∷ x ∷ name) (take name_max (x ∷ name)) (split_path_absolute x name h),
    Names-split (x ∷ name) (take name_max (x ∷ name)) (split_path_relative x name h),
  )
