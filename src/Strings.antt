-- ===== src/Strings.antt =====
-- lib/string.c: a string is the list of its characters before the null character, which are not
-- null; a block of memory is the list of its bytes. A pointer into either is its distance from the
-- start.
pub mod Find
pub mod Tokens
use mathlib.Core.Option
use operating_system_pl_nt.Prelude.{
  ℕ, zero, suc, ◌+◌, ◌-◌, ◌%◌, Bool, true, false, not, ◌&&◌, Option, none, some, List, [], ◌∷◌,
  ◌++◌, ltb, leb, ◌==◌, if◌then◌else◌, length, take, drop, Outcome, ok, panic, ◌>>=◌, ◌>>◌, assert,
}

-- the sign of a comparison
pub data Sign : Type 0 where
  less equal greater : Sign

abbrev pub is_some {ℓ} : {A : Type ℓ} → Option A → Bool
is_some none = false
is_some (some _) = true

-- The first `size` bytes of both blocks; a block that is shorter is a `panic`.
unfoldable pub memcmp : List ℕ → List ℕ → ℕ → Outcome Sign
memcmp a b zero = ok equal
memcmp [] b (suc size) = panic
memcmp (x ∷ a) [] (suc size) = panic
memcmp (x ∷ a) (y ∷ b) (suc size) =
    let rest = memcmp a b size in if x == y then rest else (if ltb y x then ok greater else ok less)

unfoldable pub strcmp : List ℕ → List ℕ → Sign
strcmp [] [] = equal
strcmp [] (y ∷ b) = less
strcmp (x ∷ a) [] = greater
strcmp (x ∷ a) (y ∷ b) =
    let rest = strcmp a b in if x == y then rest else (if ltb x y then less else greater)

unfoldable pub memchr : List ℕ → ℕ → ℕ → Outcome (Option ℕ)
memchr block ch zero = ok none
memchr [] ch (suc size) = panic
memchr (x ∷ block) ch (suc size) = do
  let rest = memchr block ch size
  if x == ch % 256 then ok (some 0) else (do o ← rest; ok (Option.map suc o))

-- the loop of `strchr`, for a character
unfoldable pub chr_loop : List ℕ → ℕ → Option ℕ
chr_loop [] c = if c == 0 then some 0 else none
chr_loop (x ∷ string) c =
    let rest = Option.map suc (chr_loop string c) in if x == c then some 0 else rest

unfoldable pub strchr : List ℕ → ℕ → Option ℕ
unfolding chr_loop
strchr string c = chr_loop string (c % 256)

unfoldable pub strcspn : List ℕ → List ℕ → ℕ
strcspn [] stop = 0
strcspn (x ∷ string) stop =
    let rest = suc (strcspn string stop) in if is_some (strchr stop x) then 0 else rest

unfoldable pub strpbrk : List ℕ → List ℕ → Option ℕ
strpbrk [] stop = none
strpbrk (x ∷ string) stop =
    let rest = Option.map suc (strpbrk string stop) in
    if is_some (strchr stop x) then some 0 else rest

-- the loop of `strrchr` for a character, `i` characters into the string, with `p` found
unfoldable pub last_from : List ℕ → ℕ → ℕ → Option ℕ → Option ℕ
last_from [] c i p = p
last_from (x ∷ string) c i p = last_from string c (i + 1) (if x == c then some i else p)

unfoldable pub strrchr : List ℕ → ℕ → Option ℕ
unfolding last_from
strrchr string c = last_from string (c % 256) 0 none

unfoldable pub strspn : List ℕ → List ℕ → ℕ
strspn [] skip = 0
strspn (x ∷ string) skip =
    let rest = suc (strspn string skip) in if is_some (strchr skip x) then rest else 0

abbrev is_equal : Sign → Bool
is_equal less = false
is_equal equal = true
is_equal greater = false

-- the loop of `strstr`, for `n` more places from `i` on
strstr_loop : ℕ → ℕ → List ℕ → List ℕ → Outcome (Option ℕ)
strstr_loop zero i haystack needle = ok none
strstr_loop (suc n) i haystack needle = do
  sign ← memcmp (drop i haystack) needle (length needle)
  let rest = strstr_loop n (i + 1) haystack needle
  if is_equal sign then ok (some i) else rest

unfoldable pub strstr : List ℕ → List ℕ → Outcome (Option ℕ)
unfolding strstr_loop
strstr haystack needle =
    if leb (length needle) (length haystack)
    then strstr_loop (length haystack - length needle + 1) 0 haystack needle
    else ok none

-- `strlcpy` into a buffer of `size` bytes: the string that the buffer then holds, or nothing where
-- it is not touched, and the length of `src`.
unfoldable pub strlcpy : List ℕ → ℕ → Option (List ℕ) × ℕ
strlcpy src zero = (none, length src)
strlcpy src (suc dst_len) =
    (some (take (if ltb (length src) dst_len then length src else dst_len) src), length src)

-- `strlcat` to a string `dst` in a buffer of `size` bytes
unfoldable pub strlcat : List ℕ → List ℕ → ℕ → List ℕ × ℕ
strlcat dst src size =
    let copy_cnt = size - length dst - 1 in
    (
      (if ltb 0 size && ltb (length dst) size
          then dst ++ take (if ltb (length src) copy_cnt then length src else copy_cnt) src
          else dst),
      length src + length dst,
    )

unfoldable pub strnlen : List ℕ → ℕ → ℕ
strnlen [] maxlen = 0
strnlen (x ∷ string) zero = 0
strnlen (x ∷ string) (suc maxlen) = suc (strnlen string maxlen)

unfoldable pub memset : List ℕ → ℕ → ℕ → Outcome (List ℕ)
memset dst value zero = ok dst
memset [] value (suc size) = panic
memset (x ∷ dst) value (suc size) = do dst ← memset dst value size; ok (value % 256 ∷ dst)

-- the loops of `strtok_r`: what is left after the delimiters in front, and the token with what
-- follows the delimiter at its end
unfoldable pub skip_delimiters : List ℕ → List ℕ → List ℕ
skip_delimiters [] delimiters = []
skip_delimiters (x ∷ s) delimiters =
    let rest = skip_delimiters s delimiters in if is_some (strchr delimiters x) then rest else x ∷ s

unfoldable pub split_token : List ℕ → List ℕ → List ℕ × List ℕ
split_token [] delimiters = ([], [])
split_token (x ∷ s) delimiters =
    let (token, rest) = split_token s delimiters in
    if is_some (strchr delimiters x) then ([], s) else (x ∷ token, rest)

abbrev pub token_from : List ℕ → List ℕ → Option (List ℕ) × List ℕ
token_from [] delimiters = (none, [])
token_from (x ∷ s) delimiters =
    let (token, rest) = split_token (x ∷ s) delimiters in (some token, rest)

-- `strtok_r` on the string `s`, or on the rest that the call before left at `*save_ptr`: the next
-- token, or nothing, and the new rest
unfoldable pub strtok_r : List ℕ → List ℕ → Option (List ℕ) × List ℕ
strtok_r s delimiters = token_from (skip_delimiters s delimiters) delimiters
