-- ===== src/Random.antt =====
-- lib/random.c: the RC4 generator, with its state made explicit. `uint8_t` arithmetic is modulo
-- 256. An index outside the array is a `panic`.
pub mod State
use operating_system_pl_nt.Prelude.{
  ℕ, zero, suc, ◌+◌, ◌*◌, ◌/◌, ◌%◌, ◌^◌, Bool, true, false, Option, none, some, List, [], ◌∷◌,
  if◌then◌else◌, get_elem?, set, Outcome, ok, panic, ◌>>=◌,
}

-- `s`, `s_i`, `s_j` and `inited`
pub record Random : Type 0 where
  pub s : List ℕ
  pub s_i : ℕ
  pub s_j : ℕ
  pub inited : Bool

byte : List ℕ → ℕ → Outcome ℕ
byte s i = elim (get_elem? s i) [ none ↦ panic | some b ↦ ok b ]

swap_byte : List ℕ → ℕ → ℕ → Outcome (List ℕ)
unfolding byte
swap_byte s a b = do t ← byte s a; u ← byte s b; ok (set (set s a u) b t)

-- the first loop of `random_init`, for `n` more bytes from `i` on
identity_loop : ℕ → ℕ → List ℕ
identity_loop zero i = []
identity_loop (suc n) i = i ∷ identity_loop n (i + 1)

-- its second loop
seed_loop : ℕ → ℕ → ℕ → ℕ → List ℕ → Outcome (List ℕ)
seed_loop zero i j seed s = ok s
seed_loop (suc n) i j seed s = do
  b ← byte s i
  let j = (j + b + seed / 256 ^ (i % 4) % 256) % 256
  s ← swap_byte s i j
  seed_loop n (i + 1) j seed s

pub random_init : ℕ → Outcome Random
unfolding seed_loop identity_loop swap_byte
random_init seed = do
  s ← seed_loop 256 0 0 seed (identity_loop 256 0)
  ok (record { s = s; s_i = 0; s_j = 0; inited = true })

-- the loop of `random_bytes`
bytes_loop : ℕ → Random → Outcome (List ℕ × Random)
bytes_loop zero r = ok ([], r)
bytes_loop (suc size) r = do
  let s_i = (r.s_i + 1) % 256
  b ← byte r.s s_i
  let s_j = (r.s_j + b) % 256
  s ← swap_byte r.s s_i s_j
  x ← byte s s_i
  y ← byte s s_j
  z ← byte s ((x + y) % 256)
  (rest, r) ← bytes_loop size (record r { s = s; s_i = s_i; s_j = s_j })
  ok (z ∷ rest, r)

pub random_bytes : ℕ → Random → Outcome (List ℕ × Random)
random_bytes size r =
    if r.inited then bytes_loop size r else (do r ← random_init 0; bytes_loop size r)
