-- ===== src/Random/State.antt =====
-- The generator never leaves its array.
use operating_system_pl_nt.Prelude.{
  ℕ, zero, suc, ◌+◌, ◌/◌, ◌%◌, ◌^◌, ◌<◌, ◌≡◌, refl, ap, ◌∙◌, true, some, List, [], ◌∷◌, length,
  get_elem?, get_elem?-lt, set, length-set, Outcome, ok, arith, Bool-cases, inl, inr,
}
use operating_system_pl_nt.Random.{
  Random, byte, swap_byte, identity_loop, seed_loop, random_init, bytes_loop, random_bytes,
}

-- Each is a byte.
pub data AreBytes : List ℕ → Type 0 where
  nil : AreBytes []
  cons : {b : ℕ} {s : List ℕ} → b < 256 → AreBytes s → AreBytes (b ∷ s)

abbrev pub IsBox : List ℕ → Type 0
IsBox s = (length s ≡ 256) × AreBytes s

get-AreBytes : {s : List ℕ} (i : ℕ) {b : ℕ} → AreBytes s → get_elem? s i ≡ some b → b < 256
get-AreBytes i nil h = cc
get-AreBytes zero (cons small a) h = ground (arith, h)
get-AreBytes (suc i) (cons small a) h = get-AreBytes i a h

set-AreBytes : {s : List ℕ} (i b : ℕ) → AreBytes s → b < 256 → AreBytes (set s i b)
set-AreBytes i b nil h = nil
set-AreBytes zero b (cons small a) h = cons h a
set-AreBytes (suc i) b (cons small a) h = cons small (set-AreBytes i b a h)

byte-lem : (s : List ℕ) (i : ℕ) → IsBox s → i < 256 → (b : ℕ) × (byte s i ≡ ok b) × (b < 256)
unfolding byte
byte-lem s i (size, all) h =
    let (b, at) = get_elem?-lt s i (omega (arith, size)) in
    (b, rw (at, byte), get-AreBytes i all at)

swap_byte-IsBox :
    (s : List ℕ) (i j : ℕ)
    → IsBox s
    → i < 256
    → j < 256
    → (s' : List ℕ) × (swap_byte s i j ≡ ok s') × IsBox s'
unfolding swap_byte
swap_byte-IsBox s i j box h k =
    let (t, reads_t, t_small) = byte-lem s i box h in
    let (u, reads_u, u_small) = byte-lem s j box k in
    (
      set (set s i u) j t,
      simp (swap_byte, reads_t, reads_u),
      (
        length-set (set s i u) j t ∙ length-set s i u ∙ box.0,
        set-AreBytes j t (set-AreBytes i u box.1 u_small) t_small,
      ),
    )

identity_loop-length : (n i : ℕ) → length (identity_loop n i) ≡ n
unfolding identity_loop
identity_loop-length zero i = refl
identity_loop-length (suc n) i = ap suc (identity_loop-length n (i + 1))

identity_loop-AreBytes : (n i : ℕ) → i + n < 257 → AreBytes (identity_loop n i)
unfolding identity_loop
identity_loop-AreBytes zero i h = nil
identity_loop-AreBytes (suc n) i h =
    cons (omega arith) (identity_loop-AreBytes n (i + 1) (omega arith))

seed_loop-IsBox :
    (n i j seed : ℕ) (s : List ℕ)
    → i + n < 257
    → IsBox s
    → (s' : List ℕ) × (seed_loop n i j seed s ≡ ok s') × IsBox s'
unfolding seed_loop
seed_loop-IsBox zero i j seed s h box = (s, refl, box)
seed_loop-IsBox (suc n) i j seed s h box =
    let (b, reads, small) = byte-lem s i box (omega arith) in
    let j' : ℕ = (j + b + seed / 256 ^ (i % 4) % 256) % 256 in
    let (s1, swaps, box1) = swap_byte-IsBox s i j' box (omega arith) (omega arith) in
    let (s2, loops, box2) = seed_loop-IsBox n (i + 1) j' seed s1 (omega arith) box1 in
    (s2, simp (reads, seed_loop, swaps, loops), box2)

random_init-IsBox : (seed : ℕ) → (r : Random) × (random_init seed ≡ ok r) × IsBox r.s
unfolding random_init
random_init-IsBox seed =
    let start : IsBox (identity_loop 256 0) =
      (identity_loop-length 256 0, identity_loop-AreBytes 256 0 (omega arith)) in
    let (s, loops, box) = seed_loop-IsBox 256 0 0 seed (identity_loop 256 0) (omega arith) start in
    (record { s = s; s_i = 0; s_j = 0; inited = true }, simp (loops, random_init), box)

-- So many bytes, and a box that is as good as before.
abbrev pub Gives : ℕ → Outcome (List ℕ × Random) → Type 0
Gives size r =
    (bytes : List ℕ) × (r' : Random) × (r ≡ ok (bytes, r'))
    × (length bytes ≡ size)
    × AreBytes bytes
    × IsBox r'.s

bytes_loop-Gives : (size : ℕ) (r : Random) → IsBox r.s → Gives size (bytes_loop size r)
unfolding bytes_loop
bytes_loop-Gives zero r box = ([], r, refl, refl, nil, box)
bytes_loop-Gives (suc size) r box =
    let s_i : ℕ = (r.s_i + 1) % 256 in
    let (b, reads_b, _) = byte-lem r.s s_i box (omega arith) in
    let s_j : ℕ = (r.s_j + b) % 256 in
    let (s, swaps, box1) = swap_byte-IsBox r.s s_i s_j box (omega arith) (omega arith) in
    let (x, reads_x, _) = byte-lem s s_i box1 (omega arith) in
    let (y, reads_y, _) = byte-lem s s_j box1 (omega arith) in
    let (z, reads_z, small) = byte-lem s ((x + y) % 256) box1 (omega arith) in
    let (rest, r', loops, size_eq, all, box2) =
      bytes_loop-Gives size (record r { s = s; s_i = s_i; s_j = s_j }) box1 in
    (
      z ∷ rest,
      r',
      simp (reads_b, bytes_loop, swaps, reads_x, reads_y, reads_z, loops),
      ap suc size_eq,
      cons small all,
      box2,
    )

-- From an array of 256 bytes, or before the first seed, a request for random bytes returns that
-- many bytes, and the generator has an array of 256 bytes again: no index ever falls outside it.
pub random_bytes-Gives :
    (size : ℕ) (r : Random) → (r.inited ≡ true → IsBox r.s) → Gives size (random_bytes size r)
unfolding random_bytes
random_bytes-Gives size r box = elim (Bool-cases r.inited) [
  | inl ready ↦
      let (bytes, r', loops, size_eq, all, box') = bytes_loop-Gives size r (box ready) in
      (bytes, r', simp (ready, random_bytes, loops), size_eq, all, box')
  | inr fresh ↦
      let (r1, starts, box1) = random_init-IsBox 0 in
      let (bytes, r', loops, size_eq, all, box') = bytes_loop-Gives size r1 box1 in
      (bytes, r', simp (fresh, random_bytes, starts, loops), size_eq, all, box')
]
