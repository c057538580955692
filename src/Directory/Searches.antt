-- ===== src/Directory/Searches.antt =====
-- `lookup` is a search of the rows, and what a search finds.
use operating_system_pl_nt.Prelude.{
  ℕ, zero, suc, ◌+◌, ◌*◌, ◌/◌, ◌<◌, ◌≤◌, ◌≡◌, ◌==◌, refl, ap, ◌∙◌, inl, inr, true, false, Option,
  none, some, List, length, ok, arith, Bool-cases, eq→==,
}
use operating_system_pl_nt.Cache.{BufferCache}
use operating_system_pl_nt.Cache.Valid.{IsValid}
use operating_system_pl_nt.Cache.Gets.{Same, Same-trans}
use operating_system_pl_nt.Inode.{Inode, Inodes, inode_at}
use operating_system_pl_nt.Inode.Reads.{byte_at, byte_at-same, IsPlaced, IsLaidOut-same}
use operating_system_pl_nt.Directory.{
  Dir, DirEntry, name_max, entry_size, lookup_loop, rounds, lookup,
}
use operating_system_pl_nt.Directory.Lookups.{
  bytes_from, bytes_from-length, entry, holds, row, row_end, search, test_lem,
}

lookup_loop-search :
    (n fuel : ℕ) (inode : Inode) (name : List ℕ) (f : ℕ → ℕ) (k : ℕ) (c : BufferCache)
    → n < fuel
    → length name ≤ name_max
    → IsValid c
    → IsPlaced inode.disk c
    → ((p : ℕ) → p < inode.disk.file_length → byte_at inode.disk c p ≡ f p)
    → k + n ≡ inode.disk.file_length / entry_size
    → (c' : BufferCache) × (lookup_loop fuel inode name (k * entry_size) c
        ≡ ok (search f name n k, c'))
      × Same c c'
unfolding lookup_loop search
lookup_loop-search n zero inode name f k c enough short v l is all = absurd (omega arith)
lookup_loop-search zero (suc fuel) inode name f k c enough short v l is all =
    let (bytes, c', reads, same, part) = row_end inode c k v l (omega arith) in
    (c', simp (reads, part, lookup_loop), same)
lookup_loop-search (suc n) (suc fuel) inode name f k c enough short v l is all =
    let (c1, reads, same) = row inode c f k v l is (omega arith) in
    let (c2, loops, same2) =
      lookup_loop-search n fuel inode name f (k + 1) c1 (omega arith) short same.valid
        (IsLaidOut-same v l same) (λ p h. byte_at-same v l same p h ∙ is p h) (omega arith) in
    let whole : (length (bytes_from f entry_size (k * entry_size)) == entry_size) ≡ true =
      eq→== _ _ (bytes_from-length f entry_size (k * entry_size)) in
    let test = test_lem f name k short in
    let next : k * entry_size + entry_size ≡ (k + 1) * entry_size = omega arith in
    let loops' = ap (λ p. lookup_loop fuel inode name p c1) next ∙ loops in
    elim (Bool-cases (holds f name k)) [
      | inl found ↦ (c1, simp (reads, whole, test, found, lookup_loop, search), same)
      | inr other ↦
          (c2, simp (reads, whole, test, other, loops', lookup_loop, search), Same-trans same same2)
    ]

-- What a search of `n` entries from `k` on returns: nothing where no entry has the name, or the
-- first that has it, with its place in the file.
abbrev pub Finds : (ℕ → ℕ) → List ℕ → ℕ → ℕ → Option (DirEntry × ℕ) → Type 0
Finds f name n k none = (j : ℕ) → k ≤ j → j < k + n → holds f name j ≡ false
Finds f name n k (some (e, ofs)) =
    (j : ℕ) × (k ≤ j)
    × (j < k + n)
    × (ofs ≡ j * entry_size)
    × (e ≡ entry f j)
    × (holds f name j ≡ true)
    × ((i : ℕ) → k ≤ i → i < j → holds f name i ≡ false)

Finds-skip :
    (f : ℕ → ℕ) (name : List ℕ) (n k : ℕ) (r : Option (DirEntry × ℕ))
    → holds f name k ≡ false
    → Finds f name n (k + 1) r
    → Finds f name (suc n) k r
Finds-skip f name n k none other w = λ j low high. elim (Bool-cases (k == j)) [
  | inl same ↦ ap (holds f name) {x = j} {y = k} (ground (arith, same)) ∙ other
  | inr later ↦ w j (ground (arith, later, low)) (omega arith)
]
Finds-skip f name n k (some (e, ofs)) other (j, low, high, place, e_eq, found, before) = (
  j,
  omega arith,
  omega arith,
  place,
  e_eq,
  found,
  λ i low' below. elim (Bool-cases (k == i)) [
    | inl same ↦ ap (holds f name) {x = i} {y = k} (ground (arith, same)) ∙ other
    | inr later ↦ before i (ground (arith, later, low')) below
  ],
)

pub search-Finds : (f : ℕ → ℕ) (name : List ℕ) (n k : ℕ) → Finds f name n k (search f name n k)
unfolding search
search-Finds f name zero k = λ j low high. absurd (omega arith)
search-Finds f name (suc n) k = elim (Bool-cases (holds f name k)) [
  | inl found ↦
      rw found (k, omega arith, omega arith, refl, refl, found, λ i low below. absurd (omega arith))
  | inr other ↦
      rw other
        (Finds-skip f name n k (search f name n (k + 1)) other (search-Finds f name n (k + 1)))
]

pub search-none :
    (f : ℕ → ℕ) (name : List ℕ) (n k : ℕ)
    → ((i : ℕ) → k ≤ i → i < k + n → holds f name i ≡ false)
    → search f name n k ≡ none
unfolding search
search-none f name zero k absent = refl
search-none f name (suc n) k absent =
    simp (absent k (omega arith) (omega arith), search)
      (search-none f name n (k + 1) (λ i low high. absent i (omega arith) (omega arith)))

-- The first entry with the name.
pub search-at :
    (f : ℕ → ℕ) (name : List ℕ) (n k j : ℕ)
    → k ≤ j
    → j < k + n
    → holds f name j ≡ true
    → ((i : ℕ) → k ≤ i → i < j → holds f name i ≡ false)
    → search f name n k ≡ some (entry f j, j * entry_size)
unfolding search
search-at f name zero k j low high found before = absurd (omega arith)
search-at f name (suc n) k j low high found before = elim (Bool-cases (k == j)) [
  | inl same ↦
      let here : k ≡ j = ground (arith, same) in
      simp (ap (holds f name) here ∙ found, search)
        (ap (λ i. some (entry f i, i * entry_size)) here)
  | inr later ↦
      simp (before k (omega arith) (ground (arith, later, low)), search)
        (search-at f name n (k + 1) j (ground (arith, later, low)) (omega arith) found
          (λ i low' below. before i (omega arith) below))
]

-- the number of whole entries in the file of a directory
abbrev pub rows : Inode → ℕ
rows inode = inode.disk.file_length / entry_size

pub lookup-search :
    (dir : Dir) (name : List ℕ) (s : Inodes) (inode : Inode) (f : ℕ → ℕ)
    → s.inodes dir.inode ≡ some inode
    → IsValid s.cache
    → IsPlaced inode.disk s.cache
    → length name ≤ name_max
    → ((p : ℕ) → p < inode.disk.file_length → byte_at inode.disk s.cache p ≡ f p)
    → (c' : BufferCache) × (lookup dir name s
        ≡ ok (search f name (rows inode) 0, record s { cache = c' }))
      × Same s.cache c'
unfolding lookup inode_at
lookup-search dir name s inode f at v l short is =
    let (c', loops, same) =
      lookup_loop-search (rows inode) (rounds inode) inode name f 0 s.cache (omega arith) short v l
        is (omega arith) in
    (c', simp (at, lookup, inode_at, loops), same)

-- With a valid cache, and a directory of at most 251 sectors on the device, looking up a name of at
-- most 14 characters returns; it finds the first entry in use that has the name, if there is one,
-- and changes no sector.
pub lookup-Finds :
    (dir : Dir) (name : List ℕ) (s : Inodes) (inode : Inode)
    → s.inodes dir.inode ≡ some inode
    → IsValid s.cache
    → IsPlaced inode.disk s.cache
    → length name ≤ name_max
    → (r : Option (DirEntry × ℕ)) × (c' : BufferCache) × (lookup dir name s
        ≡ ok (r, record s { cache = c' }))
      × Same s.cache c'
      × Finds (byte_at inode.disk s.cache) name (rows inode) 0 r
lookup-Finds dir name s inode at v l short =
    let f : ℕ → ℕ = byte_at inode.disk s.cache in
    let (c', runs, same) = lookup-search dir name s inode f at v l short (λ p h. refl) in
    (search f name (rows inode) 0, c', runs, same, search-Finds f name (rows inode) 0)
