-- ===== src/Directory/Lookups.antt =====
-- The rows of entries in the file of a directory, and what a name is compared with.
use operating_system_pl_nt.Prelude.{
  ℕ, zero, suc, ◌+◌, ◌-◌, ◌*◌, ◌<◌, ◌≤◌, ◌≡◌, ◌==◌, refl, sym, ap, ◌∙◌, inl, inr, Bool, false, ◌&&◌,
  Option, none, some, List, [], ◌∷◌, if◌then◌else◌, length, get_or, drop, ok, arith, Bool-cases,
  length-take, length-drop, list_ext,
}
use operating_system_pl_nt.Block.{Bytes}
use operating_system_pl_nt.Cache.{BufferCache}
use operating_system_pl_nt.Cache.Valid.{IsValid}
use operating_system_pl_nt.Cache.Gets.{Same}
use operating_system_pl_nt.Inode.{Inode, inode_read_at, least}
use operating_system_pl_nt.Inode.Reads.{byte_at, IsPlaced, inode_read_at-Reads}
use operating_system_pl_nt.Directory.{DirEntry, name_max, entry_size, entry_from, name_is}

-- Whether the field holds the name, in a field that is longer.
abbrev pub same_name : Bytes → List ℕ → Bool
same_name [] name = false
same_name (x ∷ field) [] = x == 0
same_name (x ∷ field) (y ∷ name) = (x == y) && same_name field name

pub name_is-same :
    (field : Bytes) (name : List ℕ)
    → length name < length field
    → name_is field name ≡ ok (same_name field name)
unfolding name_is
name_is-same [] name h = absurd (omega arith)
name_is-same (x ∷ field) [] h = refl
name_is-same (x ∷ field) (y ∷ name) h = elim (Bool-cases (x == y)) [
  | inl same ↦ simp (same, name_is) (name_is-same field name (omega arith))
  | inr other ↦ simp (other, name_is)
]

-- `n` bytes of a file from `p` on.
unfoldable pub bytes_from : (ℕ → ℕ) → ℕ → ℕ → Bytes
bytes_from f zero p = []
bytes_from f (suc n) p = f p ∷ bytes_from f n (p + 1)

pub bytes_from-length : (f : ℕ → ℕ) (n p : ℕ) → length (bytes_from f n p) ≡ n
unfolding bytes_from
bytes_from-length f zero p = refl
bytes_from-length f (suc n) p = ap suc (bytes_from-length f n (p + 1))

pub get_or-bytes_from : (f : ℕ → ℕ) (n p k : ℕ) → k < n → get_or (bytes_from f n p) k 0 ≡ f (p + k)
unfolding bytes_from
get_or-bytes_from f zero p k h = absurd (omega arith)
get_or-bytes_from f (suc n) p zero h = ap f (omega arith)
get_or-bytes_from f (suc n) p (suc k) h =
    get_or-bytes_from f n (p + 1) k (omega arith) ∙ ap f {x = p + 1 + k} (omega arith)

-- Entry `k` of a directory whose file has the bytes `f`.
abbrev pub entry : (ℕ → ℕ) → ℕ → DirEntry
entry f k = entry_from (bytes_from f entry_size (k * entry_size))

-- Whether entry `k` is in use and has the name.
abbrev pub holds : (ℕ → ℕ) → List ℕ → ℕ → Bool
holds f name k = (entry f k).in_use && same_name (entry f k).name name

-- The first of `n` entries from `k` on that has the name.
unfoldable pub search : (ℕ → ℕ) → List ℕ → ℕ → ℕ → Option (DirEntry × ℕ)
search f name zero k = none
search f name (suc n) k =
    let rest = search f name n (k + 1) in
    if holds f name k then some (entry f k, k * entry_size) else rest

-- A read of a row.
row_lem :
    (inode : Inode) (f : ℕ → ℕ) (k : ℕ) (bytes : Bytes)
    → length bytes ≡ least entry_size (inode.disk.file_length - k * entry_size)
    → ((j : ℕ) → j < length bytes → get_or bytes j 0 ≡ f (k * entry_size + j))
    → k * entry_size + entry_size ≤ inode.disk.file_length
    → bytes ≡ bytes_from f entry_size (k * entry_size)
row_lem inode f k bytes size_eq byte_eq inside =
    let whole : length bytes ≡ entry_size = ground (arith, size_eq) in
    list_ext 0 bytes (bytes_from f entry_size (k * entry_size))
      (whole ∙ sym (bytes_from-length f entry_size (k * entry_size)))
      (λ j h.
        byte_eq j h
        ∙ sym (get_or-bytes_from f entry_size (k * entry_size) j (omega (arith, h, whole))))

-- What is read of row `k`.
pub row :
    (inode : Inode) (c : BufferCache) (f : ℕ → ℕ) (k : ℕ)
    → IsValid c
    → IsPlaced inode.disk c
    → ((p : ℕ) → p < inode.disk.file_length → byte_at inode.disk c p ≡ f p)
    → k * entry_size + entry_size ≤ inode.disk.file_length
    → (c' : BufferCache) × (inode_read_at inode entry_size (k * entry_size) c
        ≡ ok (bytes_from f entry_size (k * entry_size), c'))
      × Same c c'
row inode c f k v l is inside =
    let (bytes, c', reads, same, size_eq, byte_eq) =
      inode_read_at-Reads inode entry_size (k * entry_size) v l in
    let bytes_eq =
      row_lem inode f k bytes size_eq
        (λ j h. byte_eq j h ∙ is (k * entry_size + j) (ground (arith, size_eq, h, inside)))
        inside in
    (c', reads ∙ ap (λ b. ok (b, c')) bytes_eq, same)

-- A read past the last row.
pub row_end :
    (inode : Inode) (c : BufferCache) (k : ℕ)
    → IsValid c
    → IsPlaced inode.disk c
    → inode.disk.file_length < k * entry_size + entry_size
    → (bytes : Bytes) × (c' : BufferCache) × (inode_read_at inode entry_size (k * entry_size) c
        ≡ ok (bytes, c'))
      × Same c c'
      × ((length bytes == entry_size) ≡ false)
row_end inode c k v l past =
    let (bytes, c', reads, same, size_eq, _) =
      inode_read_at-Reads inode entry_size (k * entry_size) v l in
    (bytes, c', reads, same, ground (arith, size_eq, past))

pub field_length : (f : ℕ → ℕ) (k : ℕ) → length (entry f k).name ≡ name_max + 1
field_length f k =
    let bytes : Bytes = bytes_from f entry_size (k * entry_size) in
    omega (
      arith,
      length-take (name_max + 1) (drop 4 bytes),
      length-drop 4 bytes,
      bytes_from-length f entry_size (k * entry_size),
    )

-- The test of an entry.
pub test_lem :
    (f : ℕ → ℕ) (name : List ℕ) (k : ℕ)
    → length name ≤ name_max
    → (if (entry f k).in_use then name_is (entry f k).name name else ok false) ≡ ok (holds f name k)
test_lem f name k short = elim (Bool-cases (entry f k).in_use) [
  | inl used ↦
      simp used (name_is-same (entry f k).name name (omega (arith, short, field_length f k)))
  | inr free ↦ simp free
]
