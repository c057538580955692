-- ===== src/Directory/Slots.antt =====
-- Free slots of a directory, and what is written there.
use operating_system_pl_nt.Prelude.{
  ℕ, zero, suc, ◌+◌, ◌-◌, ◌*◌, ◌/◌, ◌^◌, ◌<◌, ◌≤◌, ◌≡◌, ◌==◌, refl, sym, ap, ◌∙◌, Bool, true, false,
  not, [], ◌∷◌, ◌++◌, if◌then◌else◌, length, get_or, take, drop, ok, arith, length-append,
  length-take, length-drop, get_or-append, eq→==,
}
use mathlib.Core.List.{append-nil}
use operating_system_pl_nt.Block.{Bytes}
use operating_system_pl_nt.Cache.{BufferCache}
use operating_system_pl_nt.Cache.Valid.{IsValid}
use operating_system_pl_nt.Cache.Gets.{Same, Same-trans}
use operating_system_pl_nt.InodeDisk.{bytes_of_words}
use operating_system_pl_nt.InodeDisk.Codec.{words_of-front, bytes_of_words-length}
use operating_system_pl_nt.Inode.{Inode, least}
use operating_system_pl_nt.Inode.Reads.{byte_at, byte_at-same, IsPlaced, IsLaidOut-same}
use operating_system_pl_nt.Directory.{
  DirEntry, name_max, entry_size, entry_from, entry_bytes, write_name, slot_loop,
}
use operating_system_pl_nt.Directory.Lookups.{bytes_from, bytes_from-length, entry, row, same_name}

drop_all : (n : ℕ) (xs : Bytes) → length xs ≤ n → drop n xs ≡ []
drop_all zero [] h = refl
drop_all zero (x ∷ xs) h = absurd (omega arith)
drop_all (suc n) [] h = refl
drop_all (suc n) (x ∷ xs) h = drop_all n xs (omega arith)

read_lem :
    (f : ℕ → ℕ) (k : ℕ) (e : Bytes)
    → length e ≡ entry_size
    → ((length (bytes_from f entry_size (k * entry_size)) == entry_size) ≡ true)
      × (bytes_from f entry_size (k * entry_size)
            ++ drop (length (bytes_from f entry_size (k * entry_size))) e
          ≡ bytes_from f entry_size (k * entry_size))
read_lem f k e size =
    let read : Bytes = bytes_from f entry_size (k * entry_size) in
    let read_length : length read ≡ entry_size = bytes_from-length f entry_size (k * entry_size) in
    (
      eq→== _ _ read_length,
      ap (λ m. read ++ drop m e) read_length
          ∙ ap (λ r. read ++ r) (drop_all entry_size e (omega (arith, size)))
          ∙ append-nil read,
    )

-- The search of `dir_add` ends at the first of the entries from `k` on that is free, in `n` steps.
pub slot_loop-first :
    (n fuel : ℕ) (inode : Inode) (f : ℕ → ℕ) (k : ℕ) (e : Bytes) (c : BufferCache)
    → n < fuel
    → length e ≡ entry_size
    → IsValid c
    → IsPlaced inode.disk c
    → ((p : ℕ) → p < inode.disk.file_length → byte_at inode.disk c p ≡ f p)
    → k + n < inode.disk.file_length / entry_size
    → ((i : ℕ) → k ≤ i → i < k + n → (entry f i).in_use ≡ true)
    → (entry f (k + n)).in_use ≡ false
    → (c' : BufferCache) × (slot_loop fuel inode e (k * entry_size) c
        ≡ ok (bytes_from f entry_size ((k + n) * entry_size), (k + n) * entry_size, c'))
      × Same c c'
unfolding slot_loop
slot_loop-first n zero inode f k e c enough size v l is inside used free = absurd (omega arith)
slot_loop-first zero (suc fuel) inode f k e c enough size v l is inside used free =
    let (c1, reads, same) = row inode c f k v l is (omega arith) in
    let (whole, over) = read_lem f k e size in
    let here : k ≡ k + 0 = omega arith in
    let unused : (entry f k).in_use ≡ false = ap (λ i. (entry f i).in_use) here ∙ free in
    (
      c1,
      simp (reads, whole, over, unused, slot_loop)
          (ap (λ i. ok (bytes_from f entry_size (i * entry_size), i * entry_size, c1)) here),
      same,
    )
slot_loop-first (suc n) (suc fuel) inode f k e c enough size v l is inside used free =
    let (c1, reads, same) = row inode c f k v l is (omega arith) in
    let (whole, over) = read_lem f k e size in
    let taken = used k (omega arith) (omega arith) in
    let next : k * entry_size + entry_size ≡ (k + 1) * entry_size = omega arith in
    let there : k + 1 + n ≡ k + suc n = omega arith in
    let read : Bytes = bytes_from f entry_size (k * entry_size) in
    let (c2, loops, same2) =
      slot_loop-first n fuel inode f (k + 1) read c1 (omega arith)
        (bytes_from-length f entry_size (k * entry_size)) same.valid (IsLaidOut-same v l same)
        (λ p h. byte_at-same v l same p h ∙ is p h) (omega (arith, inside))
        (λ i low high. used i (omega arith) (omega arith))
        (ap (λ i. (entry f i).in_use) there ∙ free) in
    let loops' =
      ap (λ p. slot_loop fuel inode read p c1) next
      ∙ loops
      ∙ ap (λ i. ok (bytes_from f entry_size (i * entry_size), i * entry_size, c2)) there in
    (c2, simp (reads, whole, over, taken, loops', slot_loop), Same-trans same same2)

pub write_name-length :
    (name field : Bytes)
    → length name ≤ name_max
    → length field ≡ name_max + 1
    → length (write_name name field) ≡ name_max + 1
write_name-length name field short whole = ground (
  arith,
  short,
  whole,
  length-take (least (length name) name_max) name,
  length-append (take (least (length name) name_max) name)
      (0 ∷ drop (least (length name) name_max + 1) field),
  length-drop (least (length name) name_max + 1) field,
)

pub entry_bytes-length :
    (e : DirEntry) → length e.name ≡ name_max + 1 → length (entry_bytes e) ≡ entry_size
entry_bytes-length e whole = omega (
  arith,
  whole,
  bytes_of_words-length (e.inode_sector ∷ []),
  length-append (bytes_of_words (e.inode_sector ∷ []))
      (e.name ++ ((if e.in_use then 1 else 0) ∷ [])),
  length-append e.name ((if e.in_use then 1 else 0) ∷ []),
)

take_front : (xs ys : Bytes) → take (length xs) (xs ++ ys) ≡ xs
take_front [] ys = refl
take_front (x ∷ xs) ys = ap (λ r. x ∷ r) (take_front xs ys)

flag_lem : (u : Bool) → not ((if u then 1 else 0) == 0) ≡ u
flag_lem true = refl
flag_lem false = refl

abbrev entry_of : ℕ → Bytes → Bool → DirEntry
entry_of sector field used = record { inode_sector = sector; name = field; in_use = used }

pub entry_from-bytes :
    (e : DirEntry)
    → length e.name ≡ name_max + 1
    → e.inode_sector < 2 ^ 32
    → entry_from (entry_bytes e) ≡ e
entry_from-bytes e whole small =
    let flag : ℕ = if e.in_use then 1 else 0 in
    let rest : Bytes = e.name ++ (flag ∷ []) in
    let word : Bytes = bytes_of_words (e.inode_sector ∷ []) in
    let (sector_eq, rest_eq) = words_of-front e.inode_sector rest small in
    let name_eq : take (name_max + 1) (drop 4 (word ++ rest)) ≡ e.name =
      ap (take (name_max + 1)) rest_eq
      ∙ ap (λ n. take n rest) (sym whole)
      ∙ take_front e.name (flag ∷ []) in
    let flag_eq : get_or (word ++ rest) (entry_size - 1) 0 ≡ flag = ground (
      arith,
      bytes_of_words-length (e.inode_sector ∷ []),
      get_or-append 0 word rest (entry_size - 1),
      whole,
      get_or-append 0 e.name (flag ∷ []) (name_max + 1),
    ) in
    let use_eq : not (get_or (word ++ rest) (entry_size - 1) 0 == 0) ≡ e.in_use =
      ap (λ b. not (b == 0)) flag_eq ∙ flag_lem e.in_use in
    ap
      (λ n.
        entry_of n (take (name_max + 1) (drop 4 (word ++ rest)))
          (not (get_or (word ++ rest) (entry_size - 1) 0 == 0)))
      (ap (λ ws. get_or ws 0 0) sector_eq)
    ∙ ap (λ f. entry_of e.inode_sector f (not (get_or (word ++ rest) (entry_size - 1) 0 == 0)))
        name_eq
    ∙ ap (λ u. entry_of e.inode_sector e.name u) use_eq

same_front : (name rest : Bytes) → same_name (take (length name) name ++ (0 ∷ rest)) name ≡ true
same_front [] rest = refl
same_front (x ∷ name) rest = ground (arith, same_front name rest)

-- The field that a name is written to has that name.
pub same_name-write :
    (name field : Bytes) → length name ≤ name_max → same_name (write_name name field) name ≡ true
same_name-write name field short =
    let n : least (length name) name_max ≡ length name = ground (arith, short) in
    ap (λ k. same_name (take k name ++ (0 ∷ drop (k + 1) field)) name) n
    ∙ same_front name (drop (length name + 1) field)
