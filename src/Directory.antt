-- ===== src/Directory.antt =====
-- filesys/directory.c: directories, whose file is a row of entries of 20 bytes. A name is the list
-- of its characters before the null character; a field that has no null character and is read past
-- its end is a `panic`. The addresses that `malloc` returns for an inode, whether `calloc` finds
-- memory for a `struct dir`, and what the stack holds before an entry is written there are
-- arguments.
pub mod Lookups
pub mod Adding
pub mod Searches
pub mod Updates
pub mod Slots
pub mod Adds
use operating_system_pl_nt.Prelude.{
  ℕ, zero, suc, ◌+◌, ◌-◌, ◌*◌, ◌/◌, ◌==◌, Bool, true, false, not, ◌&&◌, ◌||◌, Option, none, some,
  List, [], ◌∷◌, ◌++◌, ltb, leb, if◌then◌else◌, length, get_or, take, drop, replicate, Outcome, ok,
  panic, out_of_fuel, ◌>>=◌,
}
use operating_system_pl_nt.Block.{Bytes}
use operating_system_pl_nt.Bitmap.{Bitmap}
use operating_system_pl_nt.Cache.{BufferCache, buffer_cache_close}
use operating_system_pl_nt.InodeDisk.{words_of, bytes_of_words}
use operating_system_pl_nt.Inode.{
  Inode, Inodes, least, inode_at, inode_open, inode_reopen, inode_remove, inode_read_at,
}
use operating_system_pl_nt.Inode.Space.{Fs, inode_create, inode_close, inode_write_at}

-- NAME_MAX
abbrev pub name_max : ℕ
name_max = 14

-- `sizeof (struct dir_entry)`
abbrev pub entry_size : ℕ
entry_size = 20

-- `struct dir`
pub record Dir : Type 0 where
  pub inode : ℕ
  pub pos : ℕ

-- `struct dir_entry`; `name` is the whole field.
pub record DirEntry : Type 0 where
  pub inode_sector : ℕ
  pub name : Bytes
  pub in_use : Bool

abbrev pub entry_from : Bytes → DirEntry
entry_from bytes = record {
  inode_sector = get_or (words_of 1 bytes) 0 0;
  name = take (name_max + 1) (drop 4 bytes);
  in_use = not (get_or bytes (entry_size - 1) 0 == 0);
}

abbrev pub entry_bytes : DirEntry → Bytes
entry_bytes e =
    bytes_of_words (e.inode_sector ∷ []) ++ (e.name ++ ((if e.in_use then 1 else 0) ∷ []))

-- `strcmp` of the field and a string is 0.
unfoldable pub name_is : Bytes → List ℕ → Outcome Bool
name_is [] name = panic
name_is (x ∷ field) [] = ok (x == 0)
name_is (x ∷ field) (y ∷ name) = let rest = name_is field name in if x == y then rest else ok false

-- the string in the field
unfoldable pub field_string : Bytes → Outcome (List ℕ)
field_string [] = panic
field_string (x ∷ field) =
    let rest = field_string field in if x == 0 then ok [] else (do s ← rest; ok (x ∷ s))

-- the field after `strlcpy (e.name, name, sizeof e.name)`
abbrev pub write_name : List ℕ → Bytes → Bytes
write_name name field =
    let n : ℕ = least (length name) name_max in take n name ++ (0 ∷ drop (n + 1) field)

-- the loop of `lookup`
unfoldable pub lookup_loop :
    ℕ → Inode → List ℕ → ℕ → BufferCache → Outcome (Option (DirEntry × ℕ) × BufferCache)
lookup_loop zero inode name ofs c = out_of_fuel
lookup_loop (suc fuel) inode name ofs c = do
  (bytes, c) ← inode_read_at inode entry_size ofs c
  let e = entry_from bytes
  let rest = lookup_loop fuel inode name (ofs + entry_size) c
  if length bytes == entry_size
      then (do
        same ← (if e.in_use then name_is e.name name else ok false)
        if same then ok (some (e, ofs), c) else rest)
      else ok (none, c)

-- rounds for a file of this length: each reads a whole entry, or is the last
abbrev pub rounds : Inode → ℕ
rounds inode = inode.disk.file_length / entry_size + 1

unfoldable pub lookup : Dir → List ℕ → Inodes → Outcome (Option (DirEntry × ℕ) × Inodes)
lookup dir name s = do
  inode ← inode_at s dir.inode
  (r, c) ← lookup_loop (rounds inode) inode name 0 s.cache
  ok (r, record s { cache = c })

unfoldable pub dir_lookup : Dir → List ℕ → Option ℕ → Inodes → Outcome (Option ℕ × Inodes)
dir_lookup dir name memory s = do
  (r, s) ← lookup dir name s
  elim r [ none ↦ ok (none, s) | some (e, _) ↦ inode_open e.inode_sector memory s ]

-- the search of `dir_add` for a free slot, with the bytes of `e` and `ofs` at its end
unfoldable pub slot_loop : ℕ → Inode → Bytes → ℕ → BufferCache → Outcome (Bytes × ℕ × BufferCache)
slot_loop zero inode e ofs c = out_of_fuel
slot_loop (suc fuel) inode e ofs c = do
  (bytes, c) ← inode_read_at inode entry_size ofs c
  let e = bytes ++ drop (length bytes) e
  let rest = slot_loop fuel inode e (ofs + entry_size) c
  if length bytes == entry_size
      then (if (entry_from e).in_use then rest else ok (e, ofs, c))
      else ok (e, ofs, c)

-- "." and ".."
abbrev pub dot : List ℕ
dot = 46 ∷ []

abbrev pub dot_dot : List ℕ
dot_dot = 46 ∷ 46 ∷ []

abbrev pub is_special : Bytes → Outcome Bool
is_special field = do one ← name_is field dot; if one then ok true else name_is field dot_dot

-- the loop of `dir_is_empty`
empty_loop : ℕ → Inode → ℕ → BufferCache → Outcome (Bool × BufferCache)
empty_loop zero inode ofs c = out_of_fuel
empty_loop (suc fuel) inode ofs c = do
  (bytes, c) ← inode_read_at inode entry_size ofs c
  let e = entry_from bytes
  let rest = empty_loop fuel inode (ofs + entry_size) c
  if length bytes == entry_size
      then (do
        special ← (if e.in_use then is_special e.name else ok true)
        if special then rest else ok (false, c))
      else ok (true, c)

pub dir_is_empty : Dir → Inodes → Outcome (Bool × Inodes)
unfolding empty_loop
dir_is_empty dir s = do
  inode ← inode_at s dir.inode
  (r, c) ← empty_loop (rounds inode) inode 0 s.cache
  ok (r, record s { cache = c })

-- the loop of `dir_readdir`
unfoldable pub readdir_loop :
    ℕ → Inode → ℕ → BufferCache → Outcome (Option (List ℕ) × ℕ × BufferCache)
readdir_loop zero inode pos c = out_of_fuel
readdir_loop (suc fuel) inode pos c = do
  (bytes, c) ← inode_read_at inode entry_size pos c
  let e = entry_from bytes
  let rest = readdir_loop fuel inode (pos + entry_size) c
  if length bytes == entry_size
      then (do
        special ← (if e.in_use then is_special e.name else ok true)
        if special
            then rest
            else (do name ← field_string e.name; ok (some name, pos + entry_size, c)))
      else ok (none, pos, c)

unfoldable pub dir_readdir : Dir → Inodes → Outcome (Option (List ℕ) × Dir × Inodes)
dir_readdir dir s = do
  inode ← inode_at s dir.inode
  (name, pos, c) ← readdir_loop (rounds inode) inode dir.pos s.cache
  ok (name, record dir { pos = pos }, record s { cache = c })
