-- ===== src/Paths.antt =====
-- filesys/filesys.c: paths, and the calls of the file system on names. The two names that a path is
-- split into find memory; where a call opens several inodes and directories, what `malloc` and
-- `calloc` give is an argument, by the number of the step along the path. A path is the list of its
-- characters.
pub mod Splits
pub mod Parts
use operating_system_pl_nt.Prelude.{
  ℕ, zero, suc, ◌+◌, ◌==◌, Bool, true, false, not, ◌&&◌, Option, none, some, List, [], ◌∷◌, ltb,
  if◌then◌else◌, length, take, drop, Outcome, ok, panic, out_of_fuel, ◌>>=◌,
}
use operating_system_pl_nt.Block.{Bytes}
use operating_system_pl_nt.Bitmap.{Bitmap}
use operating_system_pl_nt.Cache.{buffer_cache_close}
use operating_system_pl_nt.FreeMap.{free_map_allocate, free_map_release}
use operating_system_pl_nt.Inode.{Inodes, inode_at}
use operating_system_pl_nt.Inode.Space.{Fs, inode_create}
use operating_system_pl_nt.File.{File, file_open}
use operating_system_pl_nt.Strings.{strrchr, strlcpy, strtok_r}
use operating_system_pl_nt.Directory.{Dir, name_max, dir_lookup}
use operating_system_pl_nt.Directory.Updates.{
  dir_open, dir_open_root, dir_reopen, dir_close, dir_add, dir_remove,
}

-- '/'
abbrev pub slash : ℕ
slash = 47

-- `strlcpy (base, src, NAME_MAX + 1)`
abbrev pub base_of : List ℕ → List ℕ
base_of src = elim (strlcpy src (name_max + 1)).0 [ none ↦ [] | some base ↦ base ]

-- the directory and the base name of a path, where the call returns true
unfoldable pub split_path : List ℕ → Option (List ℕ × List ℕ)
split_path [] = none
split_path (x ∷ path) = elim (strrchr (x ∷ path) slash) [
  | none ↦ some ([], base_of (x ∷ path))
  | some dir_len ↦
      if ltb name_max dir_len
      then none
      else some (take dir_len (x ∷ path), base_of (drop (dir_len + 1) (x ∷ path)))
]

-- the loops of `get_next_part`
unfoldable pub skip_slashes : List ℕ → List ℕ
skip_slashes [] = []
skip_slashes (x ∷ src) = let rest = skip_slashes src in if x == slash then rest else x ∷ src

-- up to the next slash, with at most `room` characters copied
unfoldable pub copy_part : ℕ → List ℕ → List ℕ × List ℕ
copy_part room [] = ([], [])
copy_part zero (x ∷ src) =
    let rest = copy_part zero src in if x == slash then ([], x ∷ src) else rest
copy_part (suc room) (x ∷ src) =
    let (part, rest) = copy_part room src in if x == slash then ([], x ∷ src) else (x ∷ part, rest)

abbrev part_from : List ℕ → Option (List ℕ × List ℕ)
part_from [] = none
part_from (x ∷ src) = some (copy_part name_max (x ∷ src))

-- the part, and the source pointer after it
unfoldable pub get_next_part : List ℕ → Option (List ℕ × List ℕ)
get_next_part src = part_from (skip_slashes src)

-- What a call finds: memory for an inode and for a directory at each step along the path, and in
-- the last directory; memory for a new inode's sector and for a file; and what the stack holds
-- where entries are written.
pub record Memory : Type 0 where
  pub inode : ℕ → Option ℕ
  pub dir : ℕ → Bool
  pub sub_inode : Option ℕ
  pub sub_dir : Bool
  pub disk : Bool
  pub file : Bool
  pub junk : Bytes
  pub dots : Bytes × Bytes

abbrev starts_at_root : List ℕ → Bool
starts_at_root [] = false
starts_at_root (x ∷ path) = x == slash

-- the function that a call does on the parts of its path, or what it returns where there are none
on_parts {ℓ} : {A : Type ℓ} → List ℕ → Outcome A → (List ℕ → List ℕ → Outcome A) → Outcome A
on_parts name failure f = elim (split_path name) [ none ↦ failure | some (dir, base) ↦ f dir base ]

module _ (bitmap_write : Bitmap → File → Inodes → Outcome (Bool × Inodes)) where
  -- the loop of `dir_open_path` over the tokens of what is left of the path, from directory `curr`
  walk : ℕ → ℕ → Memory → List ℕ → Dir → Fs File → Outcome (Option Dir × Fs File)
  walk zero n memory path curr s = out_of_fuel
  walk (suc fuel) n memory path curr s =
      let (token, path) = strtok_r path (slash ∷ []) in
      elim token [
        | none ↦ do
          inode ← inode_at s.rest curr.inode
          if inode.removed
              then (do s ← dir_close bitmap_write (some curr) s; ok (none, s))
              else ok (some curr, s)
        | some token ↦ do
          (o, rest) ← dir_lookup curr token (memory.inode n) s.rest
          let s : Fs File = record s { rest = rest }
          elim o [
            | none ↦ do s ← dir_close bitmap_write (some curr) s; ok (none, s)
            | some inode ↦ do
              (next, s) ← dir_open bitmap_write (some inode) (memory.dir n) s
              s ← dir_close bitmap_write (some curr) s
              elim next [ none ↦ ok (none, s) | some next ↦ walk fuel (n + 1) memory path next s ]
          ]
      ]

  -- the directory that a walk starts from, with the thread's `cwd`
  first_dir : List ℕ → Option Dir → Memory → Fs File → Outcome (Option Dir × Fs File)
  first_dir path cwd memory s =
      let root : Outcome (Option Dir × Fs File) =
        dir_open_root bitmap_write (memory.inode 0) (memory.dir 0) s in
      if starts_at_root path
      then root
      else elim cwd [ none ↦ root | some dir ↦ dir_reopen bitmap_write dir (memory.dir 0) s ]

  -- Each token takes a character of the path at least.
  pub dir_open_path : List ℕ → Option Dir → Memory → Fs File → Outcome (Option Dir × Fs File)
  unfolding walk first_dir
  dir_open_path path cwd memory s = do
    (o, s) ← first_dir path cwd memory s
    elim o [ none ↦ ok (none, s) | some curr ↦ walk (length path + 1) 1 memory path curr s ]

  -- `inode_create (…) && dir_add (…)`
  create_in : Dir → List ℕ → ℕ → ℕ → Bool → Memory → Fs File → Outcome (Bool × Fs File)
  create_in dir base sector initial_size is_dir memory s = do
    (created, s) ← inode_create bitmap_write sector initial_size is_dir memory.disk s
    if created
        then dir_add bitmap_write dir base sector is_dir memory.junk memory.dots memory.sub_inode
            memory.sub_dir s
        else ok (false, s)

  -- the rest of `filesys_create` in the directory that was opened
  create_or_release : Dir → List ℕ → ℕ → Bool → Memory → Fs File → Outcome (Bool × Fs File)
  unfolding create_in
  create_or_release dir base initial_size is_dir memory s = do
    (o, free, rest) ← free_map_allocate bitmap_write 1 s.free s.rest
    let s : Fs File = record { free = free; rest = rest }
    (success, s) ← elim o [
      | none ↦ ok (false, s)
      | some sector ↦ do
        (success, s) ← create_in dir base sector initial_size is_dir memory s
        if not success && not (sector == 0)
            then (do
              (free, rest) ← free_map_release bitmap_write sector 1 s.free s.rest
              ok (success, record { free = free; rest = rest }))
            else ok (success, s)
    ]
    s ← dir_close bitmap_write (some dir) s
    ok (success, s)

  -- what each call does in the directory that it has opened, or without one
  pub create_under : Option Dir → List ℕ → ℕ → Bool → Memory → Fs File → Outcome (Bool × Fs File)
  unfolding create_or_release
  create_under none base_name initial_size is_dir memory s = ok (false, s)
  create_under (some dir) base_name initial_size is_dir memory s =
      create_or_release dir base_name initial_size is_dir memory s

  unfoldable pub filesys_create :
      List ℕ → ℕ → Bool → Option Dir → Memory → Fs File → Outcome (Bool × Fs File)
  unfolding on_parts create_under
  filesys_create name initial_size is_dir cwd memory s =
      on_parts name (ok (false, s)) (λ dir_name base_name. do
        (o, s) ← dir_open_path dir_name cwd memory s
        create_under o base_name initial_size is_dir memory s)

  pub open_under : Option Dir → List ℕ → Memory → Fs File → Outcome (Option File × Fs File)
  open_under o base_name memory s = do
    (inode, s) ← elim o [
      | none ↦ ok (none, s)
      | some dir ↦ do
        (inode, rest) ← dir_lookup dir base_name memory.sub_inode s.rest
        s ← dir_close bitmap_write (some dir) (record s { rest = rest })
        ok (inode, s)
    ]
    file_open bitmap_write inode memory.file s

  unfoldable pub filesys_open :
      List ℕ → Option Dir → Memory → Fs File → Outcome (Option File × Fs File)
  unfolding on_parts open_under
  filesys_open name cwd memory s = on_parts name (ok (none, s)) (λ dir_name base_name. do
    (o, s) ← dir_open_path dir_name cwd memory s
    open_under o base_name memory s)

  pub remove_under : Option Dir → List ℕ → Memory → Fs File → Outcome (Bool × Fs File)
  remove_under o base_name memory s = do
    (success, s) ← elim o [
      | none ↦ ok (false, s)
      | some dir ↦ do
        (success, s) ← dir_remove bitmap_write dir base_name memory.sub_inode memory.sub_dir s
        s ← dir_close bitmap_write (some dir) s
        ok (success, s)
    ]
    if success
        then (do
          cache ← buffer_cache_close s.rest.cache
          ok (success, record s { rest = record s.rest { cache = cache } }))
        else ok (success, s)

  unfoldable pub filesys_remove : List ℕ → Option Dir → Memory → Fs File → Outcome (Bool × Fs File)
  unfolding on_parts remove_under
  filesys_remove name cwd memory s = on_parts name (ok (false, s)) (λ dir_name base_name. do
    (o, s) ← dir_open_path dir_name cwd memory s
    remove_under o base_name memory s)
