-- ===== src/Directory/Updates.antt =====
-- filesys/directory.c: opening, creating, adding and removing, over the free map and the inodes.
use operating_system_pl_nt.Prelude.{
  ℕ, ◌+◌, ◌*◌, ◌==◌, Bool, true, false, ◌||◌, Option, none, some, List, ltb, if◌then◌else◌, length,
  replicate, Outcome, ok, panic, ◌>>=◌,
}
use operating_system_pl_nt.Block.{Bytes}
use operating_system_pl_nt.Bitmap.{Bitmap}
use operating_system_pl_nt.FreeMap.{root_dir_sector}
use operating_system_pl_nt.Cache.{buffer_cache_close}
use operating_system_pl_nt.Inode.{Inodes, inode_at, inode_open, inode_reopen, inode_remove}
use operating_system_pl_nt.Inode.Space.{Fs, inode_create, inode_close, inode_write_at}
use operating_system_pl_nt.Directory.{
  Dir, DirEntry, dir_is_empty, dot, dot_dot, entry_bytes, entry_from, entry_size, lookup, name_max,
  rounds, slot_loop, write_name,
}

module _ {F : Type 0} (bitmap_write : Bitmap → F → Inodes → Outcome (Bool × Inodes)) where
  -- `none` is the null pointer; `memory` says whether `calloc` finds some.
  pub dir_open : Option ℕ → Bool → Fs F → Outcome (Option Dir × Fs F)
  dir_open (some inode) true s = ok (some (record { inode = inode; pos = 0 }), s)
  dir_open (some inode) false s = do s ← inode_close bitmap_write (some inode) s; ok (none, s)
  dir_open none memory s = do s ← inode_close bitmap_write none s; ok (none, s)

  -- `dir_open (inode_open (sector))`
  abbrev open_sector : ℕ → Option ℕ → Bool → Fs F → Outcome (Option Dir × Fs F)
  open_sector sector inode memory s = do
    (o, rest) ← inode_open sector inode s.rest
    dir_open o memory (record s { rest = rest })

  pub dir_open_root : Option ℕ → Bool → Fs F → Outcome (Option Dir × Fs F)
  unfolding dir_open
  dir_open_root inode memory s = open_sector root_dir_sector inode memory s

  pub dir_reopen : Dir → Bool → Fs F → Outcome (Option Dir × Fs F)
  unfolding dir_open
  dir_reopen dir memory s = do
    rest ← inode_reopen dir.inode s.rest
    dir_open (some dir.inode) memory (record s { rest = rest })

  pub dir_close : Option Dir → Fs F → Outcome (Fs F)
  dir_close none s = ok s
  dir_close (some dir) s = inode_close bitmap_write (some dir.inode) s

  abbrev empty_name : Bytes
  empty_name = replicate (name_max + 1) 0

  -- The sector of `..` is that of the directory itself.
  pub dir_create : ℕ → ℕ → Bool → Option ℕ → Bool → Fs F → Outcome (Bool × Fs F)
  unfolding dir_open dir_close
  dir_create sector entry_cnt inode_memory inode memory s = do
    (created, s) ← inode_create bitmap_write sector (entry_cnt * entry_size) true inode_memory s
    if created
        then (do
          (o, s) ← open_sector sector inode memory s
          elim o [
            | none ↦ ok (false, s)
            | some dir ↦ do
              self ← inode_at s.rest dir.inode
              let item : DirEntry = record {
                inode_sector = sector;
                name = write_name dot empty_name;
                in_use = true;
              }
              (_, s) ← inode_write_at bitmap_write dir.inode (entry_bytes item) entry_size 0 s
              let parent : DirEntry = record {
                inode_sector = self.sector;
                name = write_name dot_dot empty_name;
                in_use = true;
              }
              (_, s) ←
                  inode_write_at bitmap_write dir.inode (entry_bytes parent) entry_size entry_size s
              s ← dir_close (some dir) s
              cache ← buffer_cache_close s.rest.cache
              ok (true, record s { rest = record s.rest { cache = cache } })
          ])
        else ok (false, s)

  -- the entries `.` and `..` of a new subdirectory; `junk` is what the stack holds in the two names
  add_dots : ℕ → ℕ → Bytes × Bytes → Option ℕ → Bool → Fs F → Outcome (Bool × Fs F)
  unfolding dir_open dir_close
  add_dots sector parent (junk, junk') inode memory s = do
    (o, s) ← open_sector sector inode memory s
    elim o [
      | none ↦ ok (false, s)
      | some sub_dir ↦ do
        let item : DirEntry = record {
          inode_sector = sector;
          name = write_name dot junk;
          in_use = true;
        }
        (n, s) ← inode_write_at bitmap_write sub_dir.inode (entry_bytes item) entry_size 0 s
        if n == entry_size
            then (do
              self ← inode_at s.rest parent
              let item : DirEntry = record {
                inode_sector = self.sector;
                name = write_name dot_dot junk';
                in_use = true;
              }
              (n, s) ←
                  inode_write_at bitmap_write sub_dir.inode (entry_bytes item) entry_size entry_size
                    s
              s ← dir_close (some sub_dir) s
              ok (n == entry_size, s))
            else (do s ← dir_close (some sub_dir) s; ok (false, s))
    ]

  -- with the bytes `junk` of `e` on the stack, and the names `dots`
  unfoldable pub dir_add :
      Dir
      → List ℕ
      → ℕ
      → Bool
      → Bytes
      → Bytes × Bytes
      → Option ℕ
      → Bool
      → Fs F
      → Outcome (Bool × Fs F)
  unfolding add_dots
  dir_add dir name inode_sector is_dir junk dots memory_inode memory s =
      if (length name == 0) || ltb name_max (length name) then ok (false, s) else (do
        (r, rest) ← lookup dir name s.rest
        let s : Fs F = record s { rest = rest }
        elim r [
          | some _ ↦ ok (false, s)
          | none ↦ do
            inode ← inode_at s.rest dir.inode
            (e, ofs, cache) ← slot_loop (rounds inode) inode junk 0 s.rest.cache
            let e : DirEntry = entry_from e
            let e : DirEntry = record {
              inode_sector = inode_sector;
              name = write_name name e.name;
              in_use = true;
            }
            (n, s) ←
                inode_write_at bitmap_write dir.inode (entry_bytes e) entry_size ofs
                  (record s { rest = record s.rest { cache = cache } })
            if n == entry_size
                then (if is_dir
                    then add_dots inode_sector dir.inode dots memory_inode memory s
                    else ok (true, s))
                else ok (false, s)
        ])

  -- A subdirectory is opened, tested and closed; its inode is closed with it.
  test_empty : ℕ → Bool → Fs F → Outcome (Bool × Fs F)
  unfolding dir_open dir_close
  test_empty inode memory s = do
    (o, s) ← dir_open (some inode) memory s
    elim o [
      | none ↦ panic
      | some sub_dir ↦ do
        (empty, rest) ← dir_is_empty sub_dir s.rest
        s ← dir_close (some sub_dir) (record s { rest = rest })
        ok (empty, s)
    ]

  pub dir_remove : Dir → List ℕ → Option ℕ → Bool → Fs F → Outcome (Bool × Fs F)
  unfolding test_empty
  dir_remove dir name memory_inode memory s = do
    (r, rest) ← lookup dir name s.rest
    let s : Fs F = record s { rest = rest }
    elim r [
      | none ↦ ok (false, s)
      | some (e, ofs) ↦ do
        (o, rest) ← inode_open e.inode_sector memory_inode s.rest
        let s : Fs F = record s { rest = rest }
        elim o [
          | none ↦ ok (false, s)
          | some p ↦ do
            inode ← inode_at s.rest p
            (empty, s) ← (if inode.disk.directory then test_empty p memory s else ok (true, s))
            if empty
                then (do
                  (n, s) ←
                      inode_write_at bitmap_write dir.inode
                        (entry_bytes (record e { in_use = false })) entry_size ofs s
                  if n == entry_size
                      then (do
                        rest ← inode_remove p s.rest
                        s ← inode_close bitmap_write (some p) (record s { rest = rest })
                        cache ← buffer_cache_close s.rest.cache
                        ok (true, record s { rest = record s.rest { cache = cache } }))
                      else (do s ← inode_close bitmap_write (some p) s; ok (false, s)))
                else (do s ← inode_close bitmap_write (some p) s; ok (false, s))
        ]
    ]
