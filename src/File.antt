-- ===== src/File.antt =====
-- filesys/file.c: open files. Most calls take an existing file; `calloc` is an argument of the call
-- that makes one, and `free` is forgetting it.
pub mod Denials
use operating_system_pl_nt.Prelude.{
  ℕ, ◌+◌, Bool, true, false, Option, none, some, if◌then◌else◌, length, Outcome, ok, ◌>>=◌,
}
use operating_system_pl_nt.Block.{Bytes}
use operating_system_pl_nt.Bitmap.{Bitmap}
use operating_system_pl_nt.Inode.{
  Inodes, inode_at, inode_reopen, inode_read_at, inode_deny_write, inode_allow_write,
}
use operating_system_pl_nt.Inode.Space.{Fs, inode_close, inode_write_at}

-- `struct file`
pub record File : Type 0 where
  pub inode : ℕ
  pub pos : ℕ
  pub deny_write : Bool

pub file_read_at : File → ℕ → ℕ → Inodes → Outcome (Bytes × Inodes)
file_read_at file size file_ofs s = do
  inode ← inode_at s file.inode
  (bytes, cache) ← inode_read_at inode size file_ofs s.cache
  ok (bytes, record s { cache = cache })

pub file_read : File → ℕ → Inodes → Outcome (Bytes × File × Inodes)
file_read file size s = do
  (bytes, s) ← file_read_at file size file.pos s
  ok (bytes, record file { pos = file.pos + length bytes }, s)

pub file_deny_write : File → Inodes → Outcome (File × Inodes)
file_deny_write file s =
    if file.deny_write
    then ok (file, s)
    else (do s ← inode_deny_write file.inode s; ok (record file { deny_write = true }, s))

pub file_allow_write : File → Inodes → Outcome (File × Inodes)
file_allow_write file s =
    if file.deny_write
    then (do s ← inode_allow_write file.inode s; ok (record file { deny_write = false }, s))
    else ok (file, s)

pub file_length : File → Inodes → Outcome ℕ
file_length file s = do inode ← inode_at s file.inode; ok inode.disk.file_length

pub file_seek : File → ℕ → File
file_seek file new_pos = record file { pos = new_pos }

pub file_tell : File → ℕ
file_tell file = file.pos

module _ (bitmap_write : Bitmap → File → Inodes → Outcome (Bool × Inodes)) where
  -- `none` is the null pointer; `memory` says whether `calloc` finds some.
  pub file_open : Option ℕ → Bool → Fs File → Outcome (Option File × Fs File)
  file_open (some inode) true s =
      ok (some (record { inode = inode; pos = 0; deny_write = false }), s)
  file_open (some inode) false s = do s ← inode_close bitmap_write (some inode) s; ok (none, s)
  file_open none memory s = do s ← inode_close bitmap_write none s; ok (none, s)

  pub file_reopen : File → Bool → Fs File → Outcome (Option File × Fs File)
  file_reopen file memory s = do
    rest ← inode_reopen file.inode s.rest
    file_open (some file.inode) memory (record s { rest = rest })

  pub file_close : Option File → Fs File → Outcome (Fs File)
  file_close none s = ok s
  file_close (some file) s = do
    (file, rest) ← file_allow_write file s.rest
    inode_close bitmap_write (some file.inode) (record s { rest = rest })

  unfoldable pub file_write_at : File → Bytes → ℕ → ℕ → Fs File → Outcome (ℕ × Fs File)
  file_write_at file buffer size file_ofs s =
      inode_write_at bitmap_write file.inode buffer size file_ofs s

  pub file_write : File → Bytes → ℕ → Fs File → Outcome (ℕ × File × Fs File)
  file_write file buffer size s = do
    (bytes_written, s) ← inode_write_at bitmap_write file.inode buffer size file.pos s
    ok (bytes_written, record file { pos = file.pos + bytes_written }, s)
