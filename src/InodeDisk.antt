-- ===== src/InodeDisk.antt =====
-- filesys/inode.c: `struct inode_disk` and the bytes that hold it. A word is four bytes, the lowest
-- first. The padding after `directory` is written as zeros and not read.
pub mod Codec
use operating_system_pl_nt.Prelude.{
  ℕ, zero, suc, ◌+◌, ◌-◌, ◌*◌, ◌/◌, ◌%◌, ◌^◌, ◌<◌, ◌≡◌, refl, sym, ap, ◌∙◌, Bool, true, false, not,
  List, [], ◌∷◌, ◌++◌, ◌==◌, if◌then◌else◌, length, get_or, take, drop, arith, get_elem?, some,
  length-append, Bool-cases, inl, inr,
}
use operating_system_pl_nt.Block.{Bytes}

-- INODE_MAGIC
abbrev pub inode_magic : ℕ
inode_magic = 0x494e_4f44

-- DIRECT_COUNT
abbrev pub direct_count : ℕ
direct_count = 123

-- INDIRECT_COUNT
abbrev pub indirect_count : ℕ
indirect_count = 128

-- `struct inode_disk`; `file_length` is its `length`, which is never negative.
pub record InodeDisk : Type 0 where
  pub file_length : ℕ
  pub magic : ℕ
  pub directory : Bool
  pub direct_blocks : List ℕ
  pub indirect_block : ℕ
  pub double_indirect_block : ℕ

pub bytes_of_words : List ℕ → Bytes
bytes_of_words [] = []
bytes_of_words (w ∷ ws) =
    w % 256 ∷ w / 256 % 256 ∷ w / 65536 % 256 ∷ w / 16777216 % 256 ∷ bytes_of_words ws

-- the word in the first four bytes
first_word : Bytes → ℕ
first_word bytes =
    get_or bytes 0 0
    + 256 * get_or bytes 1 0
    + 65536 * get_or bytes 2 0
    + 16777216 * get_or bytes 3 0

-- the first `n` words
pub words_of : ℕ → Bytes → List ℕ
unfolding first_word
words_of zero bytes = []
words_of (suc n) bytes = first_word bytes ∷ words_of n (drop 4 bytes)

abbrev to_words : InodeDisk → List ℕ
to_words d =
    d.file_length
    ∷ d.magic
    ∷ (if d.directory then 1 else 0)
    ∷ (d.direct_blocks ++ (d.indirect_block ∷ d.double_indirect_block ∷ []))

abbrev from_words : List ℕ → InodeDisk
from_words ws =
    let blocks : List ℕ = drop 3 ws in
    record {
      file_length = get_or ws 0 0;
      magic = get_or ws 1 0;
      directory = not (get_or ws 2 0 % 256 == 0);
      direct_blocks = take direct_count blocks;
      indirect_block = get_or (drop direct_count blocks) 0 0;
      double_indirect_block = get_or (drop direct_count blocks) 1 0;
    }

-- The structure as the bytes that are copied between `&inode->data` and a sector: the source copies
-- memory, and has no code for this.
pub to_bytes : InodeDisk → Bytes
unfolding bytes_of_words
to_bytes d = bytes_of_words (to_words d)

pub from_bytes : Bytes → InodeDisk
unfolding words_of
from_bytes bytes = from_words (words_of 128 bytes)
