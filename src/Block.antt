-- ===== src/Block.antt =====
-- devices/block.c and the driver below it: a device of `size` sectors. The driver's `read` and
-- `write` move whole sectors to and from the medium, which returns what was written last.
use operating_system_pl_nt.Prelude.{
  ℕ, ◌+◌, ◌≡◌, Bool, false, List, not, ltb, length, Outcome, ok, ◌>>◌, assert, arith, update, ◌<◌,
  lt→ltb,
}

-- BLOCK_SECTOR_SIZE
abbrev pub block_sector_size : ℕ
block_sector_size = 512

abbrev pub Bytes : Type 0
Bytes = List ℕ

-- `struct block`, with the medium behind `ops` and `aux`; `foreign` says that its type is
-- BLOCK_FOREIGN.
pub record Block : Type 0 where
  pub size : ℕ
  pub foreign : Bool
  pub medium : ℕ → Bytes
  pub read_cnt : ℕ
  pub write_cnt : ℕ

check_sector : Block → ℕ → Outcome (Unit {0})
check_sector b s = assert (ltb s b.size)

unfoldable pub block_read : Block → ℕ → Outcome (Bytes × Block)
unfolding check_sector
block_read b s = do check_sector b s; ok (b.medium s, record b { read_cnt = b.read_cnt + 1 })

-- the device after a write
abbrev pub written : Block → ℕ → Bytes → Block
written b s bytes = record b { medium = update b.medium s bytes; write_cnt = b.write_cnt + 1 }

unfoldable pub block_write : Block → ℕ → Bytes → Outcome Block
unfolding check_sector
block_write b s bytes = do check_sector b s; assert (not b.foreign); ok (written b s bytes)

-- A device that the file system can stand on: sector numbers are `uint32_t`.
pub record IsUsable (b : Block) : Type 0 where
  pub small : b.size < 0xffff_ffff + 1
  pub native : b.foreign ≡ false
  pub whole : (s : ℕ) → length (b.medium s) ≡ block_sector_size

-- the device after a read
abbrev pub counted : Block → Block
counted b = record b { read_cnt = b.read_cnt + 1 }

pub block_read-ok : (b : Block) (s : ℕ) → s < b.size → block_read b s ≡ ok (b.medium s, counted b)
unfolding block_read
block_read-ok b s h = rw (lt→ltb s b.size h)

pub block_write-ok :
    (b : Block) (s : ℕ) (bytes : Bytes)
    → IsUsable b
    → s < b.size
    → block_write b s bytes ≡ ok (written b s bytes)
unfolding block_write
block_write-ok b s bytes u h = rw (lt→ltb s b.size h, u.native)

pub counted-IsUsable : {b : Block} → IsUsable b → IsUsable (counted b)
counted-IsUsable u = record { small = u.small; native = u.native; whole = u.whole }

pub written-IsUsable :
    {b : Block} (s : ℕ) (bytes : Bytes)
    → IsUsable b
    → length bytes ≡ block_sector_size
    → IsUsable (written b s bytes)
written-IsUsable s bytes u h = record {
  small = u.small;
  native = u.native;
  whole = λ t. ground (arith, u.whole t);
}
