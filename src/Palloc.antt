-- ===== src/Palloc.antt =====
-- threads/palloc.c: the page allocator. A page is its address; the pools do not start at the null
-- pointer, which is `none`. `memory` gives the byte at every address. The lock of a pool makes an
-- allocation one step. The pools are given, as `palloc_init` lays them out.
pub mod Pages
pub mod Frees
use operating_system_pl_nt.Prelude.{
  ℕ, ◌+◌, ◌-◌, ◌*◌, ◌/◌, ◌%◌, ◌==◌, Bool, true, false, not, ◌&&◌, Option, none, some, ltb, leb,
  if◌then◌else◌, Outcome, ok, panic, ◌>>=◌, ◌>>◌, assert,
}
use operating_system_pl_nt.Bitmap.{
  Bitmap, bitmap_error, bitmap_scan_and_flip, bitmap_all, bitmap_set_multiple,
}

-- PGSIZE
abbrev pub pgsize : ℕ
pgsize = 4096

-- `struct pool`
pub record Pool : Type 0 where
  pub used_map : Bitmap
  pub base : ℕ

-- `kernel_pool`, `user_pool` and the memory
pub record Palloc : Type 0 where
  pub kernel_pool : Pool
  pub user_pool : Pool
  pub memory : ℕ → ℕ

-- `enum palloc_flags`
pub record Flags : Type 0 where
  pub pal_assert : Bool
  pub pal_zero : Bool
  pub pal_user : Bool

abbrev pub pool_of : Bool → Palloc → Pool
pool_of user s = if user then s.user_pool else s.kernel_pool

-- with another map in one of the pools
abbrev pub put_map : Bool → Bitmap → Palloc → Palloc
put_map true b s = record s { user_pool = record s.user_pool { used_map = b } }
put_map false b s = record s { kernel_pool = record s.kernel_pool { used_map = b } }

-- `memset (at, value, size)`
abbrev pub fill : ℕ → ℕ → ℕ → Palloc → Palloc
fill at value size s = record s {
  memory = λ a. if leb at a && ltb a (at + size) then value else s.memory a;
}

unfoldable pub palloc_get_multiple : Flags → ℕ → Palloc → Outcome (Option ℕ × Palloc)
palloc_get_multiple flags page_cnt s = if page_cnt == 0 then ok (none, s) else (do
  let pool = pool_of flags.pal_user s
  (page_idx, b) ← bitmap_scan_and_flip pool.used_map 0 page_cnt false
  let s = put_map flags.pal_user b s
  let pages : ℕ = pool.base + pgsize * page_idx
  if page_idx == bitmap_error
      then (if flags.pal_assert then panic else ok (none, s))
      else ok (some pages, if flags.pal_zero then fill pages 0 (pgsize * page_cnt) s else s))

pub palloc_get_page : Flags → Palloc → Outcome (Option ℕ × Palloc)
palloc_get_page flags s = palloc_get_multiple flags 1 s

unfoldable pub page_from_pool : Pool → ℕ → Bool
page_from_pool pool page =
    let page_no : ℕ = page / pgsize in
    let start_page : ℕ = pool.base / pgsize in
    leb start_page page_no && ltb page_no (start_page + pool.used_map.bit_cnt)

-- in the pool that the pages are from
unfoldable pub free_in : Bool → ℕ → ℕ → Palloc → Outcome Palloc
free_in user pages page_cnt s = do
  let pool = pool_of user s
  let page_idx : ℕ = pages / pgsize - pool.base / pgsize
  let s = fill pages 0xcc (pgsize * page_cnt) s
  held ← bitmap_all pool.used_map page_idx page_cnt
  assert held
  b ← bitmap_set_multiple pool.used_map page_idx page_cnt false
  ok (put_map user b s)

unfoldable pub palloc_free_multiple : Option ℕ → ℕ → Palloc → Outcome Palloc
palloc_free_multiple none page_cnt s = ok s
palloc_free_multiple (some pages) page_cnt s = do
  assert (pages % pgsize == 0)
  if page_cnt == 0
      then ok s
      else (if page_from_pool s.kernel_pool pages
          then free_in false pages page_cnt s
          else (if page_from_pool s.user_pool pages then free_in true pages page_cnt s else panic))

pub palloc_free_page : Option ℕ → Palloc → Outcome Palloc
palloc_free_page page s = palloc_free_multiple page 1 s
