-- ===== src/Cache.antt =====
-- filesys/cache.c and filesys/cache.h: the buffer cache. `cache_list` is a list, and a pointer to
-- an entry is the entry's position in it, which never changes. The field `vaddr`, which is
-- allocated and never used, is left out of the entries. `buffer_cache_lock` is held throughout a
-- read or a write, so each is one step of the model. A dereference outside the list is a `panic`,
-- and so is a copy past the end of an entry's buffer or of the source, which the code does not test
-- for.
pub mod Valid
pub mod Keeps
pub mod Evict
pub mod Gets
pub mod Refines
pub mod Close
pub mod Init
pub mod Sentinel
use mathlib.Core.Option
use operating_system_pl_nt.Prelude.{
  ℕ, zero, suc, ◌+◌, ◌-◌, ◌≡◌, Bool, true, false, not, ◌||◌, Option, none, some, List, [], ◌∷◌,
  ◌++◌, ltb, ◌==◌, if◌then◌else◌, leb, length, get_elem?, set, take, drop, Outcome, ok, panic,
  out_of_fuel, ◌>>=◌, ◌>>◌, assert,
}
use operating_system_pl_nt.Block.{Block, Bytes, block_sector_size, block_read, block_write}

-- NUM_SECTORS
abbrev pub num_sectors : ℕ
num_sectors = 128

-- (block_sector_t) -1
abbrev pub no_sector : ℕ
no_sector = 0xffff_ffff

-- `struct buffer_block`
pub record BufferBlock : Type 0 where
  pub dirty : Bool
  pub used : Bool
  pub accessed : Bool
  pub sector : ℕ
  pub buf : Bytes

-- `cache_list`, with `fs_device`
pub record BufferCache : Type 0 where
  pub cache_list : List BufferBlock
  pub fs_device : Block

-- the loop of `buffer_cache_init`, for `n` more entries from number `i` on
init_loop : ℕ → ℕ → (ℕ → Option Bytes) → (ℕ → Bool) → Outcome (List BufferBlock)
init_loop zero i entry vaddr = ok []
init_loop (suc n) i entry vaddr = elim (entry i) [
  | none ↦ panic
  | some buf ↦ do
    assert (vaddr i)
    rest ← init_loop n (i + 1) entry vaddr
    ok (
        record { dirty = false; used = false; accessed = false; sector = no_sector; buf = buf }
        ∷ rest)
]

-- `buffer_cache_init`, with what `malloc` returns for the entries (`buf` holds any bytes) and for
-- their `vaddr`.
pub buffer_cache_init : (ℕ → Option Bytes) → (ℕ → Bool) → Block → Outcome BufferCache
buffer_cache_init entry vaddr device = do
  entries ← init_loop num_sectors 0 entry vaddr
  ok (record { cache_list = entries; fs_device = device })

unfoldable pub buffer_cache_find : List BufferBlock → ℕ → Option ℕ
buffer_cache_find [] s = none
buffer_cache_find (e ∷ es) s =
    if e.sector == s then some 0 else Option.map suc (buffer_cache_find es s)

-- `entry->…`
pub entry_at : BufferCache → ℕ → Outcome BufferBlock
entry_at c i = elim (get_elem? c.cache_list i) [ none ↦ panic | some e ↦ ok e ]

-- `*entry = e`
abbrev pub put_entry : BufferCache → ℕ → BufferBlock → BufferCache
put_entry c i e = record c { cache_list = set c.cache_list i e }

pub buffer_cache_flush : BufferCache → ℕ → Outcome BufferCache
unfolding entry_at
buffer_cache_flush c i = do
  e ← entry_at c i
  if e.dirty
      then (do
        device ← block_write c.fs_device e.sector e.buf
        ok (put_entry (record c { fs_device = device }) i (record e { dirty = false })))
      else ok c

-- `list_next`, back to the front at the end
abbrev pub next_entry : BufferCache → ℕ → ℕ
next_entry c i = if i + 1 == length c.cache_list then 0 else i + 1

-- the unused entry that the loop of `buffer_cache_evict` has come to
take_entry : BufferCache → ℕ → BufferBlock → Outcome (ℕ × BufferCache)
take_entry c i e = do
  c' ← (if e.dirty then buffer_cache_flush c i else ok c)
  e' ← entry_at c' i
  ok (i, put_entry c' i (record e' { sector = no_sector }))

-- the loop, on fuel
evict_loop : ℕ → ℕ → BufferCache → Outcome (ℕ × BufferCache)
evict_loop zero i c = out_of_fuel
evict_loop (suc fuel) i c = do
  e ← entry_at c i
  let skip = evict_loop fuel (next_entry c i) (put_entry c i (record e { used = false }))
  if e.used then skip else take_entry c i e

-- Two rounds of the list are enough.
pub buffer_cache_evict : BufferCache → Outcome (ℕ × BufferCache)
unfolding evict_loop take_entry
buffer_cache_evict c = evict_loop (length c.cache_list + 1) 0 c

-- `block_read (fs_device, sector, entry->buf); entry->sector = sector; entry->dirty = 0;`
load_entry : BufferCache → ℕ → ℕ → Outcome BufferCache
load_entry c i s = do
  (bytes, device) ← block_read c.fs_device s
  e ← entry_at c i
  ok (
      put_entry (record c { fs_device = device }) i
        (record e { buf = bytes; sector = s; dirty = false }))

-- `entry` of `buffer_cache_read`
pub entry_to_read : BufferCache → ℕ → Outcome (ℕ × BufferCache)
entry_to_read c s = elim (buffer_cache_find c.cache_list s) [
  | some i ↦ ok (i, c)
  | none ↦ do (i, c) ← buffer_cache_evict c; c ← load_entry c i s; ok (i, c)
]

-- `entry` of `buffer_cache_write`, with its own test after a miss
pub entry_to_write : BufferCache → ℕ → Outcome (ℕ × BufferCache)
entry_to_write c s = elim (buffer_cache_find c.cache_list s) [
  | some i ↦ ok (i, c)
  | none ↦ do
    (i, c) ← buffer_cache_evict c
    e ← entry_at c i
    c ← (if not e.used || not (e.sector == s) then load_entry c i s else ok c)
    ok (i, c)
]

-- `memcpy (target, entry->buf + sector_ofs, chunk_size)`
abbrev pub slice : ℕ → ℕ → Bytes → Bytes
slice ofs n bytes = take n (drop ofs bytes)

-- `memcpy (entry->buf + sector_ofs, source, chunk_size)`
abbrev pub splice : ℕ → ℕ → Bytes → Bytes → Bytes
splice ofs n source bytes = take ofs bytes ++ (take n source ++ drop (ofs + n) bytes)

pub buffer_cache_read : ℕ → ℕ → ℕ → BufferCache → Outcome (Bytes × BufferCache)
unfolding entry_to_read load_entry
buffer_cache_read s sector_ofs chunk_size c = do
  (i, c) ← entry_to_read c s
  e ← entry_at c i
  assert (leb (sector_ofs + chunk_size) block_sector_size)
  ok (slice sector_ofs chunk_size e.buf, put_entry c i (record e { used = true; accessed = true }))

pub buffer_cache_write : ℕ → Bytes → ℕ → ℕ → BufferCache → Outcome BufferCache
unfolding entry_to_write load_entry
buffer_cache_write s source sector_ofs chunk_size c = do
  (i, c) ← entry_to_write c s
  e ← entry_at c i
  assert (leb (sector_ofs + chunk_size) block_sector_size)
  assert (leb chunk_size (length source))
  ok (
      put_entry c i (record e {
        used = true;
        accessed = true;
        dirty = true;
        buf = splice sector_ofs chunk_size source e.buf;
      }))

-- the loop of `buffer_cache_close`, over the `n` entries from `i` on
close_loop : ℕ → ℕ → BufferCache → Outcome BufferCache
close_loop zero i c = ok c
close_loop (suc n) i c = do
  e ← entry_at c i
  c ← (if not (e.sector == no_sector) then buffer_cache_flush c i else ok c)
  close_loop n (i + 1) c

pub buffer_cache_close : BufferCache → Outcome BufferCache
unfolding close_loop
buffer_cache_close c = close_loop (length c.cache_list) 0 c
