-- ===== src/Cache/Sentinel.antt =====
-- `(block_sector_t) -1` marks a free entry, and is also what the inode layer returns for an offset
-- that has no sector. The cache takes it for a sector that it holds.
use operating_system_pl_nt.Prelude.{
  ℕ, ◌+◌, ◌≤◌, ◌≡◌, refl, true, some, ok, panic, arith, ltb, leb, false, length, get_elem?-set_self,
  lt-length_of_get_elem?,
}
use operating_system_pl_nt.Block.{Bytes, block_sector_size, block_write}
use operating_system_pl_nt.Cache.{
  BufferBlock, BufferCache, no_sector, put_entry, buffer_cache_find, buffer_cache_write,
  buffer_cache_flush, entry_to_write, splice,
}
use operating_system_pl_nt.Cache.Valid.{At, find-some}
use operating_system_pl_nt.Cache.Keeps.{entry_at_eq}

-- While an entry is free, a write within sector -1 is accepted: it goes to the first free entry,
-- which is marked dirty. To write that entry back, as its eviction does, stops the kernel.
pub buffer_cache_write_sentinel :
    (c : BufferCache) (i : ℕ) (source : Bytes) (sector_ofs chunk_size : ℕ)
    → sector_ofs + chunk_size ≤ block_sector_size
    → chunk_size ≤ length source
    → c.fs_device.size ≤ no_sector
    → buffer_cache_find c.cache_list no_sector ≡ some i
    → (c' : BufferCache) × (buffer_cache_write no_sector source sector_ofs chunk_size c ≡ ok c')
      × (c'.fs_device ≡ c.fs_device)
      × (buffer_cache_flush c' i ≡ panic)
unfolding buffer_cache_write buffer_cache_flush block_write
buffer_cache_write_sentinel c i source sector_ofs chunk_size inside given small found =
    let enough : leb chunk_size (length source) ≡ true = ground (arith, given) in
    let fits : leb (sector_ofs + chunk_size) block_sector_size ≡ true = ground (arith, inside) in
    let (e, at, here) = find-some c.cache_list no_sector i found in
    let e' : BufferBlock = record e {
      used = true;
      accessed = true;
      dirty = true;
      buf = splice sector_ofs chunk_size source e.buf;
    } in
    let at' : At (put_entry c i e') i e' =
      get_elem?-set_self c.cache_list i e' (lt-length_of_get_elem? c.cache_list i at) in
    let past : ltb e.sector c.fs_device.size ≡ false = ground arith in
    (
      put_entry c i e',
      simp (found, entry_to_write, entry_at_eq c i at, fits, enough),
      refl,
      simp (entry_at_eq (put_entry c i e') i at', past),
    )
