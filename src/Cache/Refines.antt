-- ===== src/Cache/Refines.antt =====
-- The buffer cache against a plain map from sectors to their contents: reads and writes.
use operating_system_pl_nt.Prelude.{
  ℕ, ◌+◌, ◌<◌, ◌≤◌, ◌≡◌, ◌≢◌, refl, sym, ◌∙◌, true, leb, ◌==◌, length, if◌then◌else◌, ok, arith,
  length-append, take, drop, ◌++◌, length-take, length-drop, length-set,
}
use operating_system_pl_nt.Block.{Bytes, block_sector_size}
use operating_system_pl_nt.Cache.{
  BufferBlock, BufferCache, no_sector, put_entry, buffer_cache_read, buffer_cache_write, slice,
  splice,
}
use operating_system_pl_nt.Cache.Valid.{At, IsValid, view, IsPut, put-IsValid, view-put}
use operating_system_pl_nt.Cache.Keeps.{entry_at_eq, flags-Keeps, view-at}
use operating_system_pl_nt.Cache.Gets.{
  Same, Same-trans, Keeps→Same, in_range, entry_to_read-Gets, entry_to_write-Gets,
}

-- With a valid cache, a read within a sector on the device returns the bytes of the map, whether
-- the sector is in the cache or not, and changes the map nowhere.
pub buffer_cache_read-refines :
    {c : BufferCache} (s sector_ofs chunk_size : ℕ)
    → IsValid c
    → s < c.fs_device.size
    → sector_ofs + chunk_size ≤ block_sector_size
    → (c' : BufferCache) × (buffer_cache_read s sector_ofs chunk_size c
        ≡ ok (slice sector_ofs chunk_size (view c s), c'))
      × Same c c'
unfolding buffer_cache_read
buffer_cache_read-refines {c} s sector_ofs chunk_size v bound inside =
    let fits : leb (sector_ofs + chunk_size) block_sector_size ≡ true = ground (arith, inside) in
    let (i, c1, e, gets, same, at, here) = entry_to_read-Gets s v bound in
    let n : s ≢ no_sector = in_range s v bound in
    let shown : e.buf ≡ view c s = sym (view-at i e same.valid at s n here) ∙ same.view_eq s n in
    (
      put_entry c1 i (record e { used = true; accessed = true }),
      simp (gets, entry_at_eq c1 i at, shown, fits),
      Same-trans same (Keeps→Same (flags-Keeps i e same.valid at true true)),
    )

length-splice :
    (ofs n : ℕ) (source bytes : Bytes)
    → ofs + n ≤ length bytes
    → n ≤ length source
    → length (splice ofs n source bytes) ≡ length bytes
length-splice ofs n source bytes h k = omega (
  arith,
  length-append (take ofs bytes) (take n source ++ drop (ofs + n) bytes),
  length-append (take n source) (drop (ofs + n) bytes),
  length-take ofs bytes,
  length-take n source,
  length-drop (ofs + n) bytes,
)

-- The map after a write.
pub record Writes (c c' : BufferCache) (s : ℕ) (bytes : Bytes) : Type 0 where
  pub valid : IsValid c'
  pub length_eq : length c'.cache_list ≡ length c.cache_list
  pub size_eq : c'.fs_device.size ≡ c.fs_device.size
  pub view_eq : (t : ℕ) → t ≢ no_sector → view c' t ≡ (if s == t then bytes else view c t)

-- The bytes of a valid entry are replaced, and it is marked dirty.
module _ {c : BufferCache} (i : ℕ) (e : BufferBlock) (v : IsValid c) (at : At c i e)
    (n : e.sector ≢ no_sector) (bytes : Bytes) (sized : length bytes ≡ block_sector_size) where
  abbrev stored : BufferBlock
  stored = record e { used = true; accessed = true; dirty = true; buf = bytes }

  store-IsPut : IsPut c i e stored c.fs_device
  store-IsPut = record {
    at = at;
    usable = v.usable;
    size = refl;
    same = λ t _. refl;
    entry = record {
      bound = (v.entries i e at).bound;
      clean = λ _ k. cc;
      free = λ z. absurd (n z);
      sized = sized;
    };
    fresh = λ j f at' q _. v.distinct j i f e at' at q (λ z. n (sym q ∙ z));
  }

  store-Writes : Writes c (put_entry c i stored) e.sector bytes
  store-Writes = record {
    valid = put-IsValid v store-IsPut;
    length_eq = length-set c.cache_list i stored;
    size_eq = refl;
    view_eq = λ t valid. ground (arith, view-put v store-IsPut t valid);
  }

-- With a valid cache, a write within a sector of the device changes the map at that sector alone,
-- by the bytes written.
pub buffer_cache_write-refines :
    {c : BufferCache} (s : ℕ) (source : Bytes) (sector_ofs chunk_size : ℕ)
    → IsValid c
    → s < c.fs_device.size
    → sector_ofs + chunk_size ≤ block_sector_size
    → chunk_size ≤ length source
    → (c' : BufferCache) × (buffer_cache_write s source sector_ofs chunk_size c ≡ ok c')
      × Writes c c' s (splice sector_ofs chunk_size source (view c s))
unfolding buffer_cache_write
buffer_cache_write-refines {c} s source sector_ofs chunk_size v bound inside given =
    let fits : leb (sector_ofs + chunk_size) block_sector_size ≡ true = ground (arith, inside) in
    let enough : leb chunk_size (length source) ≡ true = ground (arith, given) in
    let (i, c1, e, gets, same, at, here) = entry_to_write-Gets s v bound in
    let n : s ≢ no_sector = in_range s v bound in
    let shown : e.buf ≡ view c s = sym (view-at i e same.valid at s n here) ∙ same.view_eq s n in
    let bytes : Bytes = splice sector_ofs chunk_size source e.buf in
    let sized : length bytes ≡ block_sector_size =
      length-splice sector_ofs chunk_size source e.buf
        (omega (arith, (same.valid.entries i e at).sized)) given
      ∙ (same.valid.entries i e at).sized in
    let w : Writes c1
        (put_entry c1 i (stored i e same.valid at (λ z. n (sym here ∙ z)) bytes sized)) e.sector
        bytes =
      store-Writes i e same.valid at (λ z. n (sym here ∙ z)) bytes sized in
    (
      put_entry c1 i (stored i e same.valid at (λ z. n (sym here ∙ z)) bytes sized),
      simp (gets, entry_at_eq c1 i at, fits, enough),
      record {
        valid = w.valid;
        length_eq = w.length_eq ∙ same.length_eq;
        size_eq = w.size_eq ∙ same.size_eq;
        view_eq = λ t valid. ground (arith, w.view_eq t valid, same.view_eq t valid);
      },
    )
