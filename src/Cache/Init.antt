-- ===== src/Cache/Init.antt =====
-- `buffer_cache_init` gives an empty cache.
use mathlib.Core.Path.{subst}
use operating_system_pl_nt.Prelude.{
  ℕ, zero, suc, ◌+◌, ◌≡◌, ◌≢◌, refl, sym, ◌∙◌, ap, true, false, Option, some, List, [], ◌∷◌, length,
  get_elem?, ok, arith,
}
use operating_system_pl_nt.Block.{Block, Bytes, IsUsable, block_sector_size}
use operating_system_pl_nt.Cache.{
  BufferBlock, BufferCache, num_sectors, no_sector, init_loop, buffer_cache_init,
}
use operating_system_pl_nt.Cache.Valid.{IsValid, view, view-miss}

-- An entry that has never held a sector.
record IsFresh (e : BufferBlock) : Type 0 where
  free : e.sector ≡ no_sector
  clean : e.dirty ≡ false
  sized : length e.buf ≡ block_sector_size

init_loop-IsFresh :
    (n i : ℕ) (buf : ℕ → Bytes)
    → ((k : ℕ) → length (buf k) ≡ block_sector_size)
    → (es : List BufferBlock) × (init_loop n i (λ k. some (buf k)) (λ _. true) ≡ ok es)
      × (length es ≡ n)
      × ((j : ℕ) (e : BufferBlock) → get_elem? es j ≡ some e → IsFresh e)
unfolding init_loop
init_loop-IsFresh zero i buf sized = ([], refl, refl, λ j e h. cc)
init_loop-IsFresh (suc n) i buf sized =
    let (es, loops, len, fresh) = init_loop-IsFresh n (i + 1) buf sized in
    let e0 : BufferBlock = record {
      dirty = false;
      used = false;
      accessed = false;
      sector = no_sector;
      buf = buf i;
    } in
    (
      e0 ∷ es,
      simp loops,
      ap suc len,
      λ j e. elim j as (λ j. get_elem? (e0 ∷ es) j ≡ some e → IsFresh e) [
        | zero ↦ λ h.
            subst IsFresh (get_injective h) (record { free = refl; clean = refl; sized = sized i })
        | suc j ↦ fresh j e
      ],
    )
  where
    get_injective : {x y : BufferBlock} → ◌≡◌ {A = Option BufferBlock} (some x) (some y) → x ≡ y
    get_injective h = cc

-- With the memory there, `buffer_cache_init` returns a valid cache of NUM_SECTORS entries through
-- which every sector reads as it stands on the device.
pub buffer_cache_init-IsValid :
    (buf : ℕ → Bytes) (device : Block)
    → ((k : ℕ) → length (buf k) ≡ block_sector_size)
    → IsUsable device
    → (c : BufferCache) × (buffer_cache_init (λ k. some (buf k)) (λ _. true) device ≡ ok c)
      × IsValid c
      × (length c.cache_list ≡ num_sectors)
      × (c.fs_device ≡ device)
      × ((t : ℕ) → t ≢ no_sector → view c t ≡ device.medium t)
unfolding buffer_cache_init
buffer_cache_init-IsValid buf device sized usable =
    let (es, loops, len, fresh) = init_loop-IsFresh num_sectors 0 buf sized in
    let c : BufferCache = record { cache_list = es; fs_device = device } in
    let v : IsValid c = record {
      nonempty = omega (arith, len);
      usable = usable;
      entries = λ i e at. record {
        bound = λ n. absurd (n (fresh i e at).free);
        clean = λ n. absurd (n (fresh i e at).free);
        free = λ _. (fresh i e at).clean;
        sized = (fresh i e at).sized;
      };
      distinct = λ i j e f at at' q n. absurd (n (fresh i e at).free);
    } in
    (
      c,
      simp loops,
      v,
      len,
      refl,
      λ t n. view-miss v t (λ i e at z. n (sym z ∙ (fresh i e at).free)),
    )
