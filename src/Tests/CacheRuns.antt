-- ===== src/Tests/CacheRuns.antt =====
-- The buffer cache on a blank device of eight sectors.
use operating_system_pl_nt.Prelude.{
  ℕ, ◌<◌, ◌≡◌, ◌≢◌, ◌⊎◌, inl, inr, zero, suc, refl, sym, true, false, some, [], ◌∷◌, length,
  replicate, length-replicate, arith, ok,
}
use mathlib.Core.Path.{subst}
use operating_system_pl_nt.Block.{Block, Bytes, IsUsable}
use operating_system_pl_nt.Cache.{
  BufferBlock, BufferCache, no_sector, num_sectors, slice, splice, buffer_cache_init,
  buffer_cache_find, buffer_cache_evict, buffer_cache_read, buffer_cache_write, buffer_cache_close,
}
use operating_system_pl_nt.Cache.Valid.{IsValid, view, EntryIsOk, At}
use operating_system_pl_nt.Cache.Evict.{Evicts, buffer_cache_evict-Evicts}
use operating_system_pl_nt.Cache.Gets.{Same}
use operating_system_pl_nt.Cache.Refines.{
  Writes, buffer_cache_read-refines, buffer_cache_write-refines,
}
use operating_system_pl_nt.Cache.Close.{buffer_cache_close-durable}
use operating_system_pl_nt.Cache.Init.{buffer_cache_init-IsValid}

unfoldable pub filled : ℕ → Bytes
filled x = replicate 512 x

length-filled : (x : ℕ) → length (filled x) ≡ 512
unfolding filled
length-filled x = length-replicate 512 x

abbrev device : Block
device = record { size = 8; foreign = false; medium = λ _. filled 0; read_cnt = 0; write_cnt = 0 }

device-IsUsable : IsUsable device
device-IsUsable = record { small = omega arith; native = refl; whole = λ _. length-filled 0 }

-- one entry that holds sector 3, changed and in use, and one that is free
abbrev held : BufferBlock
held = record { dirty = true; used = true; accessed = true; sector = 3; buf = filled 7 }

abbrev spare : BufferBlock
spare = record { dirty = false; used = false; accessed = false; sector = no_sector; buf = filled 0 }

abbrev pub cache : BufferCache
cache = record { cache_list = held ∷ spare ∷ []; fs_device = device }

entries_of :
    (i : ℕ) (e : BufferBlock) → At cache i e → ((i ≡ 0) × (e ≡ held)) ⊎ ((i ≡ 1) × (e ≡ spare))
entries_of zero e at = inl (refl, cc)
entries_of (suc zero) e at = inr (refl, cc)
entries_of (suc (suc i)) e at = cc

cache-entries : (i : ℕ) (e : BufferBlock) → At cache i e → EntryIsOk device e
cache-entries i e at = elim (entries_of i e at) [
  | inl p ↦ subst (EntryIsOk device) (sym p.1) (record {
    bound = λ _. omega arith;
    clean = λ _ h. cc;
    free = λ h. absurd (omega arith);
    sized = length-filled 7;
  })
  | inr p ↦ subst (EntryIsOk device) (sym p.1) (record {
    bound = λ n. absurd (n refl);
    clean = λ n. absurd (n refl);
    free = λ _. refl;
    sized = length-filled 0;
  })
]

pub cache-IsValid : IsValid cache
cache-IsValid = record {
  nonempty = omega arith;
  usable = device-IsUsable;
  entries = cache-entries;
  distinct = λ i j e f at at' q n. ground (arith, entries_of i e at, entries_of j f at');
}

buffer_cache_init-IsValid_example :
    (c : BufferCache) × (buffer_cache_init (λ k. some (filled 0)) (λ _. true) device ≡ ok c)
    × IsValid c
    × (length c.cache_list ≡ num_sectors)
    × (c.fs_device ≡ device)
    × ((t : ℕ) → t ≢ no_sector → view c t ≡ device.medium t)
buffer_cache_init-IsValid_example =
    buffer_cache_init-IsValid (λ _. filled 0) device (λ _. length-filled 0) device-IsUsable

buffer_cache_evict-Evicts_example : Evicts cache (buffer_cache_evict cache)
buffer_cache_evict-Evicts_example = buffer_cache_evict-Evicts cache cache-IsValid

buffer_cache_read-refines_example :
    (c' : BufferCache) × (buffer_cache_read 3 10 4 cache ≡ ok (slice 10 4 (view cache 3), c'))
    × Same cache c'
buffer_cache_read-refines_example =
    buffer_cache_read-refines 3 10 4 cache-IsValid (omega arith) (omega arith)

buffer_cache_write-refines_example :
    (c' : BufferCache) × (buffer_cache_write 5 (1 ∷ 2 ∷ []) 510 2 cache ≡ ok c')
    × Writes cache c' 5 (splice 510 2 (1 ∷ 2 ∷ []) (view cache 5))
buffer_cache_write-refines_example =
    buffer_cache_write-refines 5 (1 ∷ 2 ∷ []) 510 2 cache-IsValid (omega arith) (omega arith)
      (omega arith)

buffer_cache_close-durable_example :
    (c' : BufferCache) × (buffer_cache_close cache ≡ ok c')
    × Same cache c'
    × ((t : ℕ) → t < 8 → c'.fs_device.medium t ≡ view cache t)
buffer_cache_close-durable_example = buffer_cache_close-durable cache-IsValid

found_spare : buffer_cache_find cache.cache_list no_sector ≡ some 1
unfolding buffer_cache_find
found_spare = refl
