-- ===== src/Cache/Evict.antt =====
-- `buffer_cache_evict`: the clock scan ends, writes a dirty victim back, and frees its entry.
use native.Mathlib.Decide.{ℕ_discrete}
use mathlib.Core.Path.{subst, sym}
use operating_system_pl_nt.Prelude.{
  ℕ, zero, suc, ◌+◌, ◌<◌, ◌≡◌, refl, ◌⊎◌, inl, inr, true, false, length, get_elem?-set_self,
  get_elem?-set_ne, get_elem?-lt, lt-length_of_get_elem?, Bool-cases, Outcome, ok, arith, ◌≢◌, ◌∙◌,
}
use operating_system_pl_nt.Cache.{
  BufferBlock, BufferCache, no_sector, put_entry, take_entry, evict_loop, buffer_cache_evict,
  next_entry,
}
use operating_system_pl_nt.Cache.Valid.{At, IsValid}
use operating_system_pl_nt.Cache.Keeps.{
  Keeps, Keeps-trans, entry_at_eq, flags-Keeps, free-Keeps, flush-Keeps,
}

-- A freed entry.
abbrev pub IsFree : BufferCache → ℕ → Type 0
IsFree c i = (e : BufferBlock) × At c i e × (e.sector ≡ no_sector) × (e.used ≡ false)

put-IsFree :
    (c : BufferCache) (i : ℕ) (e : BufferBlock)
    → At c i e
    → e.used ≡ false
    → IsFree (put_entry c i (record e { sector = no_sector })) i
put-IsFree c i e at unused = (
  record e { sector = no_sector },
  get_elem?-set_self c.cache_list i _ (lt-length_of_get_elem? c.cache_list i at),
  refl,
  unused,
)

-- Eviction returns a freed entry, and readers see no change.
abbrev pub Evicts : BufferCache → Outcome (ℕ × BufferCache) → Type 0
Evicts c r = (i : ℕ) × (c' : BufferCache) × (r ≡ ok (i, c')) × Keeps c c' × IsFree c' i

take_entry-Evicts :
    {c : BufferCache} (i : ℕ) (e : BufferBlock)
    → IsValid c
    → At c i e
    → e.used ≡ false
    → Evicts c (take_entry c i e)
unfolding take_entry
take_entry-Evicts {c} i e v at unused = elim (Bool-cases e.dirty) [
  | inl dirty ↦
      let (c', flushed, keeps, at', others) = flush-Keeps i e v at in
      let e' : BufferBlock = record e { dirty = false } in
      (
        i,
        put_entry c' i (record e' { sector = no_sector }),
        rw (dirty, flushed, entry_at_eq c' i at'),
        Keeps-trans keeps (free-Keeps i e' keeps.valid at' refl),
        put-IsFree c' i e' at' unused,
      )
  | inr clean ↦ (
    i,
    put_entry c i (record e { sector = no_sector }),
    simp (clean, entry_at_eq c i at),
    free-Keeps i e v at clean,
    put-IsFree c i e at unused,
  )
]

Evicts-after :
    {c c' : BufferCache} (r : Outcome (ℕ × BufferCache)) → Keeps c c' → Evicts c' r → Evicts c r
Evicts-after r k (i, c'', e, k', f) = (i, c'', e, Keeps-trans k k', f)

module _ {c : BufferCache} (fuel i : ℕ) (e : BufferBlock) (v : IsValid c) (at : At c i e) where
  -- One round of the loop.
  stop-Evicts : e.used ≡ false → Evicts c (evict_loop (suc fuel) i c)
  unfolding evict_loop
  stop-Evicts unused = simp (entry_at_eq c i at, unused) (take_entry-Evicts i e v at unused)

  skip_eq :
      e.used ≡ true
      → evict_loop (suc fuel) i c
        ≡ evict_loop fuel (next_entry c i) (put_entry c i (record e { used = false }))
  unfolding evict_loop
  skip_eq busy = rw (entry_at_eq c i at, busy)

next_entry-last : (c : BufferCache) (i : ℕ) → i + 1 ≡ length c.cache_list → next_entry c i ≡ 0
next_entry-last c i h = ground arith

next_entry-more : (c : BufferCache) (i : ℕ) → i + 1 ≢ length c.cache_list → next_entry c i ≡ i + 1
next_entry-more c i h = ground arith

-- The entry at the front has been marked unused.
abbrev FrontUnused : BufferCache → Type 0
FrontUnused c = (e : BufferBlock) × At c 0 e × (e.used ≡ false)

FrontUnused-put :
    (c : BufferCache) (i : ℕ) (e : BufferBlock)
    → At c i e
    → (i ≡ 0) ⊎ FrontUnused c
    → FrontUnused (put_entry c i (record e { used = false }))
FrontUnused-put c zero e at front = (
  record e { used = false },
  get_elem?-set_self c.cache_list 0 _ (lt-length_of_get_elem? c.cache_list 0 at),
  refl,
)
FrontUnused-put c (suc i) e at (inl z) = absurd (omega arith)
FrontUnused-put c (suc i) e at (inr (f, at', unused)) =
    (f, get_elem?-set_ne c.cache_list (suc i) 0 _ (omega arith) ∙ at', unused)

-- The same with a fuel that is positive, at the front.
wrap-Evicts :
    (fuel : ℕ) (c : BufferCache)
    → 0 < fuel
    → IsValid c
    → FrontUnused c
    → Evicts c (evict_loop fuel 0 c)
wrap-Evicts zero c h v front = absurd (omega arith)
wrap-Evicts (suc fuel) c h v (e, at, unused) = stop-Evicts fuel 0 e v at unused

-- With more fuel than entries from `i` on the scan ends, once the front has been passed.
evict_loop-Evicts :
    (fuel i : ℕ) (c : BufferCache)
    → IsValid c
    → i < length c.cache_list
    → length c.cache_list < i + fuel
    → (i ≡ 0) ⊎ FrontUnused c
    → Evicts c (evict_loop fuel i c)
evict_loop-Evicts zero i c v inside enough front = absurd (omega arith)
evict_loop-Evicts (suc fuel) i c v inside enough front =
    let rest = evict_loop-Evicts fuel in
    let (e, at) = get_elem?-lt c.cache_list i inside in
    elim (Bool-cases e.used) [
      | inl busy ↦
          let c' : BufferCache = put_entry c i (record e { used = false }) in
          let keeps : Keeps c c' = flags-Keeps i e v at false e.accessed in
          let front' : FrontUnused c' = FrontUnused-put c i e at front in
          rw (skip_eq fuel i e v at busy) (
            Evicts-after _ keeps (elim (ℕ_discrete (i + 1) (length c.cache_list)) [
              | yes last ↦
                  subst (λ p. Evicts c' (evict_loop fuel p c')) (sym (next_entry-last c i last))
                    (wrap-Evicts fuel c' (omega arith) keeps.valid front')
              | no more ↦
                  subst (λ p. Evicts c' (evict_loop fuel p c')) (sym (next_entry-more c i more))
                    (rest (i + 1) c' keeps.valid (omega (arith, keeps.length_eq))
                      (omega (arith, keeps.length_eq)) (inr front'))
            ]))
      | inr unused ↦ stop-Evicts fuel i e v at unused
    ]

-- On a valid cache, the clock stops within the two rounds. It gives an entry that is free and
-- clean, and no reader sees a change.
pub buffer_cache_evict-Evicts : (c : BufferCache) → IsValid c → Evicts c (buffer_cache_evict c)
unfolding buffer_cache_evict
buffer_cache_evict-Evicts c v =
    evict_loop-Evicts (length c.cache_list + 1) 0 c v v.nonempty (omega arith) (inl refl)
