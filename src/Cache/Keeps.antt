-- ===== src/Cache/Keeps.antt =====
-- The steps of the buffer cache that no reader of sectors sees: flags, write-back, freeing an
-- entry.
use mathlib.Core.Path.{subst}
use operating_system_pl_nt.Prelude.{
  ℕ, update, ◌≡◌, ◌≢◌, refl, sym, ◌∙◌, ◌⊎◌, inl, inr, Bool, true, false, length, length-set,
  get_elem?-set_self, get_elem?-set_ne, lt-length_of_get_elem?, get_elem?-set_cases, Bool-cases, ok,
  arith,
}
use operating_system_pl_nt.Block.{Block, IsUsable, written, written-IsUsable, block_write-ok}
use operating_system_pl_nt.Cache.{
  BufferBlock, BufferCache, no_sector, put_entry, entry_at, buffer_cache_flush,
}
use operating_system_pl_nt.Cache.Valid.{
  At, Absent, EntryIsOk, IsValid, view, IsPut, after_put, put-IsValid, view-put, view-hit,
}

-- What housekeeping leaves alone: nobody who reads sectors sees it.
pub record Keeps (c c' : BufferCache) : Type 0 where
  pub valid : IsValid c'
  pub length_eq : length c'.cache_list ≡ length c.cache_list
  pub size_eq : c'.fs_device.size ≡ c.fs_device.size
  pub view_eq : (t : ℕ) → t ≢ no_sector → view c' t ≡ view c t
  pub absent : (t : ℕ) → t ≢ no_sector → Absent c t → Absent c' t

pub Keeps-trans : {c c' c'' : BufferCache} → Keeps c c' → Keeps c' c'' → Keeps c c''
Keeps-trans k l = record {
  valid = l.valid;
  length_eq = l.length_eq ∙ k.length_eq;
  size_eq = l.size_eq ∙ k.size_eq;
  view_eq = λ t n. l.view_eq t n ∙ k.view_eq t n;
  absent = λ t n a. l.absent t n (k.absent t n a);
}

pub Keeps-refl : {c : BufferCache} → IsValid c → Keeps c c
Keeps-refl v = record {
  valid = v;
  length_eq = refl;
  size_eq = refl;
  view_eq = λ t _. refl;
  absent = λ t _ a. a;
}

pub entry_at_eq : (c : BufferCache) (i : ℕ) {e : BufferBlock} → At c i e → entry_at c i ≡ ok e
unfolding entry_at
entry_at_eq c i at = rw (at, entry_at)

-- A replacement that keeps the sector, or drops it from the cache, and shows the same contents.
put-Keeps :
    {c : BufferCache} {i : ℕ} {e e' : BufferBlock} {d : Block}
    → IsValid c
    → IsPut c i e e' d
    → (e'.sector ≡ e.sector) ⊎ (e'.sector ≡ no_sector)
    → ((t : ℕ) → t ≢ no_sector → view (after_put c i e' d) t ≡ view c t)
    → Keeps c (after_put c i e' d)
put-Keeps {c} {i} {e} {e'} v p stays shown = record {
  valid = put-IsValid v p;
  length_eq = length-set c.cache_list i e';
  size_eq = p.size;
  view_eq = shown;
  absent = λ t n a j f at. elim (get_elem?-set_cases c.cache_list i j e' f at) [
    | inl (_, fe) ↦
        λ z. elim stays [ inl kept ↦ a i e p.at (ground arith) | inr dropped ↦ n (ground arith) ]
    | inr (_, at') ↦ a j f at'
  ];
}

module _ {c : BufferCache} (i : ℕ) (e : BufferBlock) (v : IsValid c) (at : At c i e) where
  pub view-at : (t : ℕ) → t ≢ no_sector → e.sector ≡ t → view c t ≡ e.buf
  view-at t n here = subst (λ s. view c s ≡ e.buf) here (view-hit v i e at (λ z. n (sym here ∙ z)))

  -- Only flags change.
  flags-IsPut :
      (used accessed : Bool)
      → IsPut c i e (record e { used = used; accessed = accessed }) c.fs_device
  flags-IsPut used accessed = record {
    at = at;
    usable = v.usable;
    size = refl;
    same = λ t _. refl;
    entry = record {
      bound = ok_entry.bound;
      clean = ok_entry.clean;
      free = ok_entry.free;
      sized = ok_entry.sized;
    };
    fresh = λ j f at' q n. v.distinct j i f e at' at q (λ z. n (sym q ∙ z));
  }
    where
      ok_entry : EntryIsOk c.fs_device e
      ok_entry = v.entries i e at

  pub flags-Keeps :
      (used accessed : Bool)
      → Keeps c (put_entry c i (record e { used = used; accessed = accessed }))
  flags-Keeps used accessed =
      put-Keeps v (flags-IsPut used accessed) (inl refl)
        (λ t n. ground (arith, view-put v (flags-IsPut used accessed) t n, view-at t n))

  -- The entry is written back.
  clean-IsPut :
      (d : Block)
      → e.sector ≢ no_sector
      → IsUsable d
      → d.size ≡ c.fs_device.size
      → d.medium ≡ update c.fs_device.medium e.sector e.buf
      → IsPut c i e (record e { dirty = false }) d
  clean-IsPut d n usable size written = record {
    at = at;
    usable = usable;
    size = size;
    same = λ t ne. rw written (ground arith);
    entry = record {
      bound = λ _. omega (arith, (v.entries i e at).bound n, size);
      clean = λ _ _. rw written (ground arith);
      free = λ _. refl;
      sized = (v.entries i e at).sized;
    };
    fresh = λ j f at' q n. v.distinct j i f e at' at q (λ z. n (sym q ∙ z));
  }

  -- The entry, which is clean, is freed.
  free-IsPut : e.dirty ≡ false → IsPut c i e (record e { sector = no_sector }) c.fs_device
  free-IsPut clean = record {
    at = at;
    usable = v.usable;
    size = refl;
    same = λ t _. refl;
    entry = record {
      bound = λ n. absurd (n refl);
      clean = λ n. absurd (n refl);
      free = λ _. clean;
      sized = (v.entries i e at).sized;
    };
    fresh = λ j f at' q n. absurd (n refl);
  }

  pub free-Keeps : e.dirty ≡ false → Keeps c (put_entry c i (record e { sector = no_sector }))
  free-Keeps clean = put-Keeps v (free-IsPut clean) (inr refl) (λ t n.
      ground (arith, view-put v (free-IsPut clean) t n, view-at t n, (v.entries i e at).clean))

  dirty_sector : e.dirty ≡ true → e.sector ≢ no_sector
  dirty_sector dirty z = cc ((v.entries i e at).free z)

  -- `buffer_cache_flush` returns, leaves the entry clean, and touches no other.
  pub flush-Keeps :
      (c' : BufferCache) × (buffer_cache_flush c i ≡ ok c')
      × Keeps c c'
      × At c' i (record e { dirty = false })
      × ((j : ℕ) (f : BufferBlock) → j ≢ i → At c' j f → At c j f)
  unfolding buffer_cache_flush
  flush-Keeps = elim (Bool-cases e.dirty) [
    | inl dirty ↦
        let valid : e.sector ≢ no_sector = dirty_sector dirty in
        let d : Block = written c.fs_device e.sector e.buf in
        let put : IsPut c i e (record e { dirty = false }) d =
          clean-IsPut d valid (written-IsUsable e.sector e.buf v.usable (v.entries i e at).sized)
            refl refl in
        (
          after_put c i (record e { dirty = false }) d,
          rw (
            entry_at_eq c i at,
            dirty,
            block_write-ok c.fs_device e.sector e.buf v.usable ((v.entries i e at).bound valid),
          ),
          put-Keeps v put (inl refl) (λ t n. ground (arith, view-put v put t n, view-at t n)),
          get_elem?-set_self c.cache_list i (record e { dirty = false })
              (lt-length_of_get_elem? c.cache_list i at),
          λ j f ne at'. sym (get_elem?-set_ne c.cache_list i j _ (λ z. ne (sym z))) ∙ at',
        )
    | inr clean ↦
        (c, rw (entry_at_eq c i at, clean), Keeps-refl v, ground (arith, at), λ j f ne at'. at')
  ]
