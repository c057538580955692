-- ===== src/Cache/Gets.antt =====
-- The entry that a read or a write of a sector works on: found, or loaded into a freed entry.
use operating_system_pl_nt.Prelude.{
  ℕ, ◌<◌, ◌≡◌, ◌≢◌, refl, ◌∙◌, inl, inr, false, length, get_elem?-set_self, lt-length_of_get_elem?,
  length-set, Option-cases, Outcome, ok, arith,
}
use operating_system_pl_nt.Block.{counted, counted-IsUsable, block_read-ok}
use operating_system_pl_nt.Cache.{
  BufferBlock, BufferCache, no_sector, buffer_cache_find, entry_at, load_entry, entry_to_read,
  entry_to_write,
}
use operating_system_pl_nt.Cache.Valid.{
  At, Absent, IsValid, view, view-miss, IsPut, after_put, put-IsValid, view-put, find-some,
  find-none,
}
use operating_system_pl_nt.Cache.Keeps.{Keeps, entry_at_eq}
use operating_system_pl_nt.Cache.Evict.{buffer_cache_evict-Evicts}

-- Readers of sectors see no difference.
pub record Same (c c' : BufferCache) : Type 0 where
  pub valid : IsValid c'
  pub length_eq : length c'.cache_list ≡ length c.cache_list
  pub size_eq : c'.fs_device.size ≡ c.fs_device.size
  pub view_eq : (t : ℕ) → t ≢ no_sector → view c' t ≡ view c t

pub Keeps→Same : {c c' : BufferCache} → Keeps c c' → Same c c'
Keeps→Same k = record {
  valid = k.valid;
  length_eq = k.length_eq;
  size_eq = k.size_eq;
  view_eq = k.view_eq;
}

pub Same-trans : {c c' c'' : BufferCache} → Same c c' → Same c' c'' → Same c c''
Same-trans k l = record {
  valid = l.valid;
  length_eq = l.length_eq ∙ k.length_eq;
  size_eq = l.size_eq ∙ k.size_eq;
  view_eq = λ t n. l.view_eq t n ∙ k.view_eq t n;
}

pub Same-refl : {c : BufferCache} → IsValid c → Same c c
Same-refl v = record { valid = v; length_eq = refl; size_eq = refl; view_eq = λ t _. refl }

pub in_range : {c : BufferCache} (s : ℕ) → IsValid c → s < c.fs_device.size → s ≢ no_sector
in_range s v h z = absurd (omega (arith, v.usable.small))

-- Sector `s` comes into the freed entry `i`.
module _ {c : BufferCache} (i s : ℕ) (e : BufferBlock) (v : IsValid c) (at : At c i e)
    (room : e.sector ≡ no_sector) (absent : Absent c s) (bound : s < c.fs_device.size) where
  abbrev loaded : BufferBlock
  loaded = record e { buf = c.fs_device.medium s; sector = s; dirty = false }

  load-IsPut : IsPut c i e loaded (counted c.fs_device)
  load-IsPut = record {
    at = at;
    usable = counted-IsUsable v.usable;
    size = refl;
    same = λ t _. refl;
    entry = record {
      bound = λ _. bound;
      clean = λ _ _. refl;
      free = λ _. refl;
      sized = v.usable.whole s;
    };
    fresh = λ j f at' q _. absurd (absent j f at' q);
  }

  load_entry-Same : (c' : BufferCache) × (load_entry c i s ≡ ok c') × Same c c' × At c' i loaded
  unfolding load_entry entry_at
  load_entry-Same = (
    after_put c i loaded (counted c.fs_device),
    simp (
      block_read-ok c.fs_device s bound,
      entry_at_eq (record c { fs_device = counted c.fs_device }) i at,
    ),
    record {
      valid = put-IsValid v load-IsPut;
      length_eq = length-set c.cache_list i loaded;
      size_eq = refl;
      view_eq = λ t n. ground (arith, view-put v load-IsPut t n, view-miss v s absent);
    },
    get_elem?-set_self c.cache_list i loaded (lt-length_of_get_elem? c.cache_list i at),
  )

-- The entry for sector `s` that a read or a write works on.
abbrev pub Gets : BufferCache → ℕ → Outcome (ℕ × BufferCache) → Type 0
Gets c s r =
    (i : ℕ) × (c' : BufferCache) × (e : BufferBlock) × (r ≡ ok (i, c'))
    × Same c c'
    × At c' i e
    × (e.sector ≡ s)

module _ {c : BufferCache} (s : ℕ) (v : IsValid c) (bound : s < c.fs_device.size) where
  pub entry_to_read-Gets : Gets c s (entry_to_read c s)
  unfolding entry_to_read
  entry_to_read-Gets = elim (Option-cases (buffer_cache_find c.cache_list s)) [
    | inr (i, found) ↦
        let (e, at, here) = find-some c.cache_list s i found in
        (i, c, e, simp (found, entry_to_read), Same-refl v, at, here)
    | inl missing ↦
        let (i, c1, evicted, keeps, (e, at, room, unused)) = buffer_cache_evict-Evicts c v in
        let (c2, loads, same, at') =
          load_entry-Same i s e keeps.valid at room
            (keeps.absent s (in_range s v bound) (find-none c.cache_list s missing))
            (omega (arith, keeps.size_eq)) in
        (
          i,
          c2,
          _,
          simp (missing, entry_to_read, evicted, loads),
          Same-trans (Keeps→Same keeps) same,
          at',
          refl,
        )
  ]

  pub entry_to_write-Gets : Gets c s (entry_to_write c s)
  unfolding entry_to_write
  entry_to_write-Gets = elim (Option-cases (buffer_cache_find c.cache_list s)) [
    | inr (i, found) ↦
        let (e, at, here) = find-some c.cache_list s i found in
        (i, c, e, simp (found, entry_to_write), Same-refl v, at, here)
    | inl missing ↦
        let (i, c1, evicted, keeps, (e, at, room, unused)) = buffer_cache_evict-Evicts c v in
        let (c2, loads, same, at') =
          load_entry-Same i s e keeps.valid at room
            (keeps.absent s (in_range s v bound) (find-none c.cache_list s missing))
            (omega (arith, keeps.size_eq)) in
        (
          i,
          c2,
          _,
          simp (missing, entry_to_write, evicted, entry_at_eq c1 i at, unused, loads),
          Same-trans (Keeps→Same keeps) same,
          at',
          refl,
        )
  ]
