-- ===== src/Cache/Valid.antt =====
-- The invariant of the buffer cache, and the contents that it gives each sector. `Put` is the one
-- way in which the operations change the cache: they replace an entry, and the device may have
-- changed at that entry's sector.
use native.Mathlib.Decide.{ℕ_discrete}
use mathlib.Core.Path.{subst}
use operating_system_pl_nt.Prelude.{
  ℕ, zero, suc, ◌<◌, ◌≡◌, ◌≢◌, refl, sym, ◌∙◌, inl, inr, false, none, some, List, [], ◌∷◌, ◌==◌,
  length, get_elem?, length-set, get_elem?-set_self, get_elem?-set_ne, get_elem?-set_cases,
  lt-length_of_get_elem?, if◌then◌else◌, arith, Option-cases,
}
use operating_system_pl_nt.Block.{Block, Bytes, IsUsable, block_sector_size}
use operating_system_pl_nt.Cache.{BufferBlock, BufferCache, no_sector, buffer_cache_find, put_entry}

abbrev pub At : BufferCache → ℕ → BufferBlock → Type 0
At c i e = get_elem? c.cache_list i ≡ some e

-- No entry holds sector `t`.
abbrev pub Absent : BufferCache → ℕ → Type 0
Absent c t = (i : ℕ) (e : BufferBlock) → At c i e → e.sector ≢ t

pub record EntryIsOk (d : Block) (e : BufferBlock) : Type 0 where
  pub bound : e.sector ≢ no_sector → e.sector < d.size
  pub clean : e.sector ≢ no_sector → e.dirty ≡ false → e.buf ≡ d.medium e.sector
  pub free : e.sector ≡ no_sector → e.dirty ≡ false
  pub sized : length e.buf ≡ block_sector_size

pub record IsValid (c : BufferCache) : Type 0 where
  pub nonempty : 0 < length c.cache_list
  pub usable : IsUsable c.fs_device
  pub entries : (i : ℕ) (e : BufferBlock) → At c i e → EntryIsOk c.fs_device e
  pub distinct :
      (i j : ℕ) (e f : BufferBlock)
      → At c i e
      → At c j f
      → e.sector ≡ f.sector
      → e.sector ≢ no_sector
      → i ≡ j

-- What the file system reads in sector `t`: the cached copy, else the device's.
unfoldable pub view : BufferCache → ℕ → Bytes
view c t = elim (buffer_cache_find c.cache_list t) [
  | none ↦ c.fs_device.medium t
  | some i ↦ elim (get_elem? c.cache_list i) [ none ↦ c.fs_device.medium t | some e ↦ e.buf ]
]

-- What `buffer_cache_find` finds.
pub find-some :
    (es : List BufferBlock) (t i : ℕ)
    → buffer_cache_find es t ≡ some i
    → (e : BufferBlock) × (get_elem? es i ≡ some e) × (e.sector ≡ t)
unfolding buffer_cache_find
find-some [] t i h = cc
find-some (e ∷ es) t zero h = (e, refl, ground arith)
find-some (e ∷ es) t (suc i) h = find-some es t i (ground arith)

pub find-none :
    (es : List BufferBlock) (t : ℕ)
    → buffer_cache_find es t ≡ none
    → (i : ℕ) (e : BufferBlock) → get_elem? es i ≡ some e
    → e.sector ≢ t
unfolding buffer_cache_find
find-none [] t h i e at = cc
find-none (f ∷ es) t h zero e at = ground arith
find-none (f ∷ es) t h (suc i) e at = find-none es t (ground arith) i e at

-- The contents of a sector, by whether some entry holds it.
pub data Contents (c : BufferCache) (t : ℕ) : Type 0 where
  hit : (i : ℕ) (e : BufferBlock) → At c i e → e.sector ≡ t → view c t ≡ e.buf → Contents c t
  miss : Absent c t → view c t ≡ c.fs_device.medium t → Contents c t

pub view-cases : (c : BufferCache) (t : ℕ) → Contents c t
unfolding view
view-cases c t = elim (Option-cases (buffer_cache_find c.cache_list t)) [
  | inl h ↦ miss (find-none c.cache_list t h) (rw (h, view))
  | inr (i, h) ↦
      let (e, at, here) = find-some c.cache_list t i h in hit i e at here (rw (h, at, view))
]

module _ {c : BufferCache} (v : IsValid c) where
  pub view-hit :
      (i : ℕ) (e : BufferBlock) → At c i e → e.sector ≢ no_sector → view c e.sector ≡ e.buf
  view-hit i e at valid = elim (view-cases c e.sector) [
    | hit j f at' here shown ↦
        let same : j ≡ i = v.distinct j i f e at' at here (λ z. valid (sym here ∙ z)) in
        ground arith
    | miss absent shown ↦ absurd (absent i e at refl)
  ]

  pub view-miss : (t : ℕ) → Absent c t → view c t ≡ c.fs_device.medium t
  view-miss t absent = elim (view-cases c t) [
    | hit i e at here shown ↦ absurd (absent i e at here)
    | miss _ shown ↦ shown
  ]

-- The entry at `i` is replaced by `e'`, and the device by `d`, which may differ at the sector of
-- the old entry.
pub record IsPut (c : BufferCache) (i : ℕ) (e e' : BufferBlock) (d : Block) : Type 0 where
  pub at : At c i e
  pub usable : IsUsable d
  pub size : d.size ≡ c.fs_device.size
  pub same : (t : ℕ) → t ≢ e.sector → d.medium t ≡ c.fs_device.medium t
  pub entry : EntryIsOk d e'
  pub fresh :
      (j : ℕ) (f : BufferBlock) → At c j f → f.sector ≡ e'.sector → e'.sector ≢ no_sector → j ≡ i

abbrev pub after_put : BufferCache → ℕ → BufferBlock → Block → BufferCache
after_put c i e' d = put_entry (record c { fs_device = d }) i e'

module _ {c : BufferCache} {i : ℕ} {e e' : BufferBlock} {d : Block} (v : IsValid c)
    (p : IsPut c i e e' d) where
  At-put_self : At (after_put c i e' d) i e'
  At-put_self = get_elem?-set_self c.cache_list i e' (lt-length_of_get_elem? c.cache_list i p.at)

  other_entry : (j : ℕ) (f : BufferBlock) → j ≢ i → At c j f → EntryIsOk d f
  other_entry j f ne at = elim (ℕ_discrete f.sector no_sector) [
    | yes z ↦ record {
      bound = λ n. absurd (n z);
      clean = λ n. absurd (n z);
      free = (v.entries j f at).free;
      sized = (v.entries j f at).sized;
    }
    | no n ↦ record {
      bound = λ _. omega (arith, (v.entries j f at).bound n, p.size);
      clean = λ _ k.
          (v.entries j f at).clean n k
          ∙ sym (p.same f.sector (λ q. ne (v.distinct j i f e at p.at q n)));
      free = λ z. absurd (n z);
      sized = (v.entries j f at).sized;
    }
  ]

  distinct_put :
      (j k : ℕ) (f g : BufferBlock)
      → At (after_put c i e' d) j f
      → At (after_put c i e' d) k g
      → f.sector ≡ g.sector
      → f.sector ≢ no_sector
      → j ≡ k
  distinct_put j k f g at_j at_k same valid =
      elim (get_elem?-set_cases c.cache_list i j e' f at_j) [
        | inl (ji, fe) ↦ elim (get_elem?-set_cases c.cache_list i k e' g at_k) [
          | inl (ki, ge) ↦ ji ∙ sym ki
          | inr (ne, at) ↦ absurd (ne (p.fresh k g at (ground arith) (ground arith)))
        ]
        | inr (ne, at) ↦ elim (get_elem?-set_cases c.cache_list i k e' g at_k) [
          | inl (ki, ge) ↦ absurd (ne (p.fresh j f at (ground arith) (ground arith)))
          | inr (ne', at') ↦ v.distinct j k f g at at' same valid
        ]
      ]

  pub put-IsValid : IsValid (after_put c i e' d)
  put-IsValid = record {
    nonempty = omega (arith, length-set c.cache_list i e', v.nonempty);
    usable = p.usable;
    entries = λ j f at. elim (get_elem?-set_cases c.cache_list i j e' f at) [
      | inl q ↦ subst (EntryIsOk d) (sym q.1) p.entry
      | inr q ↦ other_entry j f q.0 q.1
    ];
    distinct = distinct_put;
  }

  -- Sector `t` is not the new entry's: what the old entry held is read from the device again.
  view-put_gone :
      (t : ℕ)
      → t ≢ no_sector
      → e'.sector ≢ t
      → e.sector ≡ t
      → view (after_put c i e' d) t ≡ d.medium t
  view-put_gone t valid moved here = view-miss put-IsValid t (λ j f at.
      elim (get_elem?-set_cases c.cache_list i j e' f at) [
        | inl (_, fe) ↦ λ z. moved (ground arith)
        | inr (ne, at') ↦
            λ z. ne (v.distinct j i f e at' p.at (z ∙ sym here) (λ y. valid (sym z ∙ y)))
      ])

  view-put_other :
      (t : ℕ)
      → t ≢ no_sector
      → e'.sector ≢ t
      → e.sector ≢ t
      → view (after_put c i e' d) t ≡ view c t
  view-put_other t valid moved away = elim (view-cases c t) [
    | hit j f at here shown ↦
        let ne : j ≢ i = λ ji. away (ground (arith, p.at)) in
        let at' : At (after_put c i e' d) j f =
          get_elem?-set_ne c.cache_list i j e' (λ ij. ne (sym ij)) ∙ at in
        subst (λ s. view (after_put c i e' d) s ≡ view c s) here
          (view-hit put-IsValid j f at' (λ z. valid (sym here ∙ z))
            ∙ sym (view-hit v j f at (λ z. valid (sym here ∙ z))))
    | miss absent shown ↦
        view-miss put-IsValid t (λ j f at. elim (get_elem?-set_cases c.cache_list i j e' f at) [
          | inl (_, fe) ↦ λ z. moved (ground arith)
          | inr (_, at') ↦ absent j f at'
        ])
        ∙ p.same t (λ z. away (sym z))
        ∙ sym shown
  ]

  pub view-put :
      (t : ℕ)
      → t ≢ no_sector
      → view (after_put c i e' d) t
        ≡ (if e'.sector == t then e'.buf else if e.sector == t then d.medium t else view c t)
  view-put t valid = elim (ℕ_discrete e'.sector t) [
    | yes here ↦ ground (arith, view-hit put-IsValid i e' At-put_self (λ z. valid (sym here ∙ z)))
    | no moved ↦ elim (ℕ_discrete e.sector t) [
      | yes gone ↦ ground (arith, view-put_gone t valid moved gone)
      | no away ↦ ground (arith, view-put_other t valid moved away)
    ]
  ]

-- A sector of the map has the size of a sector.
pub view-length : {c : BufferCache} (t : ℕ) → IsValid c → length (view c t) ≡ block_sector_size
unfolding view
view-length {c} t v = elim (Option-cases (buffer_cache_find c.cache_list t)) [
  | inl missing ↦ simp (missing, view, v.usable.whole t)
  | inr (i, found) ↦
      let (e, at, here) = find-some c.cache_list t i found in
      simp (found, at, view, (v.entries i e at).sized)
]
