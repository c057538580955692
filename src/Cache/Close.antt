-- ===== src/Cache/Close.antt =====
-- `buffer_cache_close`: afterwards the device holds what readers saw.
use native.Mathlib.Decide.{ℕ_discrete}
use operating_system_pl_nt.Prelude.{
  ℕ, zero, suc, ◌+◌, ◌<◌, ◌≡◌, ◌≢◌, refl, sym, ◌∙◌, false, length, get_elem?-lt, ok, arith, Outcome,
  eq→==, ne→==, ap, get_elem?, some, lt-length_of_get_elem?,
}
use operating_system_pl_nt.Cache.{
  BufferBlock, BufferCache, no_sector, buffer_cache_close, close_loop,
}
use operating_system_pl_nt.Cache.Valid.{At, IsValid, view, view-cases, hit, miss}
use operating_system_pl_nt.Cache.Keeps.{Keeps, Keeps-refl, Keeps-trans, entry_at_eq, flush-Keeps}
use operating_system_pl_nt.Cache.Gets.{in_range, Same, Keeps→Same}

-- No entry before `i` waits to be written back.
abbrev CleanBelow : BufferCache → ℕ → Type 0
CleanBelow c i =
    (j : ℕ) (e : BufferBlock) → j < i → At c j e → e.sector ≢ no_sector → e.dirty ≡ false

CleanBelow-suc :
    (c c' : BufferCache) (i : ℕ) (e : BufferBlock)
    → At c' i e
    → (e.sector ≢ no_sector → e.dirty ≡ false)
    → ((j : ℕ) (f : BufferBlock) → j ≢ i → At c' j f → At c j f)
    → CleanBelow c i
    → CleanBelow c' (i + 1)
CleanBelow-suc c c' i e at clean others below j f lt at' valid = elim (ℕ_discrete j i) [
  | yes here ↦
      let same : some f ≡ some e = sym at' ∙ ap (get_elem? c'.cache_list) here ∙ at in
      let fe : f ≡ e = cc same in
      ap BufferBlock.dirty fe ∙ clean (λ z. valid (ap BufferBlock.sector fe ∙ z))
  | no ne ↦ below j f (omega arith) (others j f ne at') valid
]

-- The rest of the loop returns, unseen by readers, and leaves every entry clean.
abbrev Closes : BufferCache → Outcome BufferCache → Type 0
Closes c r = (c' : BufferCache) × (r ≡ ok c') × Keeps c c' × CleanBelow c' (length c'.cache_list)

-- One round, from the entry at `i` and the rounds that follow.
close_round :
    (n i : ℕ) (c : BufferCache) (e : BufferBlock)
    → IsValid c
    → At c i e
    → CleanBelow c i
    → ((c1 : BufferCache)
        → IsValid c1
        → length c1.cache_list ≡ length c.cache_list
        → CleanBelow c1 (i + 1)
        → Closes c1 (close_loop n (i + 1) c1))
    → Closes c (close_loop (suc n) i c)
unfolding close_loop
close_round n i c e v at below rest = elim (ℕ_discrete e.sector no_sector) [
  | yes free ↦
      let (c', runs, keeps, clean) =
        rest c v refl
          (CleanBelow-suc c c i e at (λ z. absurd (z free)) (λ j f ne at'. at') below) in
      (c', simp (entry_at_eq c i at, eq→== e.sector no_sector free, runs), keeps, clean)
  | no held ↦
      let (c1, flushed, keeps, at1, others) = flush-Keeps i e v at in
      let (c', runs, keeps', clean) =
        rest c1 keeps.valid keeps.length_eq
          (CleanBelow-suc c c1 i (record e { dirty = false }) at1 (λ _. refl) others below) in
      (
        c',
        simp (entry_at_eq c i at, ne→== e.sector no_sector held, flushed, runs),
        Keeps-trans keeps keeps',
        clean,
      )
]

close_loop-Closes :
    (n i : ℕ) (c : BufferCache)
    → IsValid c
    → i + n ≡ length c.cache_list
    → CleanBelow c i
    → Closes c (close_loop n i c)
unfolding close_loop
close_loop-Closes zero i c v len below =
    (c, refl, Keeps-refl v, λ j e lt at. below j e (omega (arith, len)) at)
close_loop-Closes (suc n) i c v len below =
    let rest = close_loop-Closes n (i + 1) in
    let (e, at) = get_elem?-lt c.cache_list i (omega arith) in
    close_round n i c e v at below (λ c1 v1 same clean. rest c1 v1 (omega arith) clean)

-- Closing the cache returns, shows readers the same contents, and leaves those contents on the
-- device, at every one of its sectors.
pub buffer_cache_close-durable :
    {c : BufferCache}
    → IsValid c
    → (c' : BufferCache) × (buffer_cache_close c ≡ ok c')
      × Same c c'
      × ((t : ℕ) → t < c.fs_device.size → c'.fs_device.medium t ≡ view c t)
unfolding buffer_cache_close
buffer_cache_close-durable {c} v =
    let (c', runs, keeps, clean) =
      close_loop-Closes (length c.cache_list) 0 c v (omega arith)
        (λ j e lt. absurd (omega arith)) in
    (
      c',
      runs,
      Keeps→Same keeps,
      λ t bound.
          let n : t ≢ no_sector = in_range t v bound in
          elim (view-cases c' t) [
            | hit i e at here shown ↦
                let valid : e.sector ≢ no_sector = λ z. n (sym here ∙ z) in
                let stored : e.buf ≡ c'.fs_device.medium e.sector =
                  (keeps.valid.entries i e at).clean valid
                    (clean i e (lt-length_of_get_elem? c'.cache_list i at) at valid) in
                ap c'.fs_device.medium (sym here) ∙ sym stored ∙ sym shown ∙ keeps.view_eq t n
            | miss _ shown ↦ sym shown ∙ keeps.view_eq t n
          ],
    )
