-- ===== src/Lock/Exclusion.antt =====
-- threads/synch.c: the release of a lock.
use mathlib.Core.Path.{subst}
use operating_system_pl_nt.Prelude.{
  ℕ, ◌≡◌, ◌≢◌, ◌⊎◌, inl, inr, refl, ◌∙◌, true, false, Option, none, some, update, update_self, ok,
  panic, Bool-cases, arith, eq→==,
}
use operating_system_pl_nt.Thread.{Kernel, sema_up}
use operating_system_pl_nt.Thread.Consistent.{IsConsistent}
use operating_system_pl_nt.Thread.Steps.{held-IsConsistent}
use operating_system_pl_nt.Thread.Semaphores.{sema_up-Stays}
use operating_system_pl_nt.Thread.Untouched.{Each, Each-map, Values, given, sema_up-Values}
use operating_system_pl_nt.Lock.{set_holder, same_thread, lock_held_by_current_thread, lock_release}

-- A lock is free and unheld, or taken and held.
abbrev pub IsLock : Kernel → ℕ → Type 0
IsLock k l =
    (((k.sema l).value ≡ 1) × (k.holder l ≡ none))
    ⊎ (((k.sema l).value ≡ 0) × ((t : ℕ) × (k.holder l ≡ some t)))

-- After the release of `l` by its holder.
abbrev pub Released : ℕ → Kernel → Kernel → Type 0
Released l k k' =
    (k.holder l ≡ some k.current)
    × IsLock k' l
    × (k'.holder l ≡ none)
    × ((m : ℕ) → m ≢ l → ((k'.sema m).value ≡ (k.sema m).value) × (k'.holder m ≡ k.holder m))

same_thread-some : (o : Option ℕ) (t : ℕ) → same_thread o t ≡ true → o ≡ some t
same_thread-some none t h = cc
same_thread-some (some u) t h = ground arith

holder-IsConsistent :
    {k : Kernel} (l : ℕ) (t : Option ℕ) → IsConsistent k → IsConsistent (set_holder l t k)
holder-IsConsistent {k} l t c = held-IsConsistent k (update k.holder l t) c

not_held :
    (l : ℕ) (k : Kernel) → k.holder l ≢ some k.current → lock_held_by_current_thread l k ≡ false
unfolding lock_held_by_current_thread
not_held l k n = elim (Bool-cases (same_thread (k.holder l) k.current)) [
  | inl held ↦ absurd (n (same_thread-some (k.holder l) k.current held))
  | inr other ↦ other
]

held_lem :
    (l : ℕ) (k : Kernel) → lock_held_by_current_thread l k ≡ true → k.holder l ≡ some k.current
unfolding lock_held_by_current_thread
held_lem l k h = same_thread-some (k.holder l) k.current h

held_value : (l : ℕ) (k : Kernel) {t : ℕ} → IsLock k l → k.holder l ≡ some t → (k.sema l).value ≡ 0
held_value l k (inl (one, free)) h = cc
held_value l k (inr (none_left, held)) h = none_left

released :
    (l : ℕ) (k : Kernel)
    → IsLock k l
    → lock_held_by_current_thread l k ≡ true
    → (k' : Kernel) → Values (set_holder l none k) (given l (set_holder l none k)) k'
    → Released l k k'
released l k is_lock held k' (value_eq, holder_eq) =
    let mine : k.holder l ≡ some k.current = held_lem l k held in
    let nobody : k'.holder l ≡ none = holder_eq l ∙ update_self k.holder l none in
    (
      mine,
      inl (ground (arith, value_eq l, held_value l k is_lock mine), nobody),
      nobody,
      (λ m n. (ground (arith, value_eq m), ground (arith, holder_eq m))),
    )

release-Each : (l : ℕ) (k : Kernel) → IsLock k l → Each (Released l k) (lock_release l k)
unfolding lock_release
release-Each l k is_lock = elim (Bool-cases (lock_held_by_current_thread l k)) [
  | inl held ↦
      let free : Kernel = set_holder l none k in
      rw held (
        Each-map (Values free (given l free)) (Released l k) (sema_up l free)
          (sema_up-Values l free) (released l k is_lock held))
  | inr other ↦ rw other tt
]

-- In a consistent kernel, the thread that holds a lock can release it: the call returns, nobody
-- holds the lock and it is free, no other lock changes, and the kernel is consistent. For any
-- other thread the call stops the kernel.
pub lock_release-Released :
    (k : Kernel) (l : ℕ)
    → IsConsistent k
    → IsLock k l
    → (k.holder l ≡ some k.current
        → (k' : Kernel) × (lock_release l k ≡ ok k') × IsConsistent k' × Released l k k')
      × (k.holder l ≢ some k.current → lock_release l k ≡ panic)
unfolding lock_release lock_held_by_current_thread
lock_release-Released k l c is_lock = (mine, λ n. simp (not_held l k n, lock_release))
  where
    mine :
        k.holder l ≡ some k.current
        → (k' : Kernel) × (lock_release l k ≡ ok k') × IsConsistent k' × Released l k k'
    mine h =
        let (k1, runs, c1, _, _) = sema_up-Stays l (holder-IsConsistent l none c) in
        let held : lock_held_by_current_thread l k ≡ true =
          simp (h, lock_held_by_current_thread) (eq→== k.current k.current refl) in
        let e : lock_release l k ≡ ok k1 = simp (held, lock_release, runs) in
        (k1, e, c1, subst (Each (Released l k)) e (release-Each l k is_lock))
