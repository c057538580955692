-- ===== src/Thread/Schedule.antt =====
-- `schedule` always finds a thread to run, and leaves a consistent kernel.
use native.Mathlib.Decide.{ℕ_discrete}
use operating_system_pl_nt.Prelude.{
  ℕ, ◌≡◌, ◌≢◌, ◌⊎◌, inl, inr, refl, Bool, true, false, not, ◌&&◌, none, some, List, [], ◌∷◌, ◌==◌,
  if◌then◌else◌, arith, update, ok, Bool-cases, eq→==, ne→==,
}
use operating_system_pl_nt.Thread.{
  running, ready, blocked, dying, outside, Kernel, is, is_thread, set_status, next_thread_to_run,
  thread_schedule_tail, schedule,
}
use operating_system_pl_nt.Thread.Consistent.{count, once, waits, IsConsistent, IsParked}

-- `n` has been taken off the ready list, or is the idle thread, and becomes current.
record IsChosen (k : Kernel) (n : ℕ) : Type 0 where
  queue :
      (t : ℕ)
      → count t k.ready_list
        ≡ once (is ready (k.status t) && not (t == k.idle_thread) && not (t == n))
  wait : (s t : ℕ) → count t (k.sema s).waiters ≡ once (is blocked (k.status t) && waits s (k.pc t))
  idle_lives : is_thread (k.status k.idle_thread) ≡ true
  idle_stays : is dying (k.status k.idle_thread) ≡ false
  idle_outside : k.pc k.idle_thread ≡ outside
  nobody : (t : ℕ) → is running (k.status t) ≡ false
  lives : is_thread (k.status n) ≡ true
  free : (is ready (k.status n) ≡ true) ⊎ (n ≡ k.idle_thread)

abbrev switched : Kernel → ℕ → Kernel
switched k n = record k { status = update k.status n (some running); current = n; thread_ticks = 0 }

abbrev frees : Kernel → ℕ → ℕ → Bool
frees k n p = is dying (update k.status n (some running) p) && not (p == k.initial_thread)

module _ (k : Kernel) (n : ℕ) (c : IsChosen k n) where
  tail-none : IsConsistent (thread_schedule_tail none (record k { current = n }))
  unfolding thread_schedule_tail
  tail-none = record {
    filed = record {
      queue = λ t. ground (arith, c.queue t);
      wait = λ s t. ground (arith, c.wait s t);
      idle_lives = ground arith;
      idle_stays = ground arith;
      idle_outside = c.idle_outside;
    };
    runs = ground arith;
    only = λ t h. ground (arith, c.nobody t);
  }

  -- The page of a dying thread is freed.
  tail_freed :
      (p : ℕ)
      → p ≢ n
      → is dying (k.status p) ≡ true
      → IsConsistent (set_status (switched k n) p none)
  tail_freed p ne dies = record {
    filed = record {
      queue = λ t. ground (arith, c.queue t);
      wait = λ s t. ground (arith, c.wait s t);
      idle_lives = ground arith;
      idle_stays = ground arith;
      idle_outside = c.idle_outside;
    };
    runs = ground arith;
    only = λ t h. ground (arith, c.nobody t);
  }

  tail-some :
      (p : ℕ) → p ≢ n → IsConsistent (thread_schedule_tail (some p) (record k { current = n }))
  unfolding thread_schedule_tail
  tail-some p ne = elim (Bool-cases (frees k n p)) [
    | inl e ↦ rw e (tail_freed p ne (ground arith))
    | inr e ↦ rw e tail-none
  ]

  tail-IsConsistent :
      (cur : ℕ)
      → IsConsistent
          (thread_schedule_tail (if cur == n then none else some cur) (record k { current = n }))
  tail-IsConsistent cur = elim (ℕ_discrete cur n) [
    | yes e ↦ rw (eq→== cur n e) tail-none
    | no ne ↦ rw (ne→== cur n ne) (tail-some cur ne)
  ]

-- The next thread, as `next_thread_to_run` picks it.
choose :
    (k : Kernel)
    → IsParked k
    → (n : ℕ) × (k1 : Kernel) × (next_thread_to_run k ≡ (n, k1)) × IsChosen k1 n
unfolding next_thread_to_run
choose k p = go k.ready_list (p.filed.queue)
  where
    go :
        (ts : List ℕ)
        → ((t : ℕ) → count t ts ≡ once (is ready (k.status t) && not (t == k.idle_thread)))
        → (n : ℕ) × (k1 : Kernel) × (next_thread_to_run (record k { ready_list = ts }) ≡ (n, k1))
          × IsChosen k1 n
    go [] q = (
      k.idle_thread,
      record k { ready_list = [] },
      refl,
      record {
        queue = λ u. ground (arith, q u);
        wait = p.filed.wait;
        idle_lives = p.filed.idle_lives;
        idle_stays = p.filed.idle_stays;
        idle_outside = p.filed.idle_outside;
        nobody = p.nobody;
        lives = p.filed.idle_lives;
        free = inr refl;
      },
    )
    go (t ∷ ts) q = (
      t,
      record k { ready_list = ts },
      refl,
      record {
        queue = λ u. ground (arith, q u);
        wait = p.filed.wait;
        idle_lives = p.filed.idle_lives;
        idle_stays = p.filed.idle_stays;
        idle_outside = p.filed.idle_outside;
        nobody = p.nobody;
        lives = ground (arith, q t);
        free = inl (ground (arith, q t));
      },
    )

-- Once the current thread has left the running state, `schedule` returns with some other, or the
-- same, thread running, and the lists right.
pub schedule-IsConsistent :
    (k : Kernel) → IsParked k → (k' : Kernel) × (schedule k ≡ ok k') × IsConsistent k'
unfolding schedule
schedule-IsConsistent k p =
    let (n, k1, picks, c) = choose k p in
    (
      thread_schedule_tail (if k.current == n then none else some k.current)
          (record k1 { current = n }),
      simp (picks, p.nobody k.current, c.lives),
      tail-IsConsistent k1 n c k.current,
    )
