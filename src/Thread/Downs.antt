-- ===== src/Thread/Downs.antt =====
-- threads/synch.c, `sema_down`: who gets the semaphore, and who waits for it.
use mathlib.Core.Path.{subst}
use operating_system_pl_nt.Prelude.{ℕ, ◌≡◌, ◌≢◌, refl, ◌∙◌, some, ok, arith, eq→==, ne→==}
use operating_system_pl_nt.Thread.{blocked, outside, downing, Kernel, thread_block, sema_down}
use operating_system_pl_nt.Thread.Consistent.{IsConsistent, count}
use operating_system_pl_nt.Thread.Semaphores.{sema_down-Stays}
use operating_system_pl_nt.Thread.Untouched.{Each, Values, taken, waiting, sema_down-Values}
use operating_system_pl_nt.Thread.Rests.{Rested, schedule-Rested}

-- What a round of `sema_down` of `s` by the running thread comes to.
pub record Downs (s : ℕ) (k k' : Kernel) : Type 0 where
  pub consistent : IsConsistent k'
  pub values : Values k (taken s k) k'
  pub got : (k.sema s).value ≢ 0 → (k'.current ≡ k.current) × (k'.pc k.current ≡ outside)
  pub waits :
      (k.sema s).value ≡ 0
      → (k'.status k.current ≡ some blocked)
        × (k'.pc k.current ≡ downing s)
        × (count k.current (k'.sema s).waiters ≡ 1)

module _ {k : Kernel} (s : ℕ) (c : IsConsistent k) (busy : k.current ≢ k.idle_thread) where
  got_lem :
      (k.sema s).value ≢ 0
      → Each (λ k'. (k'.current ≡ k.current) × (k'.pc k.current ≡ outside)) (sema_down s k)
  unfolding sema_down
  got_lem left = rw (ne→== (k.sema s).value 0 left) (refl, ground arith)

  rests_lem : (k.sema s).value ≡ 0 → Each (Rested (waiting s k)) (sema_down s k)
  unfolding sema_down thread_block
  rests_lem none_left = rw (eq→== (k.sema s).value 0 none_left) (schedule-Rested (waiting s k))

  -- In a consistent kernel, a round of `sema_down` by a thread other than the idle thread ends in a
  -- consistent kernel, and changes no value of another semaphore and no holder of a lock. Where the
  -- semaphore's value is not 0, it is one less and the thread goes on. Where it is 0, it stays, and
  -- the thread is blocked in `sema_down` and once on the list of the waiters.
  pub sema_down-Downs : (k' : Kernel) × (sema_down s k ≡ ok k') × Downs s k k'
  sema_down-Downs =
      let (k', runs, c') = sema_down-Stays s c busy in
      (
        k',
        runs,
        record {
          consistent = c';
          values = subst (Each (Values k (taken s k))) runs (sema_down-Values s k);
          got = λ left.
              subst (Each (λ k'. (k'.current ≡ k.current) × (k'.pc k.current ≡ outside))) runs
                (got_lem left);
          waits = λ none_left.
              let r : Rested (waiting s k) k' =
                subst (Each (Rested (waiting s k))) runs (rests_lem none_left) in
              let asleep : k'.status k.current ≡ some blocked =
                r.blocked_eq k.current (ground arith) busy
                  (ground (arith, c.filed.queue k.current, c.runs)) in
              let place : k'.pc k.current ≡ downing s = r.pc_eq k.current ∙ ground arith in
              (asleep, place, ground (arith, c'.filed.wait s k.current, asleep, place));
        },
      )
