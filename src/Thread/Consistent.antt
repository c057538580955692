-- ===== src/Thread/Consistent.antt =====
-- What the scheduler's lists say of the threads, and the reverse: thread.h's rule that a thread's
-- one `elem` is in the run queue or in a semaphore's wait list, by its status.
use operating_system_pl_nt.Prelude.{
  ℕ, suc, ◌+◌, ◌≡◌, Bool, true, false, not, ◌&&◌, some, List, [], ◌∷◌, ◌++◌, ◌==◌, if◌then◌else◌,
  arith,
}
use operating_system_pl_nt.Thread.{
  running, ready, blocked, dying, Pc, outside, downing, Kernel, is, is_thread,
}

abbrev pub count : ℕ → List ℕ → ℕ
count t [] = 0
count t (u ∷ us) = if u == t then suc (count t us) else count t us

pub count-append :
    (t u : ℕ) (us : List ℕ) → count t (us ++ (u ∷ [])) ≡ count t us + (if u == t then 1 else 0)
count-append t u [] = ground arith
count-append t u (v ∷ us) = ground (arith, count-append t u us)

abbrev pub once : Bool → ℕ
once b = if b then 1 else 0

-- Whether a thread waits for semaphore `s`.
abbrev pub waits : ℕ → Pc → Bool
waits s outside = false
waits s (downing r) = r == s

-- Each thread stands exactly once on the list that its status calls for, and on no other.
pub record IsFiled (k : Kernel) : Type 0 where
  pub queue :
      (t : ℕ) → count t k.ready_list ≡ once (is ready (k.status t) && not (t == k.idle_thread))
  pub wait :
      (s t : ℕ) → count t (k.sema s).waiters ≡ once (is blocked (k.status t) && waits s (k.pc t))
  pub idle_lives : is_thread (k.status k.idle_thread) ≡ true
  pub idle_stays : is dying (k.status k.idle_thread) ≡ false
  pub idle_outside : k.pc k.idle_thread ≡ outside

-- Between steps exactly the current thread runs.
pub record IsConsistent (k : Kernel) : Type 0 where
  pub filed : IsFiled k
  pub runs : k.status k.current ≡ some running
  pub only : (t : ℕ) → is running (k.status t) ≡ true → t ≡ k.current

-- What `schedule` finds: the current thread has been given another status.
pub record IsParked (k : Kernel) : Type 0 where
  pub filed : IsFiled k
  pub nobody : (t : ℕ) → is running (k.status t) ≡ false
  pub known : is_thread (k.status k.current) ≡ true
