-- ===== src/Lock.antt =====
-- threads/synch.c: locks, on the semaphores of Thread. Lock `l` is semaphore `l` with a holder. A
-- thread that finds the lock taken waits in `sema_down`, and goes through `lock_acquire` again
-- when it runs. Each function is one step, as it is where interrupts are off (devices/intq.c) or
-- nothing preempts it: between the semaphore and the holder, a thread that calls with interrupts on
-- can be preempted. Thread.Reach has the two as steps of their own.
pub mod Exclusion
use operating_system_pl_nt.Prelude.{
  ℕ, Bool, true, false, not, Option, none, some, [], ltb, ◌==◌, if◌then◌else◌, update, Outcome, ok,
  ◌>>=◌, ◌>>◌, assert,
}
use operating_system_pl_nt.Thread.{Semaphore, Kernel, put_sema, sema_down, sema_try_down, sema_up}

pub sema_init : ℕ → ℕ → Kernel → Kernel
sema_init s value k = put_sema k s (record { value = value; waiters = [] })

abbrev pub set_holder : ℕ → Option ℕ → Kernel → Kernel
set_holder l t k = record k { holder = update k.holder l t }

unfoldable pub lock_init : ℕ → Kernel → Kernel
unfolding sema_init
lock_init l k = sema_init l 1 (set_holder l none k)

abbrev pub same_thread : Option ℕ → ℕ → Bool
same_thread none t = false
same_thread (some u) t = u == t

unfoldable pub lock_held_by_current_thread : ℕ → Kernel → Bool
lock_held_by_current_thread l k = same_thread (k.holder l) k.current

-- One round: the current thread gets the lock, or waits.
unfoldable pub lock_acquire : ℕ → Kernel → Outcome Kernel
unfolding lock_held_by_current_thread
lock_acquire l k = do
  assert (not (lock_held_by_current_thread l k))
  k' ← sema_down l k
  ok (if ltb 0 (k.sema l).value then set_holder l (some k.current) k' else k')

unfoldable pub lock_try_acquire : ℕ → Kernel → Outcome (Bool × Kernel)
lock_try_acquire l k = do
  assert (not (lock_held_by_current_thread l k))
  let (success, k') = sema_try_down l k
  ok (success, if success then set_holder l (some k.current) k' else k')

unfoldable pub lock_release : ℕ → Kernel → Outcome Kernel
lock_release l k = do assert (lock_held_by_current_thread l k); sema_up l (set_holder l none k)
