-- ===== src/Thread/Reach.antt =====
-- The system as a whole: the steps that the running thread can take, and what holds in every state
-- that they lead to.
use mathlib.Core.Path.{subst}
use operating_system_pl_nt.Prelude.{
  ℕ, ◌≤◌, ◌≡◌, ◌≢◌, sym, ◌∙◌, Option, none, some, [], ◌∷◌, ◌++◌, update, ok, ok-injective, Outcome,
}
use operating_system_pl_nt.Thread.{
  blocked, outside, Kernel, thread_block, thread_unblock, init_thread, allocate_tid, add_child,
  thread_yield, thread_exit, sema_down, sema_try_down, sema_up, pri_max,
}
use operating_system_pl_nt.Thread.Consistent.{IsConsistent}
use operating_system_pl_nt.Thread.Steps.{
  Stays, thread_yield-Stays, thread_exit-Stays, thread_block-Stays, parked-Stays, unblocked,
  unblock_lem, counted-IsConsistent, held-IsConsistent, init_thread-Stays,
}
use operating_system_pl_nt.Thread.Semaphores.{
  sema_down-Stays, sema_up-Stays, sema_try_down-IsConsistent,
}

-- One step of the running thread, or of an interrupt handler on its behalf: what is done with
-- interrupts off, at one go. A timer interrupt that ends a time slice is a `yields`; a waiter that
-- runs again goes through `downs`, as does a first call. `blocks` is a thread that waits outside
-- any semaphore, for the timer or a queue, and `counts` is the count of a tick. The last four are
-- the parts of locks and of `thread_create`.
pub data Step (k : Kernel) : Kernel → Type 0 where
  yields : {k' : Kernel} → thread_yield k ≡ ok k' → Step k k'
  exits : {k' : Kernel} → k.current ≢ k.idle_thread → thread_exit k ≡ ok k' → Step k k'
  idles : {k' : Kernel} → k.current ≡ k.idle_thread → thread_block k ≡ ok k' → Step k k'
  blocks : {k' : Kernel} → k.pc k.current ≡ outside → thread_block k ≡ ok k' → Step k k'
  unblocks :
      {k' : Kernel} (t : ℕ)
      → k.pc t ≡ outside
      → t ≢ k.idle_thread
      → k.status t ≡ some blocked
      → thread_unblock t k ≡ ok k'
      → Step k k'
  downs : {k' : Kernel} (s : ℕ) → k.current ≢ k.idle_thread → sema_down s k ≡ ok k' → Step k k'
  tries : {k' : Kernel} (s : ℕ) → (sema_try_down s k).1 ≡ k' → Step k k'
  ups : {k' : Kernel} (s : ℕ) → sema_up s k ≡ ok k' → Step k k'
  counts : (ticks : ℕ) → Step k (record k { thread_ticks = ticks })
  holds : (holder : ℕ → Option ℕ) → Step k (record k { holder = holder })
  inits :
      {k' : Kernel} (t priority : ℕ)
      → k.status t ≡ none
      → priority ≤ pri_max
      → init_thread t priority k ≡ ok k'
      → Step k k'
  numbers : (t : ℕ) → Step k (allocate_tid t k)
  adopts : (tid : ℕ) → Step k (add_child tid k)

pub data Reach (k : Kernel) : Kernel → Type 0 where
  here : Reach k k
  later : {k1 k2 : Kernel} → Reach k k1 → Step k1 k2 → Reach k k2

stays : {r : Outcome Kernel} {k' : Kernel} → Stays r → r ≡ ok k' → IsConsistent k'
stays (k1, e, c) h = subst IsConsistent (ok-injective (sym e ∙ h)) c

numbered-IsConsistent : {k : Kernel} (t : ℕ) → IsConsistent k → IsConsistent (allocate_tid t k)
unfolding allocate_tid
numbered-IsConsistent t c = record {
  filed = record {
    queue = c.filed.queue;
    wait = c.filed.wait;
    idle_lives = c.filed.idle_lives;
    idle_stays = c.filed.idle_stays;
    idle_outside = c.filed.idle_outside;
  };
  runs = c.runs;
  only = c.only;
}

adopted-IsConsistent : {k : Kernel} (tid : ℕ) → IsConsistent k → IsConsistent (add_child tid k)
unfolding add_child
adopted-IsConsistent tid c = record {
  filed = record {
    queue = c.filed.queue;
    wait = c.filed.wait;
    idle_lives = c.filed.idle_lives;
    idle_stays = c.filed.idle_stays;
    idle_outside = c.filed.idle_outside;
  };
  runs = c.runs;
  only = c.only;
}

thread_block-outside :
    {k : Kernel} → IsConsistent k → k.pc k.current ≡ outside → Stays (thread_block k)
unfolding thread_block
thread_block-outside {k} c out = parked-Stays k c out

Step-IsConsistent : {k k' : Kernel} → Step k k' → IsConsistent k → IsConsistent k'
Step-IsConsistent (yields e) c = stays (thread_yield-Stays c) e
Step-IsConsistent (exits busy e) c = stays (thread_exit-Stays c busy) e
Step-IsConsistent (idles idle e) c = stays (thread_block-Stays c idle) e
Step-IsConsistent (blocks out e) c = stays (thread_block-outside c out) e
Step-IsConsistent {k} (unblocks t out busy asleep e) c =
    let (runs, c1) = unblock_lem k t c asleep out busy in stays (unblocked k t, runs, c1) e
Step-IsConsistent (downs s busy e) c = stays (sema_down-Stays s c busy) e
Step-IsConsistent (tries s e) c = subst IsConsistent e (sema_try_down-IsConsistent s c)
Step-IsConsistent (ups s e) c =
    let (k1, runs, c1, value, woken) = sema_up-Stays s c in stays (k1, runs, c1) e
Step-IsConsistent {k} (counts ticks) c = counted-IsConsistent k ticks c
Step-IsConsistent {k} (holds holder) c = held-IsConsistent k holder c
Step-IsConsistent {k} (inits t priority empty legal e) c =
    stays (init_thread-Stays k t priority c empty legal) e
Step-IsConsistent (numbers t) c = numbered-IsConsistent t c
Step-IsConsistent (adopts tid) c = adopted-IsConsistent tid c

-- In any order of these steps, from a consistent kernel: `thread_yield`, `thread_exit`,
-- `sema_down`, `sema_try_down`, `sema_up`, a block or an unblock outside any semaphore, the count
-- of ticks, the holders of locks, and the parts of `thread_create`. Exactly one thread runs; a
-- thread is on the ready list just when it is ready and not the idle thread, and then once; and a
-- thread is on a semaphore's list just when it is blocked in `sema_down` of that semaphore, and
-- then once.
pub Reach-IsConsistent : {k k' : Kernel} → IsConsistent k → Reach k k' → IsConsistent k'
Reach-IsConsistent c here = c
Reach-IsConsistent c (later r st) = Step-IsConsistent st (Reach-IsConsistent c r)

-- The kernel after the parts of `thread_create` before `thread_unblock`.
abbrev born : Kernel → ℕ → ℕ → Kernel
born k t priority = record k {
  status = update k.status t (some blocked);
  priority = update k.priority t priority;
  pc = update k.pc t outside;
  all_list = k.all_list ++ (t ∷ []);
  children = update k.children t [];
}
