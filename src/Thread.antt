-- ===== src/Thread.antt =====
-- threads/thread.c and threads/synch.c on one processor. A function that runs with interrupts off
-- is one step; `thread_create` runs with them on, and Thread.Reach has its parts as steps. A thread
-- that waits in the loop of `sema_down` keeps that in its `pc`; the scheduler switches to another
-- thread, and the loop goes on when the waiter runs again.
pub mod Consistent
pub mod Schedule
pub mod Steps
pub mod Semaphores
pub mod Reach
pub mod Untouched
pub mod Fair
pub mod Rests
pub mod Downs
use operating_system_pl_nt.Prelude.{
  ℕ, suc, ◌+◌, ◌-◌, ◌%◌, ◌^◌, Bool, true, false, not, ◌&&◌, Option, none, some, List, [], ◌∷◌, ◌++◌,
  leb, ltb, ◌==◌, if◌then◌else◌, update, Outcome, ok, panic, ◌>>=◌, ◌>>◌, assert,
}

-- `enum thread_status`
pub data Status : Type 0 where
  running ready blocked dying : Status

-- Where a thread stands: outside the functions of synch.c, or in the loop of `sema_down`.
pub data Pc : Type 0 where
  outside : Pc
  downing : ℕ → Pc

-- `struct semaphore`
pub record Semaphore : Type 0 where
  pub value : ℕ
  pub waiters : List ℕ

-- The variables of thread.c and the fields of `struct thread` that it uses, by the thread's
-- address; an address with no status holds no thread. `children` has the tids on `child_list`.
-- Semaphores and locks are numbered: lock `l` is semaphore `l` with a holder.
pub record Kernel : Type 0 where
  pub status : ℕ → Option Status
  pub tid : ℕ → ℕ
  pub priority : ℕ → ℕ
  pub pc : ℕ → Pc
  pub all_list : List ℕ
  pub ready_list : List ℕ
  pub current : ℕ
  pub idle_thread : ℕ
  pub initial_thread : ℕ
  pub thread_ticks : ℕ
  pub next_tid : ℕ
  pub sema : ℕ → Semaphore
  pub holder : ℕ → Option ℕ
  pub children : ℕ → List ℕ

abbrev pub is : Status → Option Status → Bool
is s none = false
is running (some running) = true
is running (some _) = false
is ready (some ready) = true
is ready (some _) = false
is blocked (some blocked) = true
is blocked (some _) = false
is dying (some dying) = true
is dying (some _) = false

abbrev pub is_thread : Option Status → Bool
is_thread none = false
is_thread (some _) = true

abbrev pub set_status : Kernel → ℕ → Option Status → Kernel
set_status k t s = record k { status = update k.status t s }

abbrev pub remove : ℕ → List ℕ → List ℕ
remove t [] = []
remove t (u ∷ us) = if u == t then us else u ∷ remove t us

-- The next thread, off the ready list; the idle thread if that is empty.
next_from : Kernel → List ℕ → ℕ × Kernel
next_from k [] = (k.idle_thread, k)
next_from k (t ∷ ts) = (t, record k { ready_list = ts })

pub next_thread_to_run : Kernel → ℕ × Kernel
unfolding next_from
next_thread_to_run k = next_from k k.ready_list

-- `none` is a null `prev`. A dying thread's page is freed.
pub thread_schedule_tail : Option ℕ → Kernel → Kernel
thread_schedule_tail prev k =
    let k1 : Kernel = record k {
      status = update k.status k.current (some running);
      thread_ticks = 0;
    } in
    elim prev [
      | none ↦ k1
      | some p ↦
          if is dying (k1.status p) && not (p == k1.initial_thread)
          then set_status k1 p none
          else k1
    ]

pub schedule : Kernel → Outcome Kernel
unfolding next_thread_to_run thread_schedule_tail
schedule k = do
  let (next, k1) = next_thread_to_run k
  assert (not (is running (k.status k.current)))
  assert (is_thread (k1.status next))
  ok (
      thread_schedule_tail (if k.current == next then none else some k.current)
        (record k1 { current = next }))

unfoldable pub thread_block : Kernel → Outcome Kernel
thread_block k = schedule (set_status k k.current (some blocked))

unfoldable pub thread_unblock : ℕ → Kernel → Outcome Kernel
thread_unblock t k = do
  assert (is_thread (k.status t))
  assert (is blocked (k.status t))
  ok (record k { ready_list = k.ready_list ++ (t ∷ []); status = update k.status t (some ready) })

unfoldable pub thread_yield : Kernel → Outcome Kernel
thread_yield k =
    let k1 : Kernel =
      if not (k.current == k.idle_thread)
      then record k { ready_list = k.ready_list ++ (k.current ∷ []) }
      else k in
    schedule (set_status k1 k1.current (some ready))

-- after `process_exit`
pub thread_exit : Kernel → Outcome Kernel
thread_exit k =
    schedule
      (set_status (record k { all_list = remove k.current k.all_list }) k.current (some dying))

abbrev pub pri_max : ℕ
pri_max = 63

-- `init_thread` for the page at `t`; priorities are unsigned here, so PRI_MIN is no test.
unfoldable pub init_thread : ℕ → ℕ → Kernel → Outcome Kernel
init_thread t priority k = do
  assert (leb priority pri_max)
  ok (record k {
    status = update k.status t (some blocked);
    priority = update k.priority t priority;
    pc = update k.pc t outside;
    all_list = k.all_list ++ (t ∷ []);
    children = update k.children t [];
  })

-- With `tid_lock` free: a caller that finds it taken waits for it first, as in Lock.
unfoldable pub allocate_tid : ℕ → Kernel → Kernel
allocate_tid t k = record k { tid = update k.tid t k.next_tid; next_tid = k.next_tid + 1 }

-- `list_push_back (&thread_current ()->child_list, &c_t->child_elem)`
unfoldable pub add_child : ℕ → Kernel → Kernel
add_child tid k = record k {
  children = update k.children k.current (k.children k.current ++ (tid ∷ []));
}

-- `thread_create` where nothing preempts it, with the page that `palloc_get_page` returns and
-- whether `malloc` finds memory for the child, which the source does not test; the result is the
-- new tid, or TID_ERROR as `none`. The stack frames and the fields `parent`, `child_loaded`,
-- `exit_status`, `child_done` and `fd_ct` are left out.
unfoldable pub thread_create : Option ℕ → Bool → ℕ → Kernel → Outcome (Option ℕ × Kernel)
unfolding init_thread allocate_tid add_child
thread_create none child priority k = ok (none, k)
thread_create (some t) child priority k = do
  k ← init_thread t priority k
  let k = allocate_tid t k
  assert child
  let k = add_child (k.tid t) k
  k' ← thread_unblock t k
  ok (some (k.tid t), k')

abbrev pub put_sema : Kernel → ℕ → Semaphore → Kernel
put_sema k s v = record k { sema = update k.sema s v }

-- One round of the loop of `sema_down`: the current thread blocks, or takes the semaphore and is
-- done.
pub sema_down : ℕ → Kernel → Outcome Kernel
sema_down s k =
    let v = k.sema s in
    if v.value == 0
    then thread_block (
        put_sema (record k { pc = update k.pc k.current (downing s) }) s
          (record v { waiters = v.waiters ++ (k.current ∷ []) }))
    else ok (
        put_sema (record k { pc = update k.pc k.current outside }) s
          (record v { value = v.value - 1 }))

pub sema_try_down : ℕ → Kernel → Bool × Kernel
sema_try_down s k =
    let v = k.sema s in
    if ltb 0 v.value then (true, put_sema k s (record v { value = v.value - 1 })) else (false, k)

pub wake : ℕ → Semaphore → List ℕ → Kernel → Outcome Kernel
wake s v [] k = ok k
wake s v (t ∷ ts) k = thread_unblock t (put_sema k s (record v { waiters = ts }))

pub sema_up : ℕ → Kernel → Outcome Kernel
unfolding wake
sema_up s k = do
  k ← wake s (k.sema s) (k.sema s).waiters k
  ok (put_sema k s (record (k.sema s) { value = ((k.sema s).value + 1) % 2 ^ 32 }))
