-- ===== src/Timer.antt =====
-- devices/timer.c: sleeping threads, and threads/thread.c: the tick. `list_threads` is a list;
-- Links shows what the calls of list.c do. Times and the numbers of ticks to sleep are not
-- negative, and stay in the range of `int64_t`.
pub mod Wakes
pub mod Sleeps
use operating_system_pl_nt.Prelude.{
  ℕ, zero, suc, ◌+◌, ◌==◌, Bool, true, false, Option, none, some, List, [], ◌∷◌, ltb, leb,
  if◌then◌else◌, update, Outcome, ok, ◌>>=◌,
}
use operating_system_pl_nt.Thread.{Kernel, thread_block, thread_unblock}

-- TIME_SLICE
abbrev pub time_slice : ℕ
time_slice = 4

-- `ticks`, `list_threads`, the field `ticks_to_sleep` of each thread, and the statistics of
-- thread.c; `user` says which threads have a page directory, and `yield_on_return` is set by
-- `intr_yield_on_return`.
pub record Clock : Type 0 where
  pub kernel : Kernel
  pub ticks : ℕ
  pub list_threads : List ℕ
  pub ticks_to_sleep : ℕ → ℕ
  pub user : ℕ → Bool
  pub idle_ticks : ℕ
  pub kernel_ticks : ℕ
  pub user_ticks : ℕ
  pub yield_on_return : Bool

abbrev pub is_less_than : Clock → ℕ → ℕ → Bool
is_less_than c x y = ltb (c.ticks_to_sleep x) (c.ticks_to_sleep y)

-- `list_insert_ordered`
abbrev pub insert_ordered : (ℕ → ℕ → Bool) → ℕ → List ℕ → List ℕ
insert_ordered less e [] = e ∷ []
insert_ordered less e (x ∷ xs) = if less e x then e ∷ x ∷ xs else x ∷ insert_ordered less e xs

-- The current thread sleeps for `n` ticks; `timer_ticks` returned `now`. That call comes before
-- interrupts are off, so that ticks may pass, and other threads run, between it and the rest of the
-- function, which is one step.
unfoldable pub timer_sleep : ℕ → ℕ → Clock → Outcome Clock
timer_sleep now n c = do
  let t = c.kernel.current
  let c : Clock = record c { ticks_to_sleep = update c.ticks_to_sleep t (now + n) }
  let c : Clock = record c { list_threads = insert_ordered (is_less_than c) t c.list_threads }
  k ← thread_block c.kernel
  ok (record c { kernel = k })

-- Each tick counts for the idle thread, for a user program or for the kernel.
unfoldable pub thread_tick : Clock → Clock
thread_tick c =
    let t = c.kernel.current in
    let idle = t == c.kernel.idle_thread in
    let n = c.kernel.thread_ticks + 1 in
    record c {
      idle_ticks = if idle then c.idle_ticks + 1 else c.idle_ticks;
      user_ticks =
          if idle then c.user_ticks else (if c.user t then c.user_ticks + 1 else c.user_ticks);
      kernel_ticks =
          if idle
          then c.kernel_ticks
          else (if c.user t then c.kernel_ticks else c.kernel_ticks + 1);
      kernel = record c.kernel { thread_ticks = n };
      yield_on_return = if leb time_slice n then true else c.yield_on_return;
    }

-- the loop of `timer_interrupt`, over the threads that are on the list
unfoldable pub wake_loop : List ℕ → Clock → Outcome Clock
wake_loop [] c = ok (record c { list_threads = [] })
wake_loop (t ∷ ts) c =
    if ltb c.ticks (c.ticks_to_sleep t) then ok (record c { list_threads = t ∷ ts }) else (do
      k ← thread_unblock t c.kernel
      wake_loop ts (record c { kernel = k; list_threads = ts }))

unfoldable pub timer_interrupt : Clock → Outcome Clock
timer_interrupt c = do
  let c = thread_tick (record c { ticks = c.ticks + 1 })
  wake_loop c.list_threads c
