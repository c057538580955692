-- ===== src/Tests/TimerRuns.antt =====
-- Five threads: 0 runs, 1 is the idle thread, 2 is ready, 3 waits for semaphore 5, and 4 sleeps
-- until tick 9.
use operating_system_pl_nt.Prelude.{
  ◌+◌, ◌≡◌, refl, false, some, none, [], ◌∷◌, ◌==◌, if◌then◌else◌, ok, arith,
}
use operating_system_pl_nt.Thread.{running, ready, blocked, outside, downing, Kernel}
use operating_system_pl_nt.Thread.Consistent.{IsConsistent}
use operating_system_pl_nt.Timer.{Clock, timer_sleep, timer_interrupt}
use operating_system_pl_nt.Timer.Wakes.{IsClock, nil, cons, Woken, next_tick, timer_interrupt-Woken}
use operating_system_pl_nt.Timer.Sleeps.{Sleeping, timer_sleep-Sleeping}

abbrev five : Kernel
five = record {
  status = λ t.
      if t == 0
      then some running
      else if t == 1
      then some blocked
      else if t == 2
      then some ready
      else if t == 3
      then some blocked
      else if t == 4
      then some blocked
      else none;
  tid = λ t. t;
  priority = λ _. 31;
  pc = λ t. if t == 3 then downing 5 else outside;
  all_list = 0 ∷ 1 ∷ 2 ∷ 3 ∷ 4 ∷ [];
  ready_list = 2 ∷ [];
  current = 0;
  idle_thread = 1;
  initial_thread = 0;
  thread_ticks = 0;
  next_tid = 5;
  sema = λ s. record { value = 0; waiters = if s == 5 then 3 ∷ [] else [] };
  holder = λ _. none;
  children = λ _. [];
}

five-IsConsistent : IsConsistent five
five-IsConsistent = record {
  filed = record {
    queue = λ t. ground arith;
    wait = λ s t. ground arith;
    idle_lives = refl;
    idle_stays = refl;
    idle_outside = refl;
  };
  runs = refl;
  only = λ t h. ground arith;
}

abbrev noon : Clock
noon = record {
  kernel = five;
  ticks = 8;
  list_threads = 4 ∷ [];
  ticks_to_sleep = λ t. if t == 4 then 9 else 0;
  user = λ _. false;
  idle_ticks = 0;
  kernel_ticks = 8;
  user_ticks = 0;
  yield_on_return = false;
}

noon-IsClock : IsClock noon
noon-IsClock = record {
  consistent = five-IsConsistent;
  asleep = cons refl refl (omega arith) refl nil;
  sorted = cons (λ u there. absurd (there refl)) nil;
}

timer_interrupt-Woken_example :
    (c' : Clock) × (timer_interrupt noon ≡ ok c')
    × (c'.ticks ≡ 8 + 1)
    × Woken (4 ∷ []) (next_tick noon) c'
timer_interrupt-Woken_example = timer_interrupt-Woken noon noon-IsClock

timer_sleep-Sleeping_example : (c' : Clock) × (timer_sleep 8 3 noon ≡ ok c') × Sleeping 11 noon c'
timer_sleep-Sleeping_example = timer_sleep-Sleeping 8 3 noon noon-IsClock (omega arith) refl
