-- ===== src/Tests/ThreadRuns.antt =====
-- Four threads: 0 runs, 1 is the idle thread, 2 is ready, 3 waits for semaphore 5.
use operating_system_pl_nt.Prelude.{
  ℕ, ◌≡◌, ◌⊎◌, refl, none, some, [], ◌∷◌, ◌++◌, ◌==◌, if◌then◌else◌, ok, arith,
}
use operating_system_pl_nt.Thread.{
  running, ready, blocked, outside, downing, Kernel, sema_down, sema_up,
}
use operating_system_pl_nt.Thread.Consistent.{IsConsistent}
use operating_system_pl_nt.Thread.Steps.{thread_yield-Stays}
use operating_system_pl_nt.Thread.Semaphores.{sema_up-Stays}
use operating_system_pl_nt.Thread.Downs.{Downs, sema_down-Downs}
use operating_system_pl_nt.Thread.Fair.{yields_of, yields_of-runs}
use operating_system_pl_nt.Thread.Reach.{yields, here, later, Reach, Reach-IsConsistent}

abbrev pub four : Kernel
four = record {
  status = λ t.
      if t == 0
      then some running
      else if t == 1
      then some blocked
      else if t == 2
      then some ready
      else if t == 3
      then some blocked
      else none;
  tid = λ t. t;
  priority = λ _. 31;
  pc = λ t. if t == 3 then downing 5 else outside;
  all_list = 0 ∷ 1 ∷ 2 ∷ 3 ∷ [];
  ready_list = 2 ∷ [];
  current = 0;
  idle_thread = 1;
  initial_thread = 0;
  thread_ticks = 0;
  next_tid = 5;
  sema = λ s. record { value = 0; waiters = if s == 5 then 3 ∷ [] else [] };
  holder = λ _. none;
  children = λ _. [];
}

four-IsConsistent : IsConsistent four
four-IsConsistent = record {
  filed = record {
    queue = λ t. ground arith;
    wait = λ s t. ground arith;
    idle_lives = refl;
    idle_stays = refl;
    idle_outside = refl;
  };
  runs = refl;
  only = λ t h. ground arith;
}

abbrev after_yield : Kernel
after_yield = (thread_yield-Stays four-IsConsistent).0

Reach-IsConsistent_example : IsConsistent after_yield
Reach-IsConsistent_example =
    Reach-IsConsistent four-IsConsistent
      (later here (yields (thread_yield-Stays four-IsConsistent).1))

sema_up-Stays_example :
    (k' : Kernel) × (sema_up 5 four ≡ ok k')
    × IsConsistent k'
    × ((k'.sema 5).value ≡ 1)
    × (((four.sema 5).waiters ≡ []) × (k'.ready_list ≡ four.ready_list)
        ⊎ ((t : ℕ) × ((four.sema 5).waiters ≡ t ∷ (k'.sema 5).waiters)
            × (k'.status t ≡ some ready)
            × (k'.ready_list ≡ four.ready_list ++ (t ∷ []))))
sema_up-Stays_example = sema_up-Stays 5 four-IsConsistent

sema_down-Downs_example : (k' : Kernel) × (sema_down 5 four ≡ ok k') × Downs 5 four k'
sema_down-Downs_example = sema_down-Downs 5 four-IsConsistent (omega arith)

yields_of-runs_example :
    (k' : Kernel) × (yields_of 1 four ≡ ok k')
    × (k'.current ≡ 2)
    × (k'.status 2 ≡ some running)
    × IsConsistent k'
yields_of-runs_example = yields_of-runs four [] [] 2 four-IsConsistent refl
