-- ===== src/Thread/Steps.antt =====
-- Every operation of the scheduler and of semaphores keeps the kernel consistent.
use native.Mathlib.Decide.{ℕ_discrete}
use operating_system_pl_nt.Prelude.{
  ℕ, ◌≤◌, ◌≡◌, ◌≢◌, true, Option, none, some, [], ◌∷◌, ◌++◌, leb, update, arith, ok, Outcome, eq→==,
  ne→==,
}
use operating_system_pl_nt.Thread.{
  blocked, ready, outside, Kernel, schedule, thread_block, thread_unblock, thread_yield,
  thread_exit, pri_max, init_thread,
}
use operating_system_pl_nt.Thread.Consistent.{count-append, IsConsistent}
use operating_system_pl_nt.Thread.Schedule.{schedule-IsConsistent}

-- The call returns, in a consistent kernel.
abbrev pub Stays : Outcome Kernel → Type 0
Stays r = (k' : Kernel) × (r ≡ ok k') × IsConsistent k'

module _ {k : Kernel} (c : IsConsistent k) where
  -- `thread_yield`, by the idle thread and by any other
  pub thread_yield-Stays : Stays (thread_yield k)
  unfolding thread_yield
  thread_yield-Stays = elim (ℕ_discrete k.current k.idle_thread) [
    | yes e ↦ rw (eq→== k.current k.idle_thread e) (
        schedule-IsConsistent _ (record {
          filed = record {
            queue = λ t. ground (arith, c.filed.queue t, c.runs);
            wait = λ s t. ground (arith, c.filed.wait s t, c.runs);
            idle_lives = ground arith;
            idle_stays = ground arith;
            idle_outside = c.filed.idle_outside;
          };
          nobody = λ t. ground (arith, c.only t);
          known = ground arith;
        }))
    | no ne ↦ rw (ne→== k.current k.idle_thread ne) (
        schedule-IsConsistent _ (record {
          filed = record {
            queue =
                λ t. ground (arith, c.filed.queue t, c.runs, count-append t k.current k.ready_list);
            wait = λ s t. ground (arith, c.filed.wait s t, c.runs);
            idle_lives = ground (arith, c.filed.idle_lives);
            idle_stays = ground (arith, c.filed.idle_stays);
            idle_outside = c.filed.idle_outside;
          };
          nobody = λ t. ground (arith, c.only t);
          known = ground arith;
        }))
  ]

  -- the current thread blocks with a place to wait, or is the idle thread, which needs none
  pub thread_exit-Stays : k.current ≢ k.idle_thread → Stays (thread_exit k)
  unfolding thread_exit
  thread_exit-Stays busy = schedule-IsConsistent _ (record {
    filed = record {
      queue = λ t. ground (arith, c.filed.queue t, c.runs);
      wait = λ s t. ground (arith, c.filed.wait s t, c.runs);
      idle_lives = ground (arith, c.filed.idle_lives);
      idle_stays = ground (arith, c.filed.idle_stays);
      idle_outside = c.filed.idle_outside;
    };
    nobody = λ t. ground (arith, c.only t);
    known = ground arith;
  })

  -- the idle thread's own loop
  pub thread_block-Stays : k.current ≡ k.idle_thread → Stays (thread_block k)
  unfolding thread_block
  thread_block-Stays idle = schedule-IsConsistent _ (record {
    filed = record {
      queue = λ t. ground (arith, c.filed.queue t, c.runs);
      wait = λ s t. ground (arith, c.filed.wait s t, c.runs, c.filed.idle_outside);
      idle_lives = ground (arith, c.filed.idle_lives);
      idle_stays = ground (arith, c.filed.idle_stays);
      idle_outside = c.filed.idle_outside;
    };
    nobody = λ t. ground (arith, c.only t);
    known = ground arith;
  })

-- a thread that is not in `sema_down` blocks: it is on no list of this module
abbrev pub parked : Kernel → Kernel
parked k = record k { status = update k.status k.current (some blocked) }

pub parked-Stays :
    (k : Kernel) → IsConsistent k → k.pc k.current ≡ outside → Stays (schedule (parked k))
parked-Stays k c out = schedule-IsConsistent _ (record {
  filed = record {
    queue = λ t. ground (arith, c.filed.queue t, c.runs);
    wait = λ s t. ground (arith, c.filed.wait s t, c.runs, out);
    idle_lives = ground (arith, c.filed.idle_lives);
    idle_stays = ground (arith, c.filed.idle_stays);
    idle_outside = c.filed.idle_outside;
  };
  nobody = λ t. ground (arith, c.only t);
  known = ground arith;
})

unfoldable pub unblocked : Kernel → ℕ → Kernel
unblocked k t = record k {
  ready_list = k.ready_list ++ (t ∷ []);
  status = update k.status t (some ready);
}

pub unblock_lem :
    (k : Kernel) (t : ℕ)
    → IsConsistent k
    → k.status t ≡ some blocked
    → k.pc t ≡ outside
    → t ≢ k.idle_thread
    → (thread_unblock t k ≡ ok (unblocked k t)) × IsConsistent (unblocked k t)
unfolding thread_unblock unblocked
unblock_lem k t c asleep free busy = (
  simp (asleep, thread_unblock),
  record {
    filed = record {
      queue = λ u. ground (arith, c.filed.queue u, count-append u t k.ready_list, asleep, busy);
      wait = λ s u. ground (arith, c.filed.wait s u, asleep, free);
      idle_lives = ground (arith, c.filed.idle_lives);
      idle_stays = ground (arith, c.filed.idle_stays);
      idle_outside = c.filed.idle_outside;
    };
    runs = ground (arith, c.runs, asleep);
    only = λ u h. ground (arith, c.only u, h);
  },
)

pub counted-IsConsistent :
    (k : Kernel) (n : ℕ) → IsConsistent k → IsConsistent (record k { thread_ticks = n })
counted-IsConsistent k n c = record {
  filed = record {
    queue = c.filed.queue;
    wait = c.filed.wait;
    idle_lives = c.filed.idle_lives;
    idle_stays = c.filed.idle_stays;
    idle_outside = c.filed.idle_outside;
  };
  runs = c.runs;
  only = c.only;
}

pub held-IsConsistent :
    (k : Kernel) (h : ℕ → Option ℕ) → IsConsistent k → IsConsistent (record k { holder = h })
held-IsConsistent k h c = record {
  filed = record {
    queue = c.filed.queue;
    wait = c.filed.wait;
    idle_lives = c.filed.idle_lives;
    idle_stays = c.filed.idle_stays;
    idle_outside = c.filed.idle_outside;
  };
  runs = c.runs;
  only = c.only;
}

-- A page that held no thread holds a blocked one, which is on no list yet.
pub init_thread-Stays :
    (k : Kernel) (t priority : ℕ)
    → IsConsistent k
    → k.status t ≡ none
    → priority ≤ pri_max
    → Stays (init_thread t priority k)
unfolding init_thread
init_thread-Stays k t priority c empty legal = (
  record k {
    status = update k.status t (some blocked);
    priority = update k.priority t priority;
    pc = update k.pc t outside;
    all_list = k.all_list ++ (t ∷ []);
    children = update k.children t [];
  },
  (let legal' : leb priority pri_max ≡ true = ground arith in simp legal'),
  record {
    filed = record {
      queue = λ u. ground (arith, c.filed.queue u, c.filed.idle_lives, empty);
      wait = λ s u. ground (arith, c.filed.wait s u, empty);
      idle_lives = ground (arith, c.filed.idle_lives);
      idle_stays = ground (arith, c.filed.idle_stays);
      idle_outside = ground (arith, c.filed.idle_outside);
    };
    runs = ground (arith, c.runs, empty);
    only = λ u h. ground (arith, c.only u, h);
  },
)
