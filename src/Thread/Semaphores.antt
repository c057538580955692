-- ===== src/Thread/Semaphores.antt =====
-- threads/synch.c: semaphores keep the kernel consistent; who is woken, and in which order.
use native.Mathlib.Decide.{ℕ_discrete}
use operating_system_pl_nt.Prelude.{
  ℕ, suc, ◌+◌, ◌-◌, ◌%◌, ◌^◌, ◌≡◌, ◌≢◌, ◌⊎◌, inl, inr, refl, sym, ap, ◌∙◌, true, ◌&&◌, some, List,
  [], ◌∷◌, ◌++◌, ◌==◌, if◌then◌else◌, arith, update, ok, Bool-cases, eq→==, ne→==, ltb,
}
use operating_system_pl_nt.Thread.{
  ready, blocked, Kernel, is, is_thread, thread_block, thread_unblock, sema_down, sema_try_down,
  sema_up, wake, put_sema,
}
use operating_system_pl_nt.Thread.Consistent.{count, count-append, once, waits, IsConsistent}
use operating_system_pl_nt.Thread.Schedule.{schedule-IsConsistent}
use operating_system_pl_nt.Thread.Steps.{Stays}

-- Only the value of a semaphore changes.
value-IsConsistent :
    {k : Kernel} (s v : ℕ)
    → IsConsistent k
    → IsConsistent (put_sema k s (record (k.sema s) { value = v }))
value-IsConsistent {k} s v c = record {
  filed = record {
    queue = c.filed.queue;
    wait = λ r t. ground (arith, c.filed.wait r t);
    idle_lives = c.filed.idle_lives;
    idle_stays = c.filed.idle_stays;
    idle_outside = c.filed.idle_outside;
  };
  runs = c.runs;
  only = c.only;
}

pub sema_down-Stays :
    {k : Kernel} (s : ℕ) → IsConsistent k → k.current ≢ k.idle_thread → Stays (sema_down s k)
unfolding sema_down thread_block
sema_down-Stays {k} s c busy = elim (ℕ_discrete (k.sema s).value 0) [
  | yes none_left ↦ rw (eq→== (k.sema s).value 0 none_left) (
      schedule-IsConsistent _ (record {
        filed = record {
          queue = λ t. ground (arith, c.filed.queue t, c.runs);
          wait = λ r t.
              ground (arith, c.filed.wait r t, c.runs, count-append t k.current (k.sema r).waiters);
          idle_lives = ground (arith, c.filed.idle_lives);
          idle_stays = ground (arith, c.filed.idle_stays);
          idle_outside = ground (arith, c.filed.idle_outside);
        };
        nobody = λ t. ground (arith, c.only t);
        known = ground arith;
      }))
  | no some_left ↦ rw (ne→== (k.sema s).value 0 some_left) (
    _,
    refl,
    record {
      filed = record {
        queue = c.filed.queue;
        wait = λ r t. ground (arith, c.filed.wait r t, c.runs);
        idle_lives = c.filed.idle_lives;
        idle_stays = c.filed.idle_stays;
        idle_outside = ground (arith, c.filed.idle_outside);
      };
      runs = c.runs;
      only = c.only;
    },
  )
]

known : (k : Kernel) (t : ℕ) → is blocked (k.status t) ≡ true → is_thread (k.status t) ≡ true
known k t h = ground arith

-- The first waiter goes from the semaphore's list to the end of the ready list.
abbrev woken : Kernel → ℕ → ℕ → List ℕ → Kernel
woken k s t ts =
    let k1 : Kernel = put_sema k s (record (k.sema s) { waiters = ts }) in
    record k1 { ready_list = k1.ready_list ++ (t ∷ []); status = update k1.status t (some ready) }

woken-IsConsistent :
    (k : Kernel) (s t : ℕ) (ts : List ℕ)
    → IsConsistent k
    → (k.sema s).waiters ≡ t ∷ ts
    → (is blocked (k.status t) ≡ true) × IsConsistent (woken k s t ts)
woken-IsConsistent k s t ts c first = (
  asleep,
  record {
    filed = record {
      queue = λ u.
          ground
            (arith, c.filed.queue u, listed u, asleep, not_idle, count-append u t k.ready_list);
      wait = λ r u. ground (arith, c.filed.wait r u, listed u, asleep);
      idle_lives = ground (arith, c.filed.idle_lives);
      idle_stays = ground (arith, c.filed.idle_stays);
      idle_outside = c.filed.idle_outside;
    };
    runs = ground (arith, c.runs, asleep);
    only = λ u h. ground (arith, c.only u);
  },
)
  where
    listed :
        (u : ℕ)
        → (if t == u then suc (count u ts) else count u ts)
          ≡ once (is blocked (k.status u) && waits s (k.pc u))
    listed u = sym (ap (count u) first) ∙ c.filed.wait s u

    asleep : is blocked (k.status t) ≡ true
    asleep = ground (arith, listed t)

    not_idle : t ≢ k.idle_thread
    not_idle e = absurd (ground (arith, listed t, c.filed.idle_outside))

-- `sema_up` returns in a consistent kernel. The semaphore's value is one more; its first waiter, if
-- there is one, becomes ready behind all ready threads, and no other waiter moves.
pub sema_up-Stays :
    {k : Kernel} (s : ℕ)
    → IsConsistent k
    → (k' : Kernel) × (sema_up s k ≡ ok k')
      × IsConsistent k'
      × ((k'.sema s).value ≡ ((k.sema s).value + 1) % 2 ^ 32)
      × (((k.sema s).waiters ≡ []) × (k'.ready_list ≡ k.ready_list)
          ⊎ ((t : ℕ) × ((k.sema s).waiters ≡ t ∷ (k'.sema s).waiters)
              × (k'.status t ≡ some ready)
              × (k'.ready_list ≡ k.ready_list ++ (t ∷ []))))
unfolding sema_up wake thread_unblock
sema_up-Stays {k} s c = go (k.sema s).waiters refl
  where
    v' : ℕ
    v' = ((k.sema s).value + 1) % 2 ^ 32

    go :
        (ws : List ℕ)
        → (k.sema s).waiters ≡ ws
        → (k' : Kernel) × (sema_up s k ≡ ok k')
          × IsConsistent k'
          × ((k'.sema s).value ≡ v')
          × (((k.sema s).waiters ≡ []) × (k'.ready_list ≡ k.ready_list)
              ⊎ ((t : ℕ) × ((k.sema s).waiters ≡ t ∷ (k'.sema s).waiters)
                  × (k'.status t ≡ some ready)
                  × (k'.ready_list ≡ k.ready_list ++ (t ∷ []))))
    go [] e = (_, simp e, value-IsConsistent s v' c, ground arith, inl (e, refl))
    go (t ∷ ts) e =
        let (asleep, c') = woken-IsConsistent k s t ts c e in
        (
          _,
          simp (e, asleep, known k t asleep),
          value-IsConsistent s ((((woken k s t ts).sema s).value + 1) % 2 ^ 32) c',
          ground arith,
          inr (t, ground (arith, e), ground arith, refl),
        )

pub sema_try_down-IsConsistent :
    {k : Kernel} (s : ℕ) → IsConsistent k → IsConsistent (sema_try_down s k).1
unfolding sema_try_down
sema_try_down-IsConsistent {k} s c = elim (Bool-cases (ltb 0 (k.sema s).value)) [
  | inl e ↦ rw e (value-IsConsistent s ((k.sema s).value - 1) c)
  | inr e ↦ rw e c
]
