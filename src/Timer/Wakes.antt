-- ===== src/Timer/Wakes.antt =====
-- Sleeping threads wake in time, and not before.
use operating_system_pl_nt.Prelude.{
  ℕ, ◌+◌, ◌≤◌, ◌<◌, ◌≡◌, ◌≢◌, refl, some, List, [], ◌∷◌, ltb, ok, Bool-cases, inl, inr, arith,
}
use operating_system_pl_nt.Thread.{Kernel, blocked, ready, outside}
use operating_system_pl_nt.Thread.Steps.{unblocked, unblock_lem, counted-IsConsistent}
use operating_system_pl_nt.Thread.Consistent.{IsConsistent, count}
use operating_system_pl_nt.Timer.{Clock, thread_tick, wake_loop, timer_interrupt}

-- The threads of a list are asleep: blocked outside any semaphore, each once, and the idle thread
-- is not among them.
pub data AreAsleep (k : Kernel) : List ℕ → Type 0 where
  nil : AreAsleep k []
  cons :
      {t : ℕ} {ts : List ℕ}
      → k.status t ≡ some blocked
      → k.pc t ≡ outside
      → t ≢ k.idle_thread
      → count t ts ≡ 0
      → AreAsleep k ts
      → AreAsleep k (t ∷ ts)

-- Whoever is earlier on the list wakes no later.
pub data AreSorted (time : ℕ → ℕ) : List ℕ → Type 0 where
  nil : AreSorted time []
  cons :
      {t : ℕ} {ts : List ℕ}
      → ((u : ℕ) → count u ts ≢ 0 → time t ≤ time u)
      → AreSorted time ts
      → AreSorted time (t ∷ ts)

pub record IsClock (c : Clock) : Type 0 where
  pub consistent : IsConsistent c.kernel
  pub asleep : AreAsleep c.kernel c.list_threads
  pub sorted : AreSorted c.ticks_to_sleep c.list_threads

-- Those behind stay asleep when one wakes.
AreAsleep-unblocked :
    (k : Kernel) (t : ℕ) (ts : List ℕ)
    → count t ts ≡ 0
    → AreAsleep k ts
    → AreAsleep (unblocked k t) ts
unfolding unblocked
AreAsleep-unblocked k t [] fresh nil = nil
AreAsleep-unblocked k t (u ∷ ts) fresh (cons asleep free busy once a) =
    cons (ground (arith, fresh, asleep)) free busy once
      (AreAsleep-unblocked k t ts (ground (arith, fresh)) a)

-- What the loop has done with the threads `ts`.
pub record Woken (ts : List ℕ) (c c' : Clock) : Type 0 where
  pub valid : IsClock c'
  pub ticks_eq : c'.ticks ≡ c.ticks
  pub times_eq : (t : ℕ) → c'.ticks_to_sleep t ≡ c.ticks_to_sleep t
  pub in_time :
      (t : ℕ) → count t ts ≢ 0 → c.ticks_to_sleep t ≤ c.ticks → c'.kernel.status t ≡ some ready
  pub not_early :
      (t : ℕ) → count t ts ≢ 0 → c.ticks < c.ticks_to_sleep t → count t c'.list_threads ≢ 0
  pub left : (t : ℕ) → count t c'.list_threads ≢ 0 → c.ticks < c.ticks_to_sleep t
  pub others : (t : ℕ) → count t ts ≡ 0 → c'.kernel.status t ≡ c.kernel.status t

waits_lem :
    (t : ℕ) (ts : List ℕ) (c : Clock)
    → IsConsistent c.kernel
    → AreAsleep c.kernel (t ∷ ts)
    → AreSorted c.ticks_to_sleep (t ∷ ts)
    → c.ticks < c.ticks_to_sleep t
    → Woken (t ∷ ts) c (record c { list_threads = t ∷ ts })
waits_lem t ts c ok_kernel asleep (cons least s) early = record {
  valid = record { consistent = ok_kernel; asleep = asleep; sorted = cons least s };
  ticks_eq = refl;
  times_eq = λ u. refl;
  in_time = λ u there due. absurd (ground (arith, there, due, early, least u));
  not_early = λ u there _. there;
  left = λ u there. ground (arith, there, early, least u);
  others = λ u _. refl;
}

wakes_lem :
    (t : ℕ) (ts : List ℕ) (c c' : Clock)
    → count t ts ≡ 0
    → c.ticks_to_sleep t ≤ c.ticks
    → Woken ts (record c { kernel = unblocked c.kernel t; list_threads = ts }) c'
    → Woken (t ∷ ts) c c'
unfolding unblocked
wakes_lem t ts c c' once due w = record {
  valid = w.valid;
  ticks_eq = w.ticks_eq;
  times_eq = w.times_eq;
  in_time = λ u there late. ground (arith, there, once, w.in_time u, w.others u, late);
  not_early = λ u there early. w.not_early u (ground (arith, there, due, early)) early;
  left = w.left;
  others = λ u absent. ground (arith, absent, w.others u);
}

wake_loop-Woken :
    (ts : List ℕ) (c : Clock)
    → IsConsistent c.kernel
    → AreAsleep c.kernel ts
    → AreSorted c.ticks_to_sleep ts
    → (c' : Clock) × (wake_loop ts c ≡ ok c') × Woken ts c c'
unfolding wake_loop
wake_loop-Woken [] c k a s = (
  record c { list_threads = [] },
  refl,
  record {
    valid = record { consistent = k; asleep = nil; sorted = nil };
    ticks_eq = refl;
    times_eq = λ t. refl;
    in_time = λ t there _. absurd (there refl);
    not_early = λ t there _. absurd (there refl);
    left = λ t there. absurd (there refl);
    others = λ t _. refl;
  },
)
wake_loop-Woken (t ∷ ts) c k (cons asleep free busy once a) (cons least s) =
    elim (Bool-cases (ltb c.ticks (c.ticks_to_sleep t))) [
      | inl early ↦ (
        record c { list_threads = t ∷ ts },
        simp (early, wake_loop),
        waits_lem t ts c k (cons asleep free busy once a) (cons least s) (ground (arith, early)),
      )
      | inr due ↦
          let (unblocks, k') = unblock_lem c.kernel t k asleep free busy in
          let (c', loops, w) =
            wake_loop-Woken ts (record c { kernel = unblocked c.kernel t; list_threads = ts }) k'
              (AreAsleep-unblocked c.kernel t ts once a) s in
          (
            c',
            simp (due, wake_loop, unblocks, loops),
            wakes_lem t ts c c' once (ground (arith, due)) w,
          )
    ]

abbrev pub next_tick : Clock → Clock
next_tick c = thread_tick (record c { ticks = c.ticks + 1 })

counted-AreAsleep :
    (k : Kernel) (n : ℕ) (ts : List ℕ)
    → AreAsleep k ts
    → AreAsleep (record k { thread_ticks = n }) ts
counted-AreAsleep k n [] nil = nil
counted-AreAsleep k n (t ∷ ts) (cons asleep free busy once a) =
    cons asleep free busy once (counted-AreAsleep k n ts a)

-- With a consistent kernel and the sleeping threads in order, a timer interrupt returns, and both
-- still hold. After it every thread whose time has come is ready, every other sleeping thread still
-- sleeps, and the time of each that sleeps is to come.
pub timer_interrupt-Woken :
    (c : Clock)
    → IsClock c
    → (c' : Clock) × (timer_interrupt c ≡ ok c')
      × (c'.ticks ≡ c.ticks + 1)
      × Woken c.list_threads (next_tick c) c'
unfolding timer_interrupt thread_tick
timer_interrupt-Woken c v =
    let n : ℕ = c.kernel.thread_ticks + 1 in
    let (c', loops, w) =
      wake_loop-Woken c.list_threads (next_tick c) (counted-IsConsistent c.kernel n v.consistent)
        (counted-AreAsleep c.kernel n c.list_threads v.asleep) v.sorted in
    (c', loops, w.ticks_eq, w)
