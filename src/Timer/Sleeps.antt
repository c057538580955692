-- ===== src/Timer/Sleeps.antt =====
-- `timer_sleep` puts the running thread to sleep at its place on the list.
use mathlib.Core.Path.{subst}
use operating_system_pl_nt.Prelude.{
  ℕ, ◌+◌, ◌≡◌, ◌≢◌, refl, ap, ◌∙◌, Bool, some, List, [], ◌∷◌, ◌==◌, ltb, if◌then◌else◌, update,
  Outcome, ok, ◌>>=◌, Bool-cases, inl, inr, arith,
}
use operating_system_pl_nt.Thread.{Kernel, blocked, outside, thread_block}
use operating_system_pl_nt.Thread.Consistent.{IsConsistent, count}
use operating_system_pl_nt.Thread.Steps.{parked, parked-Stays}
use operating_system_pl_nt.Thread.Rests.{Rested, schedule-Rested}
use operating_system_pl_nt.Thread.Untouched.{Each}
use operating_system_pl_nt.Timer.{Clock, insert_ordered, timer_sleep}
use operating_system_pl_nt.Timer.Wakes.{AreAsleep, AreSorted, nil, cons, IsClock}

count-insert_ordered :
    (less : ℕ → ℕ → Bool) (e u : ℕ) (ts : List ℕ)
    → count u (insert_ordered less e ts) ≡ count u ts + (if e == u then 1 else 0)
count-insert_ordered less e u [] = ground arith
count-insert_ordered less e u (t ∷ ts) = ground (arith, count-insert_ordered less e u ts)

insert_ordered-AreAsleep :
    (less : ℕ → ℕ → Bool) (k : Kernel) (e : ℕ) (ts : List ℕ)
    → k.status e ≡ some blocked
    → k.pc e ≡ outside
    → e ≢ k.idle_thread
    → count e ts ≡ 0
    → AreAsleep k ts
    → AreAsleep k (insert_ordered less e ts)
insert_ordered-AreAsleep less k e [] asleep free busy fresh nil = cons asleep free busy refl nil
insert_ordered-AreAsleep less k e (t ∷ ts) asleep free busy fresh
      (cons asleep' free' busy' once' a) =
    elim (Bool-cases (less e t)) [
      | inl below ↦ rw below (cons asleep free busy fresh (cons asleep' free' busy' once' a))
      | inr above ↦ rw above (
          cons asleep' free' busy' (ground (arith, fresh, once', count-insert_ordered less e t ts))
            (insert_ordered-AreAsleep less k e ts asleep free busy (ground (arith, fresh)) a))
    ]

insert_ordered-AreSorted :
    (time : ℕ → ℕ) (e : ℕ) (ts : List ℕ)
    → AreSorted time ts
    → AreSorted time (insert_ordered (λ x y. ltb (time x) (time y)) e ts)
insert_ordered-AreSorted time e [] nil = cons (λ u there. absurd (there refl)) nil
insert_ordered-AreSorted time e (t ∷ ts) (cons least s) =
    elim (Bool-cases (ltb (time e) (time t))) [
      | inl below ↦
          rw below (cons (λ u there. ground (arith, below, there, least u)) (cons least s))
      | inr above ↦ rw above (
          cons
            (λ u there. ground (
              arith,
              above,
              there,
              least u,
              count-insert_ordered (λ x y. ltb (time x) (time y)) e u ts,
            ))
            (insert_ordered-AreSorted time e ts s))
    ]

-- Times of threads that are not on the list do not matter.
AreSorted-times :
    (time time' : ℕ → ℕ) (ts : List ℕ)
    → ((t : ℕ) → count t ts ≢ 0 → time' t ≡ time t)
    → AreSorted time ts
    → AreSorted time' ts
AreSorted-times time time' [] same nil = nil
AreSorted-times time time' (t ∷ ts) same (cons least s) =
    cons (λ u there. ground (arith, there, least u, same u, same t))
      (AreSorted-times time time' ts (λ u there. same u (ground (arith, there))) s)

-- Those asleep are blocked.
AreAsleep-blocked :
    (k : Kernel) (ts : List ℕ) (t : ℕ) → AreAsleep k ts → count t ts ≢ 0 → k.status t ≡ some blocked
AreAsleep-blocked k [] t nil there = absurd (there refl)
AreAsleep-blocked k (u ∷ ts) t (cons asleep free busy once' a) there = elim (Bool-cases (u == t)) [
  | inl same ↦ ground (arith, same, asleep)
  | inr other ↦ AreAsleep-blocked k ts t a (ground (arith, other, there))
]

AreAsleep-Rested :
    (k k' : Kernel) (ts : List ℕ)
    → ((t : ℕ) → k.status t ≡ some blocked → t ≢ k.idle_thread → k'.status t ≡ some blocked)
    → ((t : ℕ) → k'.pc t ≡ k.pc t)
    → k'.idle_thread ≡ k.idle_thread
    → AreAsleep k ts
    → AreAsleep k' ts
AreAsleep-Rested k k' [] rests pcs idle nil = nil
AreAsleep-Rested k k' (t ∷ ts) rests pcs idle (cons asleep free busy once' a) =
    cons (rests t asleep busy) (pcs t ∙ free) (λ e. busy (e ∙ idle)) once'
      (AreAsleep-Rested k k' ts rests pcs idle a)

-- The running thread is not asleep.
awake : (k : Kernel) (ts : List ℕ) → IsConsistent k → AreAsleep k ts → count k.current ts ≡ 0
awake k [] c nil = refl
awake k (t ∷ ts) c (cons asleep free busy once' a) = ground (arith, c.runs, asleep, awake k ts c a)

-- What the sleep of the running thread until a time makes of the clock.
pub record Sleeping (time : ℕ) (c c' : Clock) : Type 0 where
  pub valid : IsClock c'
  pub listed : count c.kernel.current c'.list_threads ≡ 1
  pub time_eq : c'.ticks_to_sleep c.kernel.current ≡ time
  pub status_eq : c'.kernel.status c.kernel.current ≡ some blocked
  pub others : (t : ℕ) → t ≢ c.kernel.current → count t c'.list_threads ≡ count t c.list_threads
  pub times_eq : (t : ℕ) → t ≢ c.kernel.current → c'.ticks_to_sleep t ≡ c.ticks_to_sleep t

abbrev pub asleep_at : ℕ → Clock → ℕ → ℕ
asleep_at time c = update c.ticks_to_sleep c.kernel.current time

abbrev pub listed_at : ℕ → Clock → List ℕ
listed_at time c =
    insert_ordered (λ x y. ltb (asleep_at time c x) (asleep_at time c y)) c.kernel.current
      c.list_threads

parked-AreAsleep :
    (c : Clock) (k' : Kernel)
    → IsClock c
    → c.kernel.current ≢ c.kernel.idle_thread
    → c.kernel.pc c.kernel.current ≡ outside
    → Rested (parked c.kernel) k'
    → (n : ℕ) → AreAsleep k' (listed_at n c)
parked-AreAsleep c k' v busy out r n =
    let less = λ (x y : ℕ). ltb (asleep_at n c x) (asleep_at n c y) in
    AreAsleep-Rested (parked c.kernel) k' (listed_at n c)
      (λ t asleep busy'.
        r.blocked_eq t asleep busy'
          (ground (arith, v.consistent.filed.queue t, v.consistent.runs, asleep)))
      r.pc_eq r.idle_eq
      (insert_ordered-AreAsleep less (parked c.kernel) c.kernel.current c.list_threads
        (ground arith) out busy (awake c.kernel c.list_threads v.consistent v.asleep)
        (AreAsleep-Rested c.kernel (parked c.kernel) c.list_threads
          (λ t asleep busy'. ground (arith, asleep)) (λ t. refl) refl v.asleep))

parked-AreSorted : (n : ℕ) (c : Clock) → IsClock c → AreSorted (asleep_at n c) (listed_at n c)
parked-AreSorted n c v = insert_ordered-AreSorted (asleep_at n c) c.kernel.current c.list_threads (
    AreSorted-times c.ticks_to_sleep (asleep_at n c) c.list_threads
      (λ t there. ground (arith, there, awake c.kernel c.list_threads v.consistent v.asleep))
      v.sorted)

-- The running thread, outside any semaphore and not the idle thread, sleeps in a clock whose
-- sleeping threads are in order: the call of timer_sleep switches threads without a failed
-- assertion, and in the clock it leaves the sleeping threads are still in order and the kernel
-- consistent. The thread is blocked and once on the list, to wake `n` ticks after the time `now`
-- that `timer_ticks` gave it, also where `n` is 0, and the other threads on the list and their
-- times stay.
pub timer_sleep-Sleeping :
    (now n : ℕ) (c : Clock)
    → IsClock c
    → c.kernel.current ≢ c.kernel.idle_thread
    → c.kernel.pc c.kernel.current ≡ outside
    → (c' : Clock) × (timer_sleep now n c ≡ ok c') × Sleeping (now + n) c c'
unfolding timer_sleep thread_block
timer_sleep-Sleeping now n c v busy out =
    let (k', runs, stays) = parked-Stays c.kernel v.consistent out in
    let r : Rested (parked c.kernel) k' =
      subst (Each (Rested (parked c.kernel))) runs (schedule-Rested (parked c.kernel)) in
    let absent = awake c.kernel c.list_threads v.consistent v.asleep in
    let less = λ (x y : ℕ). ltb (asleep_at (now + n) c x) (asleep_at (now + n) c y) in
    (
      record c {
        kernel = k';
        list_threads = listed_at (now + n) c;
        ticks_to_sleep = asleep_at (now + n) c;
      },
      ap
          (λ (o : Outcome Kernel). o >>= λ k. ok (record c {
            kernel = k;
            list_threads = listed_at (now + n) c;
            ticks_to_sleep = asleep_at (now + n) c;
          }))
          runs,
      record {
        valid = record {
          consistent = stays;
          asleep = parked-AreAsleep c k' v busy out r (now + n);
          sorted = parked-AreSorted (now + n) c v;
        };
        listed = ground (
          arith,
          absent,
          count-insert_ordered less c.kernel.current c.kernel.current c.list_threads,
        );
        time_eq = ground arith;
        status_eq =
            r.blocked_eq c.kernel.current (ground arith) busy
              (ground (arith, v.consistent.filed.queue c.kernel.current, v.consistent.runs));
        others = λ t other.
            ground (arith, other, count-insert_ordered less c.kernel.current t c.list_threads);
        times_eq = λ t other. ground (arith, other);
      },
    )
