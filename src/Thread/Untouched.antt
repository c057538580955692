-- ===== src/Thread/Untouched.antt =====
-- Blocking and waking threads leave the values of semaphores and the holders of locks as they are.
use operating_system_pl_nt.Prelude.{
  ℕ, ◌+◌, ◌-◌, ◌%◌, ◌^◌, ◌≡◌, refl, ◌∙◌, Bool, ◌++◌, true, false, not, Option, none, some, List, [],
  ◌∷◌, ◌==◌, if◌then◌else◌, update, Outcome, ok, panic, out_of_fuel, ◌>>◌, ◌>>=◌, assert, arith,
  Bool-cases, inl, inr,
}
use operating_system_pl_nt.Thread.{
  running, ready, blocked, downing, set_status, put_sema, Kernel, next_from, next_thread_to_run,
  thread_schedule_tail, schedule, thread_block, thread_unblock, sema_down, sema_up, wake, is,
  is_thread,
}

-- What holds of a result, if there is one.
abbrev pub Each : (Kernel → Type 0) → Outcome Kernel → Type 0
Each P (ok k) = P k
Each P panic = Unit {0}
Each P out_of_fuel = Unit {0}

pub Each-assert :
    (P : Kernel → Type 0) (b : Bool) (r : Outcome Kernel) → Each P r → Each P (assert b >> r)
Each-assert P true r e = e
Each-assert P false r e = tt

pub Each-bind :
    (P Q : Kernel → Type 0) (r : Outcome Kernel) (f : Kernel → Outcome Kernel)
    → Each P r
    → ((k : Kernel) → P k → Each Q (f k))
    → Each Q (r >>= f)
Each-bind P Q (ok k) f e g = g k e
Each-bind P Q panic f e g = tt
Each-bind P Q out_of_fuel f e g = tt

-- Of the semaphores and locks of `k`, the semaphore `s` has the value `v` now, and no holder has
-- changed.
abbrev pub Values : Kernel → (ℕ → ℕ) → Kernel → Type 0
Values k f k' = ((s : ℕ) → (k'.sema s).value ≡ f s) × ((l : ℕ) → k'.holder l ≡ k.holder l)

abbrev pub values : Kernel → ℕ → ℕ
values k s = (k.sema s).value

tail-Values : (prev : Option ℕ) (k : Kernel) → Values k (values k) (thread_schedule_tail prev k)
unfolding thread_schedule_tail
tail-Values none k = ((λ s. refl), (λ l. refl))
tail-Values (some p) k = ((λ s. ground arith), (λ l. ground arith))

from-Values : (k : Kernel) (ts : List ℕ) → Values k (values k) (next_from k ts).1
unfolding next_from
from-Values k [] = ((λ s. refl), (λ l. refl))
from-Values k (t ∷ ts) = ((λ s. refl), (λ l. refl))

pub schedule-Values : (k : Kernel) → Each (Values k (values k)) (schedule k)
unfolding schedule next_thread_to_run
schedule-Values k =
    let next : ℕ = (next_from k k.ready_list).0 in
    let k1 : Kernel = (next_from k k.ready_list).1 in
    let prev : Option ℕ = if k.current == next then none else some k.current in
    let k2 : Kernel = record k1 { current = next } in
    let (sema_eq, holder_eq) = tail-Values prev k2 in
    let (sema_eq1, holder_eq1) = from-Values k k.ready_list in
    Each-assert (Values k (values k)) (not (is running (k.status k.current)))
      (assert (is_thread (k1.status next)) >> ok (thread_schedule_tail prev k2))
      (Each-assert (Values k (values k)) (is_thread (k1.status next))
        (ok (thread_schedule_tail prev k2))
        ((λ s. sema_eq s ∙ sema_eq1 s), (λ l. holder_eq l ∙ holder_eq1 l)))

pub Each-map :
    (P Q : Kernel → Type 0) (r : Outcome Kernel) → Each P r → ((k : Kernel) → P k → Q k) → Each Q r
Each-map P Q (ok k) e g = g k e
Each-map P Q panic e g = tt
Each-map P Q out_of_fuel e g = tt

abbrev pub waiting : ℕ → Kernel → Kernel
waiting s k =
    set_status
      (put_sema (record k { pc = update k.pc k.current (downing s) }) s
        (record (k.sema s) { waiters = (k.sema s).waiters ++ (k.current ∷ []) }))
      k.current (some blocked)

abbrev pub taken : ℕ → Kernel → ℕ → ℕ
taken s k r = if s == r then values k r - 1 else values k r

abbrev pub given : ℕ → Kernel → ℕ → ℕ
given s k r = if s == r then (values k r + 1) % 2 ^ 32 else values k r

-- One round of `sema_down` takes one from the semaphore, if there is one, and leaves the others.
pub sema_down-Values : (s : ℕ) (k : Kernel) → Each (Values k (taken s k)) (sema_down s k)
unfolding sema_down thread_block
sema_down-Values s k = elim (Bool-cases ((k.sema s).value == 0)) [
  | inl empty ↦ rw empty (
      Each-map (Values (waiting s k) (values (waiting s k))) (Values k (taken s k))
        (schedule (waiting s k)) (schedule-Values (waiting s k))
        (λ k' same. ((λ r. same.0 r ∙ ground arith), same.1)))
  | inr some_left ↦ rw some_left ((λ r. ground arith), (λ l. refl))
]

wake-Values :
    (s : ℕ) (ws : List ℕ) (k : Kernel) → Each (Values k (values k)) (wake s (k.sema s) ws k)
unfolding wake thread_unblock
wake-Values s [] k = ((λ r. refl), (λ l. refl))
wake-Values s (t ∷ ts) k =
    let off : Kernel = put_sema k s (record (k.sema s) { waiters = ts }) in
    let woken : Kernel = record off {
      ready_list = off.ready_list ++ (t ∷ []);
      status = update off.status t (some ready);
    } in
    Each-assert (Values k (values k)) (is_thread (off.status t))
      (assert (is blocked (off.status t)) >> ok woken)
      (Each-assert (Values k (values k)) (is blocked (off.status t)) (ok woken)
        ((λ r. ground arith), (λ l. refl)))

-- `sema_up` adds one.
pub sema_up-Values : (s : ℕ) (k : Kernel) → Each (Values k (given s k)) (sema_up s k)
unfolding sema_up
sema_up-Values s k =
    Each-bind (Values k (values k)) (Values k (given s k)) (wake s (k.sema s) (k.sema s).waiters k)
      _ (wake-Values s (k.sema s).waiters k) (λ k' same. ((λ r. ground (arith, same.0 r)), same.1))
