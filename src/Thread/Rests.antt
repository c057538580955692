-- ===== src/Thread/Rests.antt =====
-- A blocked thread that nobody wakes stays blocked while others get the processor.
use operating_system_pl_nt.Prelude.{
  ℕ, ◌≡◌, ◌≢◌, refl, sym, ◌∙◌, not, Option, none, some, List, [], ◌∷◌, ◌==◌, if◌then◌else◌, ok,
  ◌>>◌, assert, arith,
}
use operating_system_pl_nt.Thread.{
  Kernel, running, blocked, next_from, next_thread_to_run, thread_schedule_tail, schedule, is,
  is_thread,
}
use operating_system_pl_nt.Thread.Consistent.{count}
use operating_system_pl_nt.Thread.Untouched.{Each, Each-assert}

-- Blocked threads that are not on the ready list stay blocked; where threads stand does not change.
pub record Rested (k k' : Kernel) : Type 0 where
  pub blocked_eq :
      (t : ℕ)
      → k.status t ≡ some blocked
      → t ≢ k.idle_thread
      → count t k.ready_list ≡ 0
      → k'.status t ≡ some blocked
  pub pc_eq : (t : ℕ) → k'.pc t ≡ k.pc t
  pub idle_eq : k'.idle_thread ≡ k.idle_thread

next_from-ne :
    (k : Kernel) (ts : List ℕ) (t : ℕ) → t ≢ k.idle_thread → count t ts ≡ 0 → (next_from k ts).0 ≢ t
unfolding next_from
next_from-ne k [] t busy absent e = busy (sym e)
next_from-ne k (u ∷ ts) t busy absent e = absurd (ground (arith, e, absent))

from_eq :
    (k : Kernel) (ts : List ℕ)
    → ((t : ℕ) → (next_from k ts).1.status t ≡ k.status t)
      × ((t : ℕ) → (next_from k ts).1.pc t ≡ k.pc t)
      × ((next_from k ts).1.idle_thread ≡ k.idle_thread)
unfolding next_from
from_eq k [] = ((λ t. refl), (λ t. refl), refl)
from_eq k (u ∷ ts) = ((λ t. refl), (λ t. refl), refl)

tail_eq :
    (prev : Option ℕ) (k : Kernel) (t : ℕ)
    → k.current ≢ t
    → k.status t ≡ some blocked
    → (thread_schedule_tail prev k).status t ≡ some blocked
unfolding thread_schedule_tail
tail_eq none k t other asleep = ground (arith, other, asleep)
tail_eq (some p) k t other asleep = ground (arith, other, asleep)

tail_rest :
    (prev : Option ℕ) (k : Kernel)
    → ((t : ℕ) → (thread_schedule_tail prev k).pc t ≡ k.pc t)
      × ((thread_schedule_tail prev k).idle_thread ≡ k.idle_thread)
unfolding thread_schedule_tail
tail_rest none k = ((λ t. refl), refl)
tail_rest (some p) k = ((λ t. ground arith), ground arith)

pub schedule-Rested : (k : Kernel) → Each (Rested k) (schedule k)
unfolding schedule next_thread_to_run
schedule-Rested k =
    let next : ℕ = (next_from k k.ready_list).0 in
    let k1 : Kernel = (next_from k k.ready_list).1 in
    let prev : Option ℕ = if k.current == next then none else some k.current in
    let k2 : Kernel = record k1 { current = next } in
    let (status_eq, pc_eq, idle_eq) = from_eq k k.ready_list in
    let (pc_eq', idle_eq') = tail_rest prev k2 in
    Each-assert (Rested k) (not (is running (k.status k.current)))
      (assert (is_thread (k1.status next)) >> ok (thread_schedule_tail prev k2))
      (Each-assert (Rested k) (is_thread (k1.status next)) (ok (thread_schedule_tail prev k2))
        (record {
          blocked_eq = λ t asleep busy absent.
              tail_eq prev k2 t (next_from-ne k k.ready_list t busy absent) (status_eq t ∙ asleep);
          pc_eq = λ t. pc_eq' t ∙ pc_eq t;
          idle_eq = idle_eq' ∙ idle_eq;
        }))
