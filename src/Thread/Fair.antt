-- ===== src/Thread/Fair.antt =====
-- Round robin: a thread on the ready list gets the processor after the threads in front of it.
use operating_system_pl_nt.Prelude.{
  ℕ, zero, suc, ◌+◌, ◌≡◌, refl, sym, ap, ◌∙◌, not, Option, none, some, List, [], ◌∷◌, ◌++◌, ◌==◌,
  if◌then◌else◌, length, Outcome, ok, ◌>>◌, ◌>>=◌, assert, Bool-cases, inl, inr, arith,
}
use mathlib.Core.Path.{subst}
use mathlib.Core.List.{append_assoc, append-nil}
use operating_system_pl_nt.Thread.{
  Kernel, running, ready, next_from, next_thread_to_run, thread_schedule_tail, schedule,
  thread_yield, is, is_thread, set_status,
}
use operating_system_pl_nt.Thread.Consistent.{IsConsistent}
use operating_system_pl_nt.Thread.Steps.{thread_yield-Stays}
use operating_system_pl_nt.Thread.Untouched.{Each, Each-assert}

-- The thread that runs, and those that are ready.
abbrev Turn : ℕ → List ℕ → Kernel → Type 0
Turn t ts k = (k.current ≡ t) × (k.ready_list ≡ ts)

tail-Turn :
    (prev : Option ℕ) (k : Kernel) → Turn k.current k.ready_list (thread_schedule_tail prev k)
unfolding thread_schedule_tail
tail-Turn none k = (refl, refl)
tail-Turn (some p) k = (ground arith, ground arith)

from-Turn :
    (k : Kernel) (t : ℕ) (ts : List ℕ)
    → k.ready_list ≡ t ∷ ts
    → ((next_from k k.ready_list).0 ≡ t) × ((next_from k k.ready_list).1.ready_list ≡ ts)
unfolding next_from
from-Turn k t ts e = (ap (λ l. (next_from k l).0) e, ap (λ l. (next_from k l).1.ready_list) e)

schedule-Turn :
    (k : Kernel) (t : ℕ) (ts : List ℕ) → k.ready_list ≡ t ∷ ts → Each (Turn t ts) (schedule k)
unfolding schedule next_thread_to_run
schedule-Turn k t ts e =
    let next : ℕ = (next_from k k.ready_list).0 in
    let k1 : Kernel = (next_from k k.ready_list).1 in
    let prev : Option ℕ = if k.current == next then none else some k.current in
    let k2 : Kernel = record k1 { current = next } in
    let (first, others) = from-Turn k t ts e in
    let (current_eq, ready_eq) = tail-Turn prev k2 in
    Each-assert (Turn t ts) (not (is running (k.status k.current)))
      (assert (is_thread (k1.status next)) >> ok (thread_schedule_tail prev k2))
      (Each-assert (Turn t ts) (is_thread (k1.status next)) (ok (thread_schedule_tail prev k2))
        (current_eq ∙ first, ready_eq ∙ others))

-- The list after a yield: the thread that ran comes last, unless it is the idle thread.
abbrev behind_all : Kernel → List ℕ
behind_all k = if not (k.current == k.idle_thread) then k.current ∷ [] else []

yield-Turn :
    (k : Kernel) (t : ℕ) (ts : List ℕ)
    → k.ready_list ≡ t ∷ ts
    → Each (Turn t (ts ++ behind_all k)) (thread_yield k)
unfolding thread_yield
yield-Turn k t ts e = elim (Bool-cases (k.current == k.idle_thread)) [
  | inl idle ↦
      let parked : Kernel = set_status k k.current (some ready) in
      rw idle (
        subst (λ l. Each (Turn t l) (schedule parked)) (sym (append-nil ts))
          (schedule-Turn parked t ts e))
  | inr busy ↦
      let queued : Kernel = record k { ready_list = k.ready_list ++ (k.current ∷ []) } in
      let parked : Kernel = set_status queued k.current (some ready) in
      rw busy (schedule-Turn parked t (ts ++ (k.current ∷ [])) (ap (λ l. l ++ (k.current ∷ [])) e))
]

-- `n` yields, by whichever threads run
unfoldable pub yields_of : ℕ → Kernel → Outcome Kernel
yields_of zero k = ok k
yields_of (suc n) k = do k ← thread_yield k; yields_of n k

-- In a consistent kernel in which the threads that run yield, a thread on the ready list runs after
-- one yield more than there are threads in front of it, whatever comes behind it.
pub yields_of-runs :
    (k : Kernel) (front behind : List ℕ) (t : ℕ)
    → IsConsistent k
    → k.ready_list ≡ front ++ (t ∷ behind)
    → (k' : Kernel) × (yields_of (length front + 1) k ≡ ok k')
      × (k'.current ≡ t)
      × (k'.status t ≡ some running)
      × IsConsistent k'
unfolding yields_of
yields_of-runs k [] behind t c e =
    let (k', runs, c') = thread_yield-Stays c in
    let (now, _) = subst (Each (Turn t (behind ++ behind_all k))) runs (yield-Turn k t behind e) in
    (k', simp (runs, yields_of), now, subst (λ u. k'.status u ≡ some running) now c'.runs, c')
yields_of-runs k (x ∷ front) behind t c e =
    let (k', runs, c') = thread_yield-Stays c in
    let (_, left) =
      subst (Each (Turn x ((front ++ (t ∷ behind)) ++ behind_all k))) runs
        (yield-Turn k x (front ++ (t ∷ behind)) e) in
    let (k'', more, now, running_eq, c'') =
      yields_of-runs k' front (behind ++ behind_all k) t c'
        (left ∙ append_assoc front (t ∷ behind) (behind_all k)) in
    let fuel : suc (length front) + 1 ≡ suc (length front + 1) = omega arith in
    (k'', ap (λ n. yields_of n k) fuel ∙ simp (runs, yields_of, more), now, running_eq, c'')
