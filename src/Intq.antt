-- ===== src/Intq.antt =====
-- devices/intq.c, intq.h: the circular buffer between threads and interrupt handlers. A caller that
-- has to wait takes the lock and blocks; when it runs again it releases the lock (`intq_woken`) and
-- goes through its call again. One that finds the lock taken goes on with `wait_not_empty` or
-- `wait_not_full` when it runs. Interrupts are off throughout. The lock is lock number `lock` of
-- Lock. A position outside the buffer is a `panic`.
pub mod Fifo
use operating_system_pl_nt.Prelude.{
  ℕ, ◌+◌, ◌%◌, ◌==◌, Bool, true, false, not, Option, none, some, List, ltb, if◌then◌else◌,
  get_elem?, set, Outcome, ok, panic, ◌>>=◌, ◌>>◌, assert,
}
use operating_system_pl_nt.Thread.{Kernel, thread_block, thread_unblock}
use operating_system_pl_nt.Lock.{lock_init, lock_acquire, lock_release}

-- INTQ_BUFSIZE
abbrev pub intq_bufsize : ℕ
intq_bufsize = 64

-- `struct intq`
pub record Intq : Type 0 where
  pub lock : ℕ
  pub not_full : Option ℕ
  pub not_empty : Option ℕ
  pub buf : List ℕ
  pub head : ℕ
  pub tail : ℕ

-- with what the buffer holds
unfoldable pub intq_init : ℕ → List ℕ → Kernel → Intq × Kernel
intq_init lock buf k = (
  record { lock = lock; not_full = none; not_empty = none; buf = buf; head = 0; tail = 0 },
  lock_init lock k,
)

abbrev pub next : ℕ → ℕ
next pos = (pos + 1) % intq_bufsize

abbrev pub intq_empty : Intq → Bool
intq_empty q = q.head == q.tail

abbrev pub intq_full : Intq → Bool
intq_full q = next q.head == q.tail

-- `q->buf[pos]`
unfoldable pub byte_of : Intq → ℕ → Outcome ℕ
byte_of q pos = elim (get_elem? q.buf pos) [ none ↦ panic | some b ↦ ok b ]

-- `signal`, with the waiter that is then no more
unfoldable pub signal : Bool → Option ℕ → Kernel → Outcome Kernel
signal holds waiter k = do assert holds; elim waiter [ none ↦ ok k | some t ↦ thread_unblock t k ]

-- `wait`, where its condition holds or not, with the queue that has the waiter
abbrev wait : Bool → Intq → Kernel → Outcome (Intq × Kernel)
wait holds waiting k = do assert holds; k ← thread_block k; ok (waiting, k)

-- The caller takes the lock, waits and blocks; or waits for the lock, if it is not free.
abbrev locked_wait : Bool → Intq → Intq → Kernel → Outcome (Intq × Kernel)
locked_wait holds q waiting k = do
  k' ← lock_acquire q.lock k
  if ltb 0 (k.sema q.lock).value then wait holds waiting k' else ok (q, k')

-- A caller that had to wait for the lock goes on here when it runs, and not with the condition of
-- its loop: where that has changed meanwhile, the assertion of `wait` fails.
unfoldable pub wait_not_empty : Intq → Kernel → Outcome (Intq × Kernel)
wait_not_empty q k = locked_wait (intq_empty q) q (record q { not_empty = some k.current }) k

unfoldable pub wait_not_full : Intq → Kernel → Outcome (Intq × Kernel)
wait_not_full q k = locked_wait (intq_full q) q (record q { not_full = some k.current }) k

unfoldable pub intq_woken : Intq → Kernel → Outcome Kernel
intq_woken q k = lock_release q.lock k

-- One round, in an interrupt handler or not: the byte, or nothing where the caller waits.
unfoldable pub intq_getc : Bool → Intq → Kernel → Outcome (Option ℕ × Intq × Kernel)
intq_getc intr_context q k =
    if intq_empty q
    then (do assert (not intr_context); (q, k) ← wait_not_empty q k; ok (none, q, k))
    else (do
      byte ← byte_of q q.tail
      let q' : Intq = record q { tail = next q.tail; not_full = none }
      k ← signal (not (intq_full q')) q.not_full k
      ok (some byte, q', k))

-- One round: whether the byte was added.
unfoldable pub intq_putc : Bool → ℕ → Intq → Kernel → Outcome (Bool × Intq × Kernel)
intq_putc intr_context byte q k =
    if intq_full q
    then (do assert (not intr_context); (q, k) ← wait_not_full q k; ok (false, q, k))
    else (do
      b ← byte_of q q.head
      let q' : Intq = record q { buf = set q.buf q.head byte; head = next q.head; not_empty = none }
      k ← signal (not (intq_empty q')) q.not_empty k
      ok (true, q', k))
