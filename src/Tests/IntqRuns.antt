-- ===== src/Tests/IntqRuns.antt =====
-- A queue with the bytes 7 and 8 across the end of its buffer; thread 3 waits for room.
use operating_system_pl_nt.Prelude.{
  ℕ, zero, suc, ◌+◌, ◌%◌, ◌<◌, ◌≡◌, refl, true, false, none, some, [], ◌∷◌, ◌++◌, replicate, get_or,
  ok, arith,
}
use operating_system_pl_nt.Thread.{Kernel}
use operating_system_pl_nt.Intq.{Intq, intq_getc, intq_putc}
use operating_system_pl_nt.Intq.Fifo.{IsQueue, Signalled, intq_getc-first, intq_putc-last}
use operating_system_pl_nt.Tests.ThreadRuns.{four}

abbrev queue : Intq
queue = record {
  lock = 6;
  not_full = some 3;
  not_empty = none;
  buf = 8 ∷ (replicate 62 0 ++ (7 ∷ []));
  head = 1;
  tail = 63;
}

their_places : (j : ℕ) → j < 2 → get_or (7 ∷ 8 ∷ []) j 0 ≡ get_or queue.buf ((63 + j) % 64) 0
their_places zero h = refl
their_places (suc zero) h = refl
their_places (suc (suc j)) h = absurd (omega arith)

queue-IsQueue : IsQueue queue (7 ∷ 8 ∷ [])
queue-IsQueue = record {
  buf_length = refl;
  head_bound = omega arith;
  tail_bound = omega arith;
  items_length = refl;
  items_eq = their_places;
}

intq_getc-first_example :
    (q' : Intq) × (k' : Kernel) × (intq_getc true queue four ≡ ok (some 7, q', k'))
    × IsQueue q' (8 ∷ [])
    × Signalled (some 3) four k'
intq_getc-first_example = intq_getc-first true queue four 7 (8 ∷ []) queue-IsQueue refl

intq_putc-last_example :
    (q' : Intq) × (k' : Kernel) × (intq_putc false 9 queue four ≡ ok (true, q', k'))
    × IsQueue q' (7 ∷ 8 ∷ 9 ∷ [])
    × Signalled none four k'
intq_putc-last_example =
    intq_putc-last false 9 queue four (7 ∷ 8 ∷ []) queue-IsQueue (omega arith) tt
