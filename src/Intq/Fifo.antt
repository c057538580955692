-- ===== src/Intq/Fifo.antt =====
-- The buffer is a queue of at most 63 bytes.
use operating_system_pl_nt.Prelude.{
  ℕ, zero, suc, ◌+◌, ◌-◌, ◌%◌, ◌<◌, ◌≡◌, ◌==◌, refl, sym, ap, ◌∙◌, inl, inr, Bool, true, false,
  Option, none, some, List, [], ◌∷◌, ◌++◌, ltb, length, get_elem?, get_or, set, update, update_self,
  length-set, length-append, get_or-append, get_or-set, ok, arith, Bool-cases, eq→==, ne→==,
}
use operating_system_pl_nt.Thread.{Kernel, ready, blocked, thread_unblock}
use operating_system_pl_nt.Intq.{Intq, intq_bufsize, next, byte_of, signal, intq_getc, intq_putc}

-- The bytes in the queue, the next one to be read first.
pub record IsQueue (q : Intq) (items : List ℕ) : Type 0 where
  pub buf_length : length q.buf ≡ intq_bufsize
  pub head_bound : q.head < intq_bufsize
  pub tail_bound : q.tail < intq_bufsize
  pub items_length : length items ≡ (q.head + intq_bufsize - q.tail) % intq_bufsize
  pub items_eq :
      (j : ℕ) → j < length items → get_or items j 0 ≡ get_or q.buf ((q.tail + j) % intq_bufsize) 0

elem-or : (buf : List ℕ) (pos : ℕ) → pos < length buf → get_elem? buf pos ≡ some (get_or buf pos 0)
elem-or [] pos h = absurd (omega arith)
elem-or (x ∷ buf) zero h = refl
elem-or (x ∷ buf) (suc pos) h = elem-or buf pos (omega arith)

byte_of-buf : (q : Intq) (pos : ℕ) → pos < length q.buf → byte_of q pos ≡ ok (get_or q.buf pos 0)
unfolding byte_of
byte_of-buf q pos h = simp (elem-or q.buf pos h, byte_of)

-- A thread that waits, if there is one, can be woken.
abbrev pub Wakes : Option ℕ → Kernel → Type 0
Wakes none k = Unit {0}
Wakes (some t) k = k.status t ≡ some blocked

-- After a signal the thread that waited is ready.
abbrev pub Signalled : Option ℕ → Kernel → Kernel → Type 0
Signalled none k k' = k' ≡ k
Signalled (some t) k k' = (k'.status t ≡ some ready) × (k'.ready_list ≡ k.ready_list ++ (t ∷ []))

signal-Signalled :
    (waiter : Option ℕ) (k : Kernel)
    → Wakes waiter k
    → (k' : Kernel) × (signal true waiter k ≡ ok k') × Signalled waiter k k'
unfolding signal thread_unblock
signal-Signalled none k w = (k, refl, refl)
signal-Signalled (some t) k w = (
  record k { ready_list = k.ready_list ++ (t ∷ []); status = update k.status t (some ready) },
  simp (w, thread_unblock),
  (update_self k.status t (some ready), refl),
)

taken-IsQueue :
    (q : Intq) (x : ℕ) (xs : List ℕ)
    → IsQueue q (x ∷ xs)
    → IsQueue (record q { tail = next q.tail; not_full = none }) xs
taken-IsQueue q x xs is = record {
  buf_length = is.buf_length;
  head_bound = is.head_bound;
  tail_bound = omega arith;
  items_length = omega (arith, is.items_length, is.head_bound, is.tail_bound);
  items_eq = λ j h.
      let place : (q.tail + suc j) % intq_bufsize ≡ (next q.tail + j) % intq_bufsize =
        omega arith in
      is.items_eq (suc j) (omega (arith, h)) ∙ ap (λ p. get_or q.buf p 0) place;
}

put_before :
    (q : Intq) (byte : ℕ) (items : List ℕ)
    → IsQueue q items
    → (j : ℕ) → j < length items
    → get_or (items ++ (byte ∷ [])) j 0
      ≡ get_or (set q.buf q.head byte) ((q.tail + j) % intq_bufsize) 0
put_before q byte items is j before =
    let p : ℕ = (q.tail + j) % intq_bufsize in
    let early : ltb j (length items) ≡ true = ground (arith, before) in
    let apart : (q.head == p) ≡ false =
      ne→== q.head p
        (λ z. absurd (omega (arith, z, before, is.items_length, is.head_bound, is.tail_bound))) in
    let kept : get_or (set q.buf q.head byte) p 0 ≡ get_or q.buf p 0 =
      get_or-set 0 q.buf q.head p byte (omega (arith, is.buf_length, is.head_bound)) ∙ simp apart in
    let same : get_or (items ++ (byte ∷ [])) j 0 ≡ get_or items j 0 =
      get_or-append 0 items (byte ∷ []) j ∙ simp early in
    same ∙ is.items_eq j before ∙ sym kept

put_last :
    (q : Intq) (byte : ℕ) (items : List ℕ)
    → IsQueue q items
    → length items < 63
    → (j : ℕ) → j ≡ length items
    → get_or (items ++ (byte ∷ [])) j 0
      ≡ get_or (set q.buf q.head byte) ((q.tail + j) % intq_bufsize) 0
put_last q byte items is room j last =
    let p : ℕ = (q.tail + j) % intq_bufsize in
    let late : ltb j (length items) ≡ false = ground (arith, last) in
    let start : j - length items ≡ 0 = omega (arith, last) in
    let here : (q.head == p) ≡ true =
      eq→== q.head p (omega (arith, last, is.items_length, is.head_bound, is.tail_bound)) in
    let written : get_or (set q.buf q.head byte) p 0 ≡ byte =
      get_or-set 0 q.buf q.head p byte (omega (arith, is.buf_length, is.head_bound)) ∙ simp here in
    let added : get_or (items ++ (byte ∷ [])) j 0 ≡ byte =
      get_or-append 0 items (byte ∷ []) j ∙ simp (late, start) in
    added ∙ sym written

put-IsQueue :
    (q : Intq) (byte : ℕ) (items : List ℕ)
    → IsQueue q items
    → length items < 63
    → IsQueue
        (record q { buf = set q.buf q.head byte; head = next q.head; not_empty = none })
        (items ++ (byte ∷ []))
put-IsQueue q byte items is room = record {
  buf_length = length-set q.buf q.head byte ∙ is.buf_length;
  head_bound = omega arith;
  tail_bound = is.tail_bound;
  items_length =
      omega (
        arith,
        length-append items (byte ∷ []),
        is.items_length,
        is.head_bound,
        is.tail_bound,
        room,
      );
  items_eq = λ j h. elim (Bool-cases (ltb j (length items))) [
    | inl before ↦ put_before q byte items is j (ground (arith, before))
    | inr last ↦
        put_last q byte items is room j (ground (arith, last, h, length-append items (byte ∷ [])))
  ];
}

-- From a queue that is not empty, the byte that is read is the first, and the rest stay in their
-- order. If a blocked thread waits for room it is made ready, at the end of the ready list.
pub intq_getc-first :
    (intr_context : Bool) (q : Intq) (k : Kernel) (x : ℕ) (xs : List ℕ)
    → IsQueue q (x ∷ xs)
    → Wakes q.not_full k
    → (q' : Intq) × (k' : Kernel) × (intq_getc intr_context q k ≡ ok (some x, q', k'))
      × IsQueue q' xs
      × Signalled q.not_full k k'
unfolding intq_getc
intq_getc-first intr_context q k x xs is w =
    let (k', signals, s) = signal-Signalled q.not_full k w in
    let some_items : (q.head == q.tail) ≡ false =
      ne→== q.head q.tail (λ z. absurd (omega (arith, z, is.items_length, is.tail_bound))) in
    let some_room : (next q.head == next q.tail) ≡ false =
      ne→== (next q.head) (next q.tail)
        (λ z. absurd (omega (arith, z, is.items_length, is.head_bound, is.tail_bound))) in
    let byte_eq : get_or q.buf q.tail 0 ≡ x =
      sym
        (is.items_eq 0 (omega arith) ∙ ap (λ p. get_or q.buf p 0) (omega (arith, is.tail_bound))) in
    (
      record q { tail = next q.tail; not_full = none },
      k',
      simp (
        some_items,
        byte_of-buf q q.tail (omega (arith, is.buf_length, is.tail_bound)),
        some_room,
        byte_eq,
        signals,
        intq_getc,
      ),
      taken-IsQueue q x xs is,
      s,
    )

-- A byte that is put into a queue of fewer than 63 comes last, after the others in their order. If
-- a blocked thread waits for a byte it is made ready, at the end of the ready list.
pub intq_putc-last :
    (intr_context : Bool) (byte : ℕ) (q : Intq) (k : Kernel) (items : List ℕ)
    → IsQueue q items
    → length items < 63
    → Wakes q.not_empty k
    → (q' : Intq) × (k' : Kernel) × (intq_putc intr_context byte q k ≡ ok (true, q', k'))
      × IsQueue q' (items ++ (byte ∷ []))
      × Signalled q.not_empty k k'
unfolding intq_putc
intq_putc-last intr_context byte q k items is room w =
    let (k', signals, s) = signal-Signalled q.not_empty k w in
    let some_room : (next q.head == q.tail) ≡ false =
      ne→== (next q.head) q.tail
        (λ z. absurd (omega (arith, z, room, is.items_length, is.head_bound, is.tail_bound))) in
    (
      record q { buf = set q.buf q.head byte; head = next q.head; not_empty = none },
      k',
      simp (
        some_room,
        byte_of-buf q q.head (omega (arith, is.buf_length, is.head_bound)),
        signals,
        intq_putc,
      ),
      put-IsQueue q byte items is room,
      s,
    )
