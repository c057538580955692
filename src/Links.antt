-- ===== src/Links.antt =====
-- lib/kernel/list.c and list.h: doubly linked lists. `struct list_elem` has an address, a number;
-- the store gives the two pointers of each element, and `none` is a null pointer. A `struct list`
-- is the addresses of its head and its tail. A null pointer that is followed is a `panic`.
pub mod Chain
pub mod Inserts
pub mod Queue
pub mod Ordered
use operating_system_pl_nt.Prelude.{
  ℕ, zero, suc, ◌+◌, ◌==◌, Bool, true, false, not, ◌&&◌, Option, none, some, if◌then◌else◌, update,
  Outcome, ok, panic, out_of_fuel, ◌>>=◌, ◌>>◌, assert, ltb,
}

-- `struct list_elem`, for every address
pub record Store : Type 0 where
  pub prev : ℕ → Option ℕ
  pub next : ℕ → Option ℕ

-- `struct list`
pub record Links : Type 0 where
  pub head : ℕ
  pub tail : ℕ

abbrev pub set_prev : ℕ → Option ℕ → Store → Store
set_prev a p m = record m { prev = update m.prev a p }

abbrev pub set_next : ℕ → Option ℕ → Store → Store
set_next a p m = record m { next = update m.next a p }

-- `*p`
abbrev pub follow : Option ℕ → Outcome ℕ
follow none = panic
follow (some a) = ok a

abbrev pub is_null : Option ℕ → Bool
is_null none = true
is_null (some _) = false

abbrev pub is_head : ℕ → Store → Bool
is_head e m = is_null (m.prev e) && not (is_null (m.next e))

abbrev pub is_interior : ℕ → Store → Bool
is_interior e m = not (is_null (m.prev e)) && not (is_null (m.next e))

abbrev pub is_tail : ℕ → Store → Bool
is_tail e m = not (is_null (m.prev e)) && is_null (m.next e)

abbrev pub or : Bool → Bool → Bool
or true b = true
or false b = b

unfoldable pub list_init : Links → Store → Store
list_init l m =
    set_next l.tail none
      (set_prev l.tail (some l.head) (set_next l.head (some l.tail) (set_prev l.head none m)))

unfoldable pub list_begin : Links → Store → Outcome ℕ
list_begin l m = follow (m.next l.head)

unfoldable pub list_next : ℕ → Store → Outcome ℕ
list_next e m = do assert (or (is_head e m) (is_interior e m)); follow (m.next e)

abbrev pub list_end : Links → ℕ
list_end l = l.tail

unfoldable pub list_rbegin : Links → Store → Outcome ℕ
list_rbegin l m = follow (m.prev l.tail)

unfoldable pub list_prev : ℕ → Store → Outcome ℕ
list_prev e m = do assert (or (is_interior e m) (is_tail e m)); follow (m.prev e)

unfoldable pub list_insert : ℕ → ℕ → Store → Outcome Store
list_insert before elem m = do
  assert (or (is_interior before m) (is_tail before m))
  let m = set_prev elem (m.prev before) m
  let m = set_next elem (some before) m
  p ← follow (m.prev before)
  let m = set_next p (some elem) m
  ok (set_prev before (some elem) m)

unfoldable pub list_splice : ℕ → ℕ → ℕ → Store → Outcome Store
list_splice before first last m = do
  assert (or (is_interior before m) (is_tail before m))
  if first == last then ok m else (do
    last ← list_prev last m
    assert (is_interior first m)
    assert (is_interior last m)
    p ← follow (m.prev first)
    let m = set_next p (m.next last) m
    n ← follow (m.next last)
    let m = set_prev n (m.prev first) m
    let m = set_prev first (m.prev before) m
    let m = set_next last (some before) m
    b ← follow (m.prev before)
    let m = set_next b (some first) m
    ok (set_prev before (some last) m))

unfoldable pub list_push_front : Links → ℕ → Store → Outcome Store
list_push_front l elem m = do b ← list_begin l m; list_insert b elem m

unfoldable pub list_push_back : Links → ℕ → Store → Outcome Store
list_push_back l elem m = list_insert (list_end l) elem m

unfoldable pub list_remove : ℕ → Store → Outcome (ℕ × Store)
list_remove elem m = do
  assert (is_interior elem m)
  p ← follow (m.prev elem)
  let m = set_next p (m.next elem) m
  n ← follow (m.next elem)
  let m = set_prev n (m.prev elem) m
  r ← follow (m.next elem)
  ok (r, m)

unfoldable pub list_empty : Links → Store → Outcome Bool
list_empty l m = do b ← list_begin l m; ok (b == list_end l)

unfoldable pub list_front : Links → Store → Outcome ℕ
list_front l m = do e ← list_empty l m; assert (not e); follow (m.next l.head)

unfoldable pub list_back : Links → Store → Outcome ℕ
list_back l m = do e ← list_empty l m; assert (not e); follow (m.prev l.tail)

unfoldable pub list_pop_front : Links → Store → Outcome (ℕ × Store)
list_pop_front l m = do front ← list_front l m; (_, m) ← list_remove front m; ok (front, m)

unfoldable pub list_pop_back : Links → Store → Outcome (ℕ × Store)
list_pop_back l m = do back ← list_back l m; (_, m) ← list_remove back m; ok (back, m)

-- the loop of `list_size`
pub size_loop : ℕ → Links → ℕ → ℕ → Store → Outcome ℕ
size_loop zero l e cnt m = out_of_fuel
size_loop (suc fuel) l e cnt m =
    if e == list_end l then ok cnt else (do e ← list_next e m; size_loop fuel l e (cnt + 1) m)

-- The number of rounds is one more than the number of elements.
unfoldable pub list_size : ℕ → Links → Store → Outcome ℕ
unfolding size_loop
list_size fuel l m = do b ← list_begin l m; size_loop fuel l b 0 m

-- the loop of `list_reverse`: each element's pointers change places, and `e->prev` is where
-- `e->next` was
reverse_loop : ℕ → Links → ℕ → Store → Outcome Store
reverse_loop zero l e m = out_of_fuel
reverse_loop (suc fuel) l e m = if e == list_end l then ok m else (do
  let m = record m { prev = update m.prev e (m.next e); next = update m.next e (m.prev e) }
  e ← follow (m.prev e)
  reverse_loop fuel l e m)

unfoldable pub list_reverse : ℕ → Links → Store → Outcome Store
unfolding reverse_loop
list_reverse fuel l m = do
  e ← list_empty l m
  if e then ok m else (do
    b ← list_begin l m
    m ← reverse_loop fuel l b m
    let m = record m {
      next = update m.next l.head (m.prev l.tail);
      prev = update m.prev l.tail (m.next l.head);
    }
    h ← follow (m.next l.head)
    t ← follow (m.prev l.tail)
    ok (record m { prev = update m.prev h (m.next t); next = update m.next t (m.prev h) }))

-- `less` with `aux`, a function of the two elements
module _ (less : ℕ → ℕ → Bool) where
  -- the loop of `list_insert_ordered`
  pub place_loop : ℕ → Links → ℕ → ℕ → Store → Outcome ℕ
  place_loop zero l elem e m = out_of_fuel
  place_loop (suc fuel) l elem e m =
      if e == list_end l
      then ok e
      else (if less elem e then ok e else (do e ← list_next e m; place_loop fuel l elem e m))

  unfoldable pub list_insert_ordered : ℕ → Links → ℕ → Store → Outcome Store
  unfolding place_loop
  list_insert_ordered fuel l elem m = do
    b ← list_begin l m
    e ← place_loop fuel l elem b m
    list_insert e elem m

  -- the loop of `list_max`
  pub max_loop : ℕ → Links → ℕ → ℕ → Store → Outcome ℕ
  max_loop zero l max e m = out_of_fuel
  max_loop (suc fuel) l max e m =
      if e == list_end l
      then ok max
      else (do n ← list_next e m; max_loop fuel l (if less max e then e else max) n m)

  unfoldable pub list_max : ℕ → Links → Store → Outcome ℕ
  unfolding max_loop
  list_max fuel l m = do
    max ← list_begin l m
    if max == list_end l then ok max else (do e ← list_next max m; max_loop fuel l max e m)

  -- the loop of `list_min`
  min_loop : ℕ → Links → ℕ → ℕ → Store → Outcome ℕ
  min_loop zero l min e m = out_of_fuel
  min_loop (suc fuel) l min e m =
      if e == list_end l
      then ok min
      else (do n ← list_next e m; min_loop fuel l (if less e min then e else min) n m)

  unfoldable pub list_min : ℕ → Links → Store → Outcome ℕ
  unfolding min_loop
  list_min fuel l m = do
    min ← list_begin l m
    if min == list_end l then ok min else (do e ← list_next min m; min_loop fuel l min e m)
