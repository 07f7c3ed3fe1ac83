-- ===== src/Timer/Order.antt =====
-- The comparator of the timers' queue, and what a write to a timer object does to it.
use learn_server_concise.Base.{ℕ, ◌≤◌, ◌≡◌, ◌≢◌, true, false, List, [], ◌∷◌, All, contains, arith}
use learn_server_concise.OrderedSet.{IsSorted}
use learn_server_concise.OrderedSet.Laws.{IsOrder}
use learn_server_concise.Timer.{Timer, comparator, update}

-- For every state of the timer objects the comparator is a strict total order on the pointers, the
-- null pointer included: irreflexive, transitive, and two pointers that neither precedes are one.
pub comparator-IsOrder : (heap : ℕ → Timer) → IsOrder (comparator heap)
unfolding comparator
comparator-IsOrder heap = record {
  irrefl = λ a. ground arith;
  trans = λ a b c h k. ground arith;
  total = λ a b h k. ground arith;
}

-- Objects that are not written keep their order.
pub comparator-update :
    (heap : ℕ → Timer) (p : ℕ) (t : Timer) (a b : ℕ)
    → a ≢ p
    → b ≢ p
    → comparator (update heap p t) a b ≡ comparator heap a b
unfolding comparator
comparator-update heap p t a b h k = ground arith

-- A write that leaves the due time alone keeps every order.
pub comparator-update_same :
    (heap : ℕ → Timer) (p : ℕ) (t : Timer) (a b : ℕ)
    → t.next ≡ (heap p).next
    → comparator (update heap p t) a b ≡ comparator heap a b
unfolding comparator
comparator-update_same heap p t a b e = ground arith

All-above-update :
    (heap : ℕ → Timer) (p : ℕ) (t : Timer) (x : ℕ) (ys : List ℕ)
    → x ≢ p
    → contains p ys ≡ false
    → All (λ y. comparator heap x y ≡ true) ys
    → All (λ y. comparator (update heap p t) x y ≡ true) ys
All-above-update heap p t x [] h c a = tt
All-above-update heap p t x (y ∷ ys) h c a =
    ground (arith, comparator-update heap p t x y, All-above-update heap p t x ys h)

-- A queue without `p` stays in order when the object at `p` is written.
pub IsSorted-update :
    (heap : ℕ → Timer) (p : ℕ) (t : Timer) (ys : List ℕ)
    → contains p ys ≡ false
    → IsSorted (comparator heap) ys
    → IsSorted (comparator (update heap p t)) ys
IsSorted-update heap p t [] c s = tt
IsSorted-update heap p t (y ∷ ys) c s =
    ground (arith, IsSorted-update heap p t ys, All-above-update heap p t y ys)

All-above-update_same :
    (heap : ℕ → Timer) (p : ℕ) (t : Timer) (x : ℕ) (ys : List ℕ)
    → t.next ≡ (heap p).next
    → All (λ y. comparator heap x y ≡ true) ys
    → All (λ y. comparator (update heap p t) x y ≡ true) ys
All-above-update_same heap p t x [] e a = tt
All-above-update_same heap p t x (y ∷ ys) e a =
    ground (arith, comparator-update_same heap p t x y e, All-above-update_same heap p t x ys e)

pub IsSorted-update_same :
    (heap : ℕ → Timer) (p : ℕ) (t : Timer) (ys : List ℕ)
    → t.next ≡ (heap p).next
    → IsSorted (comparator heap) ys
    → IsSorted (comparator (update heap p t)) ys
IsSorted-update_same heap p t [] e s = tt
IsSorted-update_same heap p t (y ∷ ys) e s =
    ground (arith, IsSorted-update_same heap p t ys e, All-above-update_same heap p t y ys e)

-- In the order of the queue due times do not fall.
pub next-le :
    (heap : ℕ → Timer) (a b : ℕ)
    → a ≢ 0
    → comparator heap a b ≡ true
    → (heap a).next ≤ (heap b).next
unfolding comparator
next-le heap a b n h = ground arith

pub All-next-le :
    (heap : ℕ → Timer) (a : ℕ) (ys : List ℕ)
    → a ≢ 0
    → All (λ y. comparator heap a y ≡ true) ys
    → All (λ y. (heap a).next ≤ (heap y).next) ys
All-next-le heap a [] n h = tt
All-next-le heap a (y ∷ ys) n h = (next-le heap a y n h.0, All-next-le heap a ys n h.1)
