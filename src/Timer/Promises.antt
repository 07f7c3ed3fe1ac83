-- ===== src/Timer/Promises.antt =====
-- Each method of TimerManager does to the table of timers what is promised.
use mathlib.Core.List.{Perm}
use mathlib.Core.List.Perm
use mathlib.Core.Path.{subst}
use learn_server_concise.Base.{
  ℕ, ◌≡◌, ◌≢◌, refl, ap, sym, Bool, false, ◌&&◌, ◌||◌, not, List, [], ◌∷◌, ◌==◌, ==_iff,
  if◌then◌else◌, map, select, contains, arith, Option, none, Outcome, ok, Returns, Returns-bind,
  ◌>>=◌, ◌∙◌, Bool-cases, Option-cases, inl, inr,
}
use learn_server_concise.OrderedSet.Laws.{contains-insert}
use learn_server_concise.Timer.{
  Timer, TimerManager, add_timer, insert_timer, comparator, cancel, reset, refresh,
  list_expired_callback, has_timer, detect_clock_rollover,
}
use learn_server_concise.Timer.Order.{comparator-IsOrder}
use learn_server_concise.Timer.Invariant.{IsValid, Distinct, is_set}
use learn_server_concise.Timer.Methods.{add_timer-IsValid}
use learn_server_concise.Timer.Expired.{List-cases, is_expired, contains-select, Distinct-IsSorted}
use learn_server_concise.Timer.Same.{Distinct-select, same-perm}
use learn_server_concise.Timer.Contract.{Expires, list_expired_callback-Expires}
use learn_server_concise.Timer.Cancel.{Cancels, cancel-Cancels}
use learn_server_concise.Timer.Rearm.{Resets, reset-Resets, Refreshes, refresh-Refreshes}
use learn_server_concise.Timer.History.{Call, adds, cancels, resets, refreshes, expires}
use learn_server_concise.Timer.Table.{
  Table, Reply, done, answered, called, write_if, promised, Agrees, is_due, some_queued,
}

-- A call with its reply.
unfoldable pub make_call : TimerManager → Call → Outcome (TimerManager × Reply)
make_call m (adds p ms fn cyclic now) = ok ((add_timer p ms fn cyclic now m).0, done)
make_call m (cancels p) = cancel p m >>= λ r. ok (r.0, answered r.1)
make_call m (resets p ms from_now now) =
    ok ((reset p ms from_now now m).manager, answered (reset p ms from_now now m).returned)
make_call m (refreshes p now) = ok ((refresh p now m).0, answered (refresh p now m).1)
make_call m (expires probe now) = list_expired_callback probe now m [] >>= λ r. ok (r.0, called r.1)

unfoldable pub run_calls : TimerManager → List Call → Outcome (List Reply)
unfolding make_call
run_calls m [] = ok []
run_calls m (c ∷ cs) = make_call m c >>= λ r. run_calls r.0 cs >>= λ replies. ok (r.1 ∷ replies)

-- The table forgets the order of the queue.
pub record Represents (m : TimerManager) (t : Table) : Type 0 where
  pub object : (q : ℕ) → t.object q ≡ m.heap q
  pub queue : (q : ℕ) → contains q t.queued ≡ contains q m.timers
  pub distinct : Distinct t.queued
  pub time : t.last_time ≡ m.previous_time

some_queued-same :
    (xs ys : List ℕ) → ((q : ℕ) → contains q xs ≡ contains q ys) → some_queued xs ≡ some_queued ys
some_queued-same [] [] s = refl
some_queued-same [] (y ∷ ys) s = absurd (ground (arith, s y))
some_queued-same (x ∷ xs) [] s = absurd (ground (arith, s x))
some_queued-same (x ∷ xs) (y ∷ ys) s = refl

has_timer_lem : (m : TimerManager) → has_timer m ≡ some_queued m.timers
unfolding has_timer
has_timer_lem m = elim (List-cases m.timers) [ inl e ↦ rw e refl | inr (q, qs, e) ↦ rw e refl ]

-- A reply and the state after it, against those of the table.
abbrev pub Follows : Table × Reply → TimerManager × Reply → Type 0
Follows s r = IsValid r.0 × Represents r.0 s.0 × Agrees r.1 s.1

-- The queue of `m` in another order.
module _ (m : TimerManager) (qs : List ℕ) (v : IsValid m)
    (same : (q : ℕ) → contains q qs ≡ contains q m.timers) (d : Distinct qs) where
  abbrev t : Table
  t = record { object = m.heap; queued = qs; last_time = m.previous_time }

  -- Writing one object under a condition.
  written :
      (b : Bool) (p : ℕ) (o : Timer) (heap : ℕ → Timer)
      → heap p ≡ (if b then o else m.heap p)
      → ((q : ℕ) → q ≢ p → heap q ≡ m.heap q)
      → (q : ℕ) → (write_if b p o t).object q ≡ heap q
  written b p o heap e others q = elim (Bool-cases (p == q)) [
    | inl h ↦
        subst (λ x. (write_if b p o t).object x ≡ heap x) ((==_iff p q).0 h)
          (elim (Bool-cases b) [ inl k ↦ ground (arith, e) | inr k ↦ ground (arith, e) ])
    | inr h ↦ elim (Bool-cases b) [
      | inl k ↦ rw (k, h) (sym (others q (λ z. ground arith)))
      | inr k ↦ rw k (sym (others q (λ z. ground arith)))
    ]
  ]

  pub adds_refines :
      (p ms : ℕ) (fn : Option ℕ) (cyclic : Bool) (now : ℕ)
      → p ≢ 0
      → contains p m.timers ≡ false
      → Returns
          (Follows (promised t (adds p ms fn cyclic now)))
          (make_call m (adds p ms fn cyclic now))
  unfolding make_call promised Agrees add_timer insert_timer
  adds_refines p ms fn cyclic now n c = (
    add_timer-IsValid p ms fn cyclic now m v n c,
    record {
      object = λ q. refl;
      queue = λ q.
          ap (λ b. p == q || b) (same q)
          ∙ sym (contains-insert (comparator _) (comparator-IsOrder _) p q m.timers);
      distinct = (same p ∙ c, d);
      time = refl;
    },
    tt,
  )

  pub cancels_refines :
      (p : ℕ) → Returns (Follows (promised t (cancels p))) (make_call m (cancels p))
  unfolding make_call promised Agrees
  cancels_refines p =
      Returns-bind (Cancels p m) (Follows (promised t (cancels p))) (cancel p m) _
        (cancel-Cancels p m v)
        (λ a h. (
          h.valid,
          record {
            object =
                written (is_set (m.heap p).fn) p (record (m.heap p) { fn = none }) a.0.heap
                  (h.object ∙ unset) h.others;
            queue = λ q. elim (Bool-cases (is_set (m.heap p).fn)) [
              | inl e ↦ rw e (contains-select _ q qs ∙ ground (arith, same q, h.queue q))
              | inr e ↦ rw e (ground (arith, same q, h.queue q))
            ];
            distinct = elim (Bool-cases (is_set (m.heap p).fn)) [
              | inl e ↦ rw e (Distinct-select _ qs d)
              | inr e ↦ rw e d
            ];
            time = elim (Bool-cases (is_set (m.heap p).fn)) [
              | inl e ↦ rw e (sym h.time)
              | inr e ↦ rw e (sym h.time)
            ];
          },
          h.result,
        ))
    where
      unset :
          record (m.heap p) { fn = none }
          ≡ (if is_set (m.heap p).fn then record (m.heap p) { fn = none } else m.heap p)
      unset = elim (Option-cases (m.heap p).fn) [ inl e ↦ rw e refl | inr (f, e) ↦ rw e ]

  pub resets_refines :
      (p ms : ℕ) (from_now : Bool) (now : ℕ)
      → p ≢ 0
      → Returns
          (Follows (promised t (resets p ms from_now now)))
          (make_call m (resets p ms from_now now))
  unfolding make_call promised Agrees
  resets_refines p ms from_now now n = (
    h.valid,
    record {
      object =
          written (not (ms == (m.heap p).ms && not from_now) && is_set (m.heap p).fn) p _ _ h.object
            h.others;
      queue = λ q. ground (arith, same q, h.queue q);
      distinct = ground (arith, d);
      time = ground (arith, h.time);
    },
    h.result,
  )
    where
      h : Resets p ms from_now now m (reset p ms from_now now m)
      h = reset-Resets p ms from_now now m v n

  pub refreshes_refines :
      (p now : ℕ)
      → p ≢ 0
      → Returns (Follows (promised t (refreshes p now))) (make_call m (refreshes p now))
  unfolding make_call promised Agrees
  refreshes_refines p now n = (
    h.valid,
    record {
      object = written (is_set (m.heap p).fn) p _ _ h.object h.others;
      queue = λ q. ground (arith, same q, h.queue q);
      distinct = ground (arith, d);
      time = ground (arith, h.time);
    },
    h.result,
  )
    where
      h : Refreshes p now m (refresh p now m)
      h = refresh-Refreshes p now m v n

  pub expires_refines :
      (probe now : ℕ)
      → probe ≢ 0
      → contains probe m.timers ≡ false
      → Returns (Follows (promised t (expires probe now))) (make_call m (expires probe now))
  unfolding make_call promised Agrees detect_clock_rollover
  expires_refines probe now n c =
      Returns-bind (Expires now m []) (Follows (promised t (expires probe now)))
        (list_expired_callback probe now m []) _
        (list_expired_callback-Expires probe now m [] v n c)
        (λ a h. (
          h.valid,
          record {
            object = λ q. rw (same q) (sym (h.objects q));
            queue = λ q. contains-select _ q qs ∙ ground (arith, same q, h.queue q);
            distinct = Distinct-select _ qs d;
            time = rw (some_queued-same qs m.timers same, ← has_timer_lem m) (sym h.time);
          },
          subst (λ xs. Perm xs (map (λ q. (m.heap q).fn) (select (is_due now t) qs)))
              (sym h.callbacks)
              (Perm.map (λ q. (m.heap q).fn)
                (same-perm _ _
                  (Distinct-select _ m.timers (Distinct-IsSorted m.heap m.timers v.ordered))
                  (Distinct-select _ qs d)
                  (λ q. ground (
                    arith,
                    contains-select (is_expired now m) q m.timers,
                    contains-select (is_due now t) q qs,
                    same q,
                  )))),
        ))
