-- ===== src/Timer/Added.antt =====
-- The timer that TimerManager::addTimer makes.
use learn_server_concise.Base.{
  ℕ, ◌+◌, ◌%◌, ◌^◌, ◌<◌, ◌≡◌, ◌∙◌, refl, true, false, some, ◌==◌, contains, arith,
}
use learn_server_concise.OrderedSet.Laws.{contains-insert}
use learn_server_concise.Timer.{TimerManager, add_timer, insert_timer, comparator}
use learn_server_concise.Timer.Order.{comparator-IsOrder}

module _ (p cb now ms : ℕ) (m : TimerManager) where
  pub add_timer-object :
      let r = (add_timer p ms (some cb) false now m).0 in
      ((r.heap p).cyclic ≡ false) × ((r.heap p).fn ≡ some cb)
  unfolding add_timer insert_timer
  add_timer-object = let self : (p == p) ≡ true = ground arith in (rw self refl, rw self refl)

  pub add_timer-due :
      now + ms < 2 ^ 64 → ((add_timer p ms (some cb) false now m).0.heap p).next ≡ now + ms
  unfolding add_timer insert_timer
  add_timer-due l = let self : (p == p) ≡ true = ground arith in rw self (omega arith)

  pub add_timer-next : ((add_timer p ms (some cb) false now m).0.heap p).next ≡ (now + ms) % 2 ^ 64
  unfolding add_timer insert_timer
  add_timer-next = let self : (p == p) ≡ true = ground arith in rw self refl

  pub add_timer-queued : contains p (add_timer p ms (some cb) false now m).0.timers ≡ true
  unfolding add_timer insert_timer
  add_timer-queued =
      contains-insert (comparator _) (comparator-IsOrder _) p p m.timers ∙ ground arith
