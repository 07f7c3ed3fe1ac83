-- ===== src/Timer/Table.antt =====
-- What include/timer.h promises of a TimerManager, with no order among the timers: a table of the
-- timers' fields, and which timers are queued.
use learn_server_concise.Base.{
  ℕ, ◌+◌, ◌-◌, ◌*◌, ◌^◌, ◌≡◌, Bool, true, false, ◌&&◌, ◌||◌, not, List, [], ◌∷◌, ◌==◌,
  if◌then◌else◌, ltb, leb, map, select, contains, Option,
}
use mathlib.Core.List.{Perm}
use learn_server_concise.Timer.{Timer, update, new_timer, u64}
use learn_server_concise.Timer.Invariant.{is_set}
use learn_server_concise.Timer.History.{Call, adds, cancels, resets, refreshes, expires}

-- The queued timers stand in the order in which they were added.
pub record Table : Type 0 where
  pub object : ℕ → Timer
  pub queued : List ℕ
  pub last_time : ℕ

-- What a caller sees of a call: nothing, the Boolean that is returned, or callbacks.
pub data Reply : Type 0 where
  done : Reply
  answered : Bool → Reply
  called : List (Option ℕ) → Reply

-- The time has gone back by more than an hour.
abbrev went_back : ℕ → Table → Bool
went_back now t = ltb now t.last_time && ltb now (u64 (t.last_time + 2 ^ 64 - 60 * 60 * 1000))

abbrev pub is_due : ℕ → Table → ℕ → Bool
is_due now t q = went_back now t || leb (t.object q).next now

abbrev pub rearmed : ℕ → Bool → ℕ → Timer → Timer
rearmed ms from_now now o = record o {
  ms = ms;
  next = u64 ((if from_now then now else u64 (o.next + 2 ^ 64 - o.ms)) + ms);
}

abbrev pub restarted : ℕ → Timer → Timer
restarted now o =
    if o.cyclic then record o { next = u64 (now + o.ms) } else record o { fn = Option.none }

abbrev pub some_queued : List ℕ → Bool
some_queued [] = false
some_queued (q ∷ qs) = true

abbrev pub write_if : Bool → ℕ → Timer → Table → Table
write_if b p o t = if b then record t { object = update t.object p o } else t

-- Each call, by what it means for the table.
unfoldable pub promised : Table → Call → Table × Reply
promised t (adds p ms fn cyclic now) = (
  record t { object = update t.object p (new_timer ms fn cyclic now); queued = p ∷ t.queued },
  done,
)
promised t (cancels p) =
    let armed = is_set (t.object p).fn in
    (
      record (write_if armed p (record (t.object p) { fn = Option.none }) t) {
        queued = if armed then select (λ q. not (p == q)) t.queued else t.queued;
      },
      answered armed,
    )
promised t (resets p ms from_now now) =
    let same = ms == (t.object p).ms && not from_now in
    let armed = is_set (t.object p).fn in
    (
      write_if (not same && armed) p (rearmed ms from_now now (t.object p)) t,
      answered (same || armed),
    )
promised t (refreshes p now) =
    let armed = is_set (t.object p).fn in
    (
      write_if armed p (record (t.object p) { next = u64 (now + (t.object p).ms) }) t,
      answered armed,
    )
promised t (expires probe now) =
    let due = is_due now t in
    (
      record {
        object =
            λ q. if due q && contains q t.queued then restarted now (t.object q) else t.object q;
        queued = select (λ q. not (due q) || (t.object q).cyclic) t.queued;
        last_time = if some_queued t.queued then now else t.last_time;
      },
      called (map (λ q. (t.object q).fn) (select due t.queued)),
    )

unfoldable pub run_table : Table → List Call → List Reply
unfolding promised
run_table t [] = []
run_table t (c ∷ cs) = (promised t c).1 ∷ run_table (promised t c).0 cs

-- Two replies that a caller who does not care for the order of callbacks cannot tell apart.
unfoldable pub Agrees : Reply → Reply → Type 0
Agrees done done = Unit {0}
Agrees (answered a) (answered b) = a ≡ b
Agrees (called xs) (called ys) = Perm xs ys
Agrees _ _ = ⊥

unfoldable pub AllAgree : List Reply → List Reply → Type 0
unfolding Agrees
AllAgree [] [] = Unit {0}
AllAgree (a ∷ xs) (b ∷ ys) = Agrees a b × AllAgree xs ys
AllAgree _ _ = ⊥
