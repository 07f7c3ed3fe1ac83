-- ===== src/Scheduler/Tasks.antt =====
-- What `schedule` does to the task list.
use mathlib.Core.List.{append-nil, append_assoc}
use learn_server_concise.Base.{
  ℕ, ◌≡◌, refl, sym, ◌∙◌, ap, Bool, true, false, not, ◌&&◌, ◌||◌, List, [], ◌∷◌, ◌++◌, Option, none,
  All, All-append, select, map, arith, Bool-cases, inl, inr,
}
use learn_server_concise.Scheduler.{
  Task, Executable, make_task, Scheduler, is_empty, has_work, schedule_non_block, schedule,
  schedule_from, schedule_all,
}

-- Every task in the list has a fiber or a function to run.
abbrev pub HasWork : List Task → Type 0
HasWork ts = All (λ t. has_work t ≡ true) ts

-- `schedule` puts a task that has something to run at the end of the list, whatever `instant` says,
-- and calls `tickle` exactly if the list was empty; scheduleNonBlock with `instant` set would put the
-- same task at the front.
pub schedule-order :
    (exec : Executable) (tid : Option ℕ) (instant : Bool) (s : Scheduler)
    → has_work (make_task exec tid) ≡ true
    → ((schedule exec tid instant s).0.tasks ≡ s.tasks ++ make_task exec tid ∷ [])
      × ((schedule exec tid instant s).1 ≡ is_empty s.tasks)
      × ((schedule_non_block exec tid true s).0.tasks ≡ make_task exec tid ∷ s.tasks)
unfolding schedule schedule_non_block
schedule-order exec tid instant s h = rw h (refl, refl, refl)

-- The same for a single task.
pub schedule_non_block-HasWork :
    (exec : Executable) (tid : Option ℕ) (instant : Bool) (s : Scheduler)
    → HasWork s.tasks
    → HasWork (schedule_non_block exec tid instant s).0.tasks
unfolding schedule_non_block
schedule_non_block-HasWork exec tid instant s w =
    elim (Bool-cases (has_work (make_task exec tid))) [
      | inr e ↦ rw e w
      | inl e ↦ elim (Bool-cases instant) [
        | inl i ↦ rw (e, i) (e, w)
        | inr i ↦ rw (e, i) (All-append _ s.tasks (make_task exec tid ∷ []) w (e, tt))
      ]
    ]

-- The tasks that a batch adds.
abbrev pub batch : List Executable → List Task
batch es = select has_work (map (λ e. make_task e none) es)

is_empty-append : (ts : List Task) (t : Task) → is_empty (ts ++ t ∷ []) ≡ false
is_empty-append [] t = refl
is_empty-append (u ∷ ts) t = refl

non_block_work :
    (e : Executable) (s : Scheduler)
    → has_work (make_task e none) ≡ true
    → schedule_non_block e none false s
      ≡ (record s { tasks = s.tasks ++ make_task e none ∷ [] }, is_empty s.tasks)
unfolding schedule_non_block
non_block_work e s h = rw h

non_block_idle :
    (e : Executable) (s : Scheduler)
    → has_work (make_task e none) ≡ false
    → schedule_non_block e none false s ≡ (s, is_empty s.tasks)
unfolding schedule_non_block
non_block_idle e s h = rw h

schedule_from-batch :
    (es : List Executable) (s : Scheduler) (need : Bool)
    → ((schedule_from es s need).0.tasks ≡ s.tasks ++ batch es)
      × ((schedule_from es s need).1 ≡ (need || (is_empty s.tasks && not (is_empty es))))
unfolding schedule_from
schedule_from-batch [] s need = (sym (append-nil s.tasks), ground arith)
schedule_from-batch (e ∷ es) s need = elim (Bool-cases (has_work (make_task e none))) [
  | inr idle ↦
      let step = ap next (non_block_idle e s idle) in
      let ih = schedule_from-batch es s (is_empty s.tasks || need) in
      rw idle (ap (λ r. r.0.tasks) step ∙ ih.0, ap (λ r. r.1) step ∙ ground (arith, ih))
  | inl work ↦
      let grown : Scheduler = record s { tasks = s.tasks ++ make_task e none ∷ [] } in
      let step = ap next (non_block_work e s work) in
      let ih = schedule_from-batch es grown (is_empty s.tasks || need) in
      rw work (
        ap (λ r. r.0.tasks) step ∙ ih.0 ∙ append_assoc s.tasks (make_task e none ∷ []) (batch es),
        ap (λ r. r.1) step ∙ ground (arith, ih, is_empty-append s.tasks (make_task e none)),
      )
]
  where
    next : Scheduler × Bool → Scheduler × Bool
    next r = schedule_from es r.0 (r.1 || need)

-- `schedule` of a range appends the tasks that have something to run, in their order, and calls
-- `tickle` exactly if the list was empty and the range is not.
pub schedule_all-batch :
    (es : List Executable) (s : Scheduler)
    → ((schedule_all es s).0.tasks ≡ s.tasks ++ batch es)
      × ((schedule_all es s).1 ≡ (is_empty s.tasks && not (is_empty es)))
unfolding schedule_all
schedule_all-batch es s = schedule_from-batch es s false

All-select : (ts : List Task) → HasWork (select has_work ts)
All-select [] = tt
All-select (t ∷ ts) = elim (Bool-cases (has_work t)) [
  | inl e ↦ rw e (e, All-select ts)
  | inr e ↦ rw e (All-select ts)
]

-- Scheduling a range keeps the list free of tasks that have nothing to run, whatever is in the range:
-- what the search of the list asserts of every task.
pub schedule_all-HasWork :
    (es : List Executable) (s : Scheduler) → HasWork s.tasks → HasWork (schedule_all es s).0.tasks
schedule_all-HasWork es s w =
    rw ((schedule_all-batch es s).0)
      (All-append _ s.tasks (batch es) w (All-select (map (λ e. make_task e none) es)))
