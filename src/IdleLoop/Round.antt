-- ===== src/IdleLoop/Round.antt =====
-- A whole round of onIdle: the timers, then the events.
use learn_server_concise.Base.{
  ℕ, ◌≡◌, ◌≢◌, refl, sym, ap, ◌∙◌, Bool, true, false, not, ◌&&◌, ◌||◌, List, [], ◌∷◌, Option, none,
  some, get_elem?, map, contains, if◌then◌else◌, Outcome, ok, stop, assertion, ◌>>=◌, Returns,
  Returns-value, Returns-weaken, arith, Bool-cases, inl, inr,
}
use mathlib.Core.Path.{subst}
use learn_server_concise.Timer.{list_expired_callback}
use learn_server_concise.Timer.Invariant.{Distinct, Pending}
use learn_server_concise.Timer.Contract.{Expires, list_expired_callback-Expires}
use learn_server_concise.Scheduler.{a_callback, schedule_all, is_empty}
use learn_server_concise.FdContext.{FdContext, common, without, is_none}
use learn_server_concise.IoManager.{Kernel, IoManager, context_at}
use learn_server_concise.IoManager.Contexts.{IsValid}
use learn_server_concise.IoManager.Wakes.{tickle_lem}
use learn_server_concise.IdleLoop.{
  Flags, EpollEvent, from_pipe, on_context, real_events, handle_event, handle_events,
  schedule_expired, idle_round,
}
use learn_server_concise.IdleLoop.Ready.{Handles, handle_event-Handles, handle_event-asserts}

-- An event that makes ready one event that the context waits for and another that it does not. As
-- epoll reports errors and hang-ups whatever was asked for, it can report such ones.
abbrev is_mixed : FdContext → Flags → Bool
is_mixed c flags =
    not (is_none (common c.events (real_events flags)))
    && not (is_none (without (real_events flags) c.events))

abbrev pub found_faulty : Option FdContext → Flags → Bool
found_faulty none flags = false
found_faulty (some c) flags = is_mixed c flags

abbrev pub is_faulty : List FdContext → EpollEvent → Bool
is_faulty cs from_pipe = false
is_faulty cs (on_context fd flags) = found_faulty (get_elem? cs fd) flags

abbrev pub some_faulty : List FdContext → List EpollEvent → Bool
some_faulty cs [] = false
some_faulty cs (e ∷ es) = is_faulty cs e || some_faulty cs es

-- The descriptors of events have contexts: epoll_wait reports what was added before.
abbrev pub AllKnown : List FdContext → List EpollEvent → Type 0
AllKnown cs [] = Unit
AllKnown cs (from_pipe ∷ es) = AllKnown cs es
AllKnown cs (on_context fd flags ∷ es) =
    ((c : FdContext) × (get_elem? cs fd ≡ some c)) × AllKnown cs es

-- The descriptors of events; epoll_wait reports each at most once.
abbrev pub fds_of : List EpollEvent → List ℕ
fds_of [] = []
fds_of (from_pipe ∷ es) = fds_of es
fds_of (on_context fd flags ∷ es) = fd ∷ fds_of es

-- Both halves of the manager are valid.
pub record IsSound (m : IoManager) : Type 0 where
  pub listeners : IsValid m
  pub timers : Pending [] m.timers

pub same-IsValid :
    (m m' : IoManager) → m'.contexts ≡ m.contexts → m'.pending ≡ m.pending → IsValid m → IsValid m'
same-IsValid m m' c n v = record {
  contexts_ok = rw c v.contexts_ok;
  counted = rw (c, n) v.counted;
  few = rw c v.few;
}

-- How a round ends, where the Boolean says whether one of its events is faulty.
abbrev pub Ends : Bool → Outcome IoManager → Type 0
Ends faulty r = if faulty then r ≡ stop assertion else Returns IsSound r

-- A write to another context changes nothing of what is said of events.
known-others :
    (fd : ℕ) (cs cs' : List FdContext) (es : List EpollEvent)
    → ((other : ℕ) → fd ≢ other → get_elem? cs' other ≡ get_elem? cs other)
    → contains fd (fds_of es) ≡ false
    → AllKnown cs es
    → AllKnown cs' es × (some_faulty cs' es ≡ some_faulty cs es)
known-others fd cs cs' [] o n a = (tt, refl)
known-others fd cs cs' (from_pipe ∷ es) o n a = known-others fd cs cs' es o n a
known-others fd cs cs' (on_context x flags ∷ es) o n a =
    let apart : fd ≢ x = ground arith in
    let later : contains fd (fds_of es) ≡ false = ground arith in
    let rest = known-others fd cs cs' es o later a.1 in
    (
      ((a.0.0, o x apart ∙ a.0.1), rest.0),
      ap (λ f. found_faulty f flags || some_faulty cs' es) (o x apart)
          ∙ ap (λ b. found_faulty (get_elem? cs x) flags || b) rest.1,
    )

nothing_common :
    (k : Kernel) (fd : ℕ) (flags : Flags) (m : IoManager) (c : FdContext)
    → get_elem? m.contexts fd ≡ some c
    → is_none (common c.events (real_events flags)) ≡ true
    → handle_event k (on_context fd flags) m ≡ ok m
unfolding handle_event
nothing_common k fd flags m c g e = rw (g, context_at, e) refl

module _ (k : Kernel) (p : k.pipe_write ≡ true) where
  -- What an event that is not faulty leaves alone.
  abbrev Keeps : ℕ → IoManager → IoManager → Type 0
  Keeps fd m m' =
      IsValid m'
      × (m'.timers ≡ m.timers)
      × ((other : ℕ) → fd ≢ other → get_elem? m'.contexts other ≡ get_elem? m.contexts other)

  handle_event-keeps :
      (fd : ℕ) (flags : Flags) (m : IoManager) (c : FdContext)
      → IsValid m
      → get_elem? m.contexts fd ≡ some c
      → is_mixed c flags ≡ false
      → Returns (Keeps fd m) (handle_event k (on_context fd flags) m)
  handle_event-keeps fd flags m c v g h =
      elim (Bool-cases (is_none (common c.events (real_events flags)))) [
        | inl e ↦ rw (nothing_common k fd flags m c g e) (v, refl, λ other n. refl)
        | inr e ↦
            Returns-weaken (Handles fd (real_events flags) c m) (Keeps fd m)
              (handle_event k (on_context fd flags) m)
              (handle_event-Handles k fd flags m c v g p (λ r. ground arith) (λ w. ground arith))
              (λ m' q. (q.valid, q.timers, q.others))
      ]

  then-Ends :
      (fd : ℕ) (flags : Flags) (es : List EpollEvent) (m : IoManager) (c : FdContext)
      → IsSound m
      → get_elem? m.contexts fd ≡ some c
      → AllKnown m.contexts es
      → contains fd (fds_of es) ≡ false
      → ((m' : IoManager)
          → IsSound m'
          → AllKnown m'.contexts es
          → Ends (some_faulty m'.contexts es) (handle_events k es m'))
      → Ends
          (is_mixed c flags || some_faulty m.contexts es)
          (handle_event k (on_context fd flags) m >>= λ m'. handle_events k es m')
  then-Ends fd flags es m c s g a d later = elim (Bool-cases (is_mixed c flags)) [
    | inl e ↦
        rw (e, handle_event-asserts k fd flags m c s.listeners g p (ground arith) (ground arith))
          refl
    | inr e ↦
        let kept =
          Returns-value (Keeps fd m) (handle_event k (on_context fd flags) m)
            (handle_event-keeps fd flags m c s.listeners g e) in
        let same = known-others fd m.contexts kept.0.contexts es kept.2.2 d a in
        rw (e, kept.1, sym same.1)
          (later kept.0 (record { listeners = kept.2.0; timers = rw kept.2.1 s.timers }) same.0)
  ]

  -- Events one after the other: each either is faulty, and ends the process, or is served.
  handle_events-Ends :
      (es : List EpollEvent) (m : IoManager)
      → IsSound m
      → AllKnown m.contexts es
      → Distinct (fds_of es)
      → Ends (some_faulty m.contexts es) (handle_events k es m)
  unfolding handle_events handle_event
  handle_events-Ends [] m s a d = s
  handle_events-Ends (from_pipe ∷ es) m s a d =
      handle_events-Ends es (record m { piped = 0 })
        (record { listeners = same-IsValid m _ refl refl s.listeners; timers = s.timers }) a d
  handle_events-Ends (on_context fd flags ∷ es) m s a d =
      subst
        (λ o.
          Ends (found_faulty o flags || some_faulty m.contexts es)
            (handle_event k (on_context fd flags) m >>= λ m'. handle_events k es m'))
        (sym a.0.1)
        (then-Ends fd flags es m a.0.0 s a.0.1 a.1 d.0
          (λ m' s' a'. handle_events-Ends es m' s' a' d.1))

  -- Scheduling the expired callbacks touches neither the contexts nor the timers.
  abbrev Scheduled : List (Option ℕ) → IoManager → IoManager → Type 0
  Scheduled fns m m' =
      (m'.contexts ≡ m.contexts)
      × (m'.pending ≡ m.pending)
      × (m'.timers ≡ m.timers)
      × (m'.scheduler ≡ (schedule_all (map a_callback fns) m.scheduler).0)

  schedule_expired_lem :
      (fns : List (Option ℕ)) (m : IoManager) → Returns (Scheduled fns m) (schedule_expired k fns m)
  unfolding schedule_expired
  schedule_expired_lem fns m = elim (Bool-cases (schedule_all (map a_callback fns) m.scheduler).1) [
    | inl e ↦ rw e (
        tickle_lem k (record m { scheduler = (schedule_all (map a_callback fns) m.scheduler).0 }) p)
    | inr e ↦ rw e (refl, refl, refl, refl)
  ]

  -- On a valid state, where the pipe can be written, the local timer of listExpiredCallback is at an
  -- address that is not queued, and epoll_wait reports each descriptor at most once and only ones that
  -- have contexts, a round of onIdle either returns, with the contexts, the count of pending events and
  -- the timers valid, or fails an assertion. It fails exactly if one of the events makes ready both
  -- something that its context waits for and something that it does not.
  pub idle_round-Ends :
      (probe now : ℕ) (es : List EpollEvent) (m : IoManager)
      → IsSound m
      → probe ≢ 0
      → contains probe m.timers.timers ≡ false
      → AllKnown m.contexts es
      → Distinct (fds_of es)
      → Ends (some_faulty m.contexts es) (idle_round k probe now es m)
  unfolding idle_round
  idle_round-Ends probe now es m s n c a d =
      let x =
        Returns-value (Expires now m.timers []) (list_expired_callback probe now m.timers [])
          (list_expired_callback-Expires probe now m.timers [] s.timers n c) in
      let m' : IoManager = record m { timers = x.0.0 } in
      elim (Bool-cases (is_empty x.0.1)) [
        | inl e ↦
            rw (x.1, e)
              (handle_events-Ends es m'
                (record { listeners = same-IsValid m m' refl refl s.listeners; timers = x.2.valid })
                a d)
        | inr e ↦
            let q =
              Returns-value (λ m''. Scheduled x.0.1 m' m'') (schedule_expired k x.0.1 m')
                (schedule_expired_lem x.0.1 m') in
            rw (x.1, e, q.1)
              (subst (λ cs. Ends (some_faulty cs es) (handle_events k es q.0)) q.2.0
                (handle_events-Ends es q.0
                  (record {
                    listeners = same-IsValid m q.0 q.2.0 q.2.1 s.listeners;
                    timers = rw q.2.2 x.2.valid;
                  })
                  (subst (λ cs. AllKnown cs es) (sym q.2.0) a) d))
      ]
