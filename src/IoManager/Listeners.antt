-- ===== src/IoManager/Listeners.antt =====
-- addEventListener and removeEventListener.
use learn_server_concise.Base.{
  get_elem?-ge, get_elem?-set, ℕ, ◌+◌, ◌*◌, ◌^◌, ◌≤◌, ◌≡◌, ◌≢◌, refl, sym, ◌∙◌, Bool, true, false,
  Option, none, some, if◌then◌else◌, length, get_elem?, ok, stop, undefined, Returns, arith,
}
use learn_server_concise.FdContext.{
  FdEventType, none_event, read_event, write_event, EventSet, has_event, add_event, is_none,
  EventHandler, empty_handler, FdContext, get_event_handler, put_handler,
}
use learn_server_concise.IoManager.{
  ctl_add, ctl_mod, Kernel, IoManager, make_room, context_at, up, add_event_listener,
}
use learn_server_concise.IoManager.Contexts.{
  ContextOk, weight, IsValid, replaced-IsValid, pending-bound, All-get, make_room_lem,
}

add-ContextOk :
    (c : FdContext) (e : FdEventType) (callback : Option ℕ) (this_fiber : ℕ)
    → ContextOk c
    → has_event c.events e ≡ false
    → e ≢ none_event
    → ContextOk (
        put_handler
          (record c { events = add_event c.events e })
          e
          (record {
            scheduler = true;
            fiber = elim callback [ none ↦ some this_fiber | some f ↦ none ];
            callback = callback;
          }))
add-ContextOk c none_event callback this_fiber o h n = absurd (n refl)
add-ContextOk c read_event callback this_fiber o h n = ground (arith, o.writes)
add-ContextOk c write_event callback this_fiber o h n = ground (arith, o.reads)

-- A handler whose event is not waited for is empty.
free_handler :
    (c : FdContext) (e : FdEventType) (es : EventSet)
    → ContextOk c
    → has_event c.events e ≡ false
    → e ≢ none_event
    → get_event_handler (record c { events = es }) e ≡ ok empty_handler
free_handler c none_event es o h n = absurd (n refl)
free_handler c read_event es o h n = ground (arith, o.reads)
free_handler c write_event es o h n = ground (arith, o.writes)

add-weight :
    (c : FdContext) (e : FdEventType) (h : EventHandler)
    → has_event c.events e ≡ false
    → e ≢ none_event
    → weight (put_handler (record c { events = add_event c.events e }) e h) ≡ weight c + 1
add-weight c none_event h f n = absurd (n refl)
add-weight c read_event h f n = ground arith
add-weight c write_event h f n = ground arith

-- What addEventListener gives: nothing changes but the room where the kernel refuses; otherwise the
-- event is waited for, and counted.
pub record Adds (fd : ℕ) (e : FdEventType) (accepted : Bool) (m : IoManager) (r : IoManager × Bool)
    : Type 0 where
  pub result : r.1 ≡ accepted
  pub pending : r.0.pending ≡ (if accepted then m.pending + 1 else m.pending)
  pub scheduler : r.0.scheduler ≡ m.scheduler
  pub valid : IsValid r.0

room-IsValid :
    (m : IoManager) (fd : ℕ)
    → IsValid m
    → length (make_room fd m.contexts) ≤ 2 ^ 32
    → IsValid (record m { contexts = make_room fd m.contexts })
room-IsValid m fd v small =
    let room = make_room_lem fd m.contexts v.contexts_ok in
    record { contexts_ok = room.2; counted = v.counted ∙ sym room.1; few = small }

module _ (k : Kernel) (fd : ℕ) (e : FdEventType) (callback : Option ℕ) (this_fiber : ℕ)
    (m : IoManager) (v : IsValid m) where
  add_lem :
      (c : FdContext)
      → get_elem? (make_room fd m.contexts) fd ≡ some c
      → length (make_room fd m.contexts) ≤ 2 ^ 32
      → has_event c.events e ≡ false
      → e ≢ none_event
      → (accepted : Bool)
      → k.epoll_ctl (if is_none c.events then ctl_add else ctl_mod) fd (add_event c.events e)
        ≡ accepted
      → Returns (Adds fd e accepted m) (add_event_listener k fd e callback this_fiber m)
  unfolding add_event_listener
  add_lem c g small h n true a =
      rw (g, context_at, h, a, free_handler c e (add_event c.events e) fits h n)
        (record {
          result = refl;
          pending = counted;
          scheduler = refl;
          valid =
              replaced-IsValid room _ fd c _ valid g
                (add-ContextOk c e callback this_fiber fits h n) refl
                (omega (arith, counted, add-weight c e _ h n));
        })
    where
      room : IoManager
      room = record m { contexts = make_room fd m.contexts }

      valid : IsValid room
      valid = room-IsValid m fd v small

      fits : ContextOk c
      fits = All-get ContextOk room.contexts fd c valid.contexts_ok g

      counted : up m.pending ≡ m.pending + 1
      counted = omega (arith, (pending-bound room fd c valid g).0)
  add_lem c g small h n false a =
      rw (g, context_at, h, a)
        (record {
          result = refl;
          pending = refl;
          scheduler = refl;
          valid = room-IsValid m fd v small;
        })

-- On a valid state, for an event that is not waited for on a descriptor within the (doubled) list,
-- `addEventListener` returns, with the kernel's answer: if it accepts, one more event is pending;
-- if it refuses, none is. The scheduler is left alone and the state stays valid.
pub add_event_listener-Adds :
    (k : Kernel) (fd : ℕ) (e : FdEventType) (callback : Option ℕ) (this_fiber : ℕ) (m : IoManager)
    (c : FdContext)
    → IsValid m
    → get_elem? (make_room fd m.contexts) fd ≡ some c
    → length (make_room fd m.contexts) ≤ 2 ^ 32
    → has_event c.events e ≡ false
    → e ≢ none_event
    → Returns
        (Adds fd e
          (k.epoll_ctl (if is_none c.events then ctl_add else ctl_mod) fd (add_event c.events e))
          m)
        (add_event_listener k fd e callback this_fiber m)
add_event_listener-Adds k fd e callback this_fiber m c v g small h n =
    add_lem k fd e callback this_fiber m v c g small h n _ refl

-- The context whose event a fiber, or a function, waits for.
abbrev pub waited_for : FdContext → FdEventType → Option ℕ → ℕ → FdContext
waited_for c e callback this_fiber =
    put_handler (record c { events = add_event c.events e }) e
      (record {
        scheduler = true;
        fiber = elim callback [ none ↦ some this_fiber | some f ↦ none ];
        callback = callback;
      })

-- Where the kernel accepts, the context is written and nothing else but the count.
pub add_event_listener-waited_for :
    (k : Kernel) (fd : ℕ) (e : FdEventType) (callback : Option ℕ) (this_fiber : ℕ) (m : IoManager)
    (c : FdContext)
    → IsValid m
    → get_elem? (make_room fd m.contexts) fd ≡ some c
    → has_event c.events e ≡ false
    → e ≢ none_event
    → k.epoll_ctl (if is_none c.events then ctl_add else ctl_mod) fd (add_event c.events e) ≡ true
    → length (make_room fd m.contexts) ≤ 2 ^ 32
    → Returns
        (λ r.
          (r.1 ≡ true)
          × (r.0.timers ≡ m.timers)
          × (get_elem? r.0.contexts fd ≡ some (waited_for c e callback this_fiber)))
        (add_event_listener k fd e callback this_fiber m)
unfolding add_event_listener
add_event_listener-waited_for k fd e callback this_fiber m c v g h n a small =
    rw (g, context_at, h, a, free_handler c e (add_event c.events e) fits h n)
      (refl, refl, get_elem?-set (make_room fd m.contexts) fd c _ g)
  where
    fits : ContextOk c
    fits =
        All-get ContextOk (make_room fd m.contexts) fd c (room-IsValid m fd v small).contexts_ok g

-- The list is doubled once: a descriptor of twice its length or more is an index out of range.
pub add_event_listener-undefined :
    (k : Kernel) (fd : ℕ) (e : FdEventType) (callback : Option ℕ) (this_fiber : ℕ) (m : IoManager)
    → IsValid m
    → length m.contexts * 2 ≤ fd
    → add_event_listener k fd e callback this_fiber m ≡ stop undefined
unfolding add_event_listener
add_event_listener-undefined k fd e callback this_fiber m v h =
    rw (get_elem?-ge _ fd short, context_at)
  where
    short : length (make_room fd m.contexts) ≤ fd
    short = ground (arith, make_room_lem fd m.contexts v.contexts_ok)
