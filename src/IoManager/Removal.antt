-- ===== src/IoManager/Removal.antt =====
-- removeEventListener.
use learn_server_concise.Base.{
  get_elem?-inside, ℕ, ◌+◌, ◌-◌, ◌≡◌, refl, sym, Bool, true, false, some, leb, if◌then◌else◌,
  length, get_elem?, set, ok, Returns, arith, Bool-cases, inl, inr,
}
use learn_server_concise.FdContext.{
  FdEventType, none_event, read_event, write_event, EventSet, has_event, remove_event, EventHandler,
  empty_handler, FdContext, get_event_handler, put_handler, reset_handler,
}
use learn_server_concise.IoManager.{
  ctl_mod, ctl_del, Kernel, IoManager, context_at, down, remove_event_listener, ctl_of,
}
use learn_server_concise.IoManager.Contexts.{
  ContextOk, weight, IsValid, replaced-IsValid, pending-bound, All-get, down-pending,
}

-- A kernel that accepts changes and removals on the descriptor `fd`.
abbrev pub Accepts : Kernel → ℕ → Type 0
Accepts k fd =
    (es : EventSet) → (k.epoll_ctl ctl_mod fd es ≡ true) × (k.epoll_ctl ctl_del fd es ≡ true)

pub Accepts-ctl :
    (k : Kernel) (fd : ℕ) (es : EventSet) → Accepts k fd → k.epoll_ctl (ctl_of es) fd es ≡ true
Accepts-ctl k fd es a = ground (arith, a es)

removed-ContextOk :
    (c : FdContext) (e : FdEventType)
    → ContextOk c
    → ContextOk (reset_handler (record c { events = remove_event c.events e }) e)
removed-ContextOk c none_event o = o
removed-ContextOk c read_event o = ground (arith, o.writes)
removed-ContextOk c write_event o = ground (arith, o.reads)

removed-weight :
    (c : FdContext) (e : FdEventType) (h : EventHandler)
    → has_event c.events e ≡ true
    → weight (put_handler (record c { events = remove_event c.events e }) e h) + 1 ≡ weight c
removed-weight c none_event h f = cc
removed-weight c read_event h f = ground arith
removed-weight c write_event h f = ground arith

handler_lem :
    (c : FdContext) (e : FdEventType)
    → has_event c.events e ≡ true
    → (h : EventHandler) × (get_event_handler c e ≡ ok h)
handler_lem c none_event f = absurd (cc)
handler_lem c read_event f = (c.read_handler, refl)
handler_lem c write_event f = (c.write_handler, refl)

-- What removeEventListener gives for the context `c`.
pub record Removes (fd : ℕ) (e : FdEventType) (c : FdContext) (m : IoManager) (r : IoManager × Bool)
    : Type 0 where
  pub result : r.1 ≡ has_event c.events e
  pub pending : r.0.pending ≡ (if has_event c.events e then m.pending - 1 else m.pending)
  pub contexts : r.0.contexts ≡ (
      if has_event c.events e
      then set m.contexts fd (reset_handler (record c { events = remove_event c.events e }) e)
      else m.contexts)
  pub scheduler : r.0.scheduler ≡ m.scheduler
  pub valid : IsValid r.0

-- On a valid state, and with a kernel that accepts, `removeEventListener` returns and says whether
-- the event was waited for: then it is not any more, its handler is empty and one event less is
-- pending. Nothing is scheduled, and the state stays valid.
pub remove_event_listener-Removes :
    (k : Kernel) (fd : ℕ) (e : FdEventType) (m : IoManager) (c : FdContext)
    → IsValid m
    → get_elem? m.contexts fd ≡ some c
    → Accepts k fd
    → Returns (Removes fd e c m) (remove_event_listener k fd e m)
unfolding remove_event_listener
remove_event_listener-Removes k fd e m c v g a = elim (Bool-cases (has_event c.events e)) [
  | inr h ↦
      rw (inside, g, context_at, h)
        (record { result = sym h; pending = rw h; contexts = rw h; scheduler = refl; valid = v })
  | inl h ↦
      rw
        (
          inside,
          g,
          context_at,
          h,
          Accepts-ctl k fd (remove_event c.events e) a,
          (handler_lem c e h).1,
        )
        (record {
          result = sym h;
          pending = rw h (counted h);
          contexts = rw h;
          scheduler = refl;
          valid =
              replaced-IsValid m _ fd c _ v g
                (removed-ContextOk c e (All-get ContextOk m.contexts fd c v.contexts_ok g)) refl
                (omega (
                  arith,
                  counted h,
                  removed-weight c e empty_handler h,
                  (pending-bound m fd c v g).1,
                ));
        })
]
  where
    inside : leb (length m.contexts) fd ≡ false
    inside = get_elem?-inside m.contexts fd c g

    counted : has_event c.events e ≡ true → down m.pending ≡ m.pending - 1
    counted h =
        down-pending m.pending (pending-bound m fd c v g).0
          (omega (arith, removed-weight c e empty_handler h, (pending-bound m fd c v g).1))
