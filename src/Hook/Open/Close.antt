-- ===== src/Hook/Open/Close.antt =====
-- Descriptors on their way into the manager, and out of it.
use learn_server_concise.Base.{
  ℕ, ◌≡◌, ◌≢◌, refl, ◌∙◌, Bool, true, List, Option, none, some, get_elem?, get_elem?-set,
  get_elem?-set_other, ok, Returns, Returns-bind, arith, ap, Option-cases, inl, inr,
}
use learn_server_concise.FdContext.{FdContext, read_event}
use learn_server_concise.IoManager.{Kernel, IoManager, cancel_all}
use learn_server_concise.IoManager.Contexts.{IsValid}
use learn_server_concise.IoManager.Removal.{Accepts}
use learn_server_concise.IoManager.Cancel.{Cancels, cancel_all-Cancels}
use learn_server_concise.FdManager.{Os, OsLaws, FileDescriptor, get, receive}
use learn_server_concise.FdManager.Sockets.{AllForced, Gets, get-Gets, get-known, remove_lem}
use learn_server_concise.Hook.Io.{IoResult, Surroundings, do_io}
use learn_server_concise.Hook.Open.{accepted_fd, register, socket, accept, cancel_waits, close}

module _ {S : Type 0} (os : Os S) where
  -- What is known of a descriptor that was just opened.
  pub record Registered (fd : ℕ) (fds : List (Option FileDescriptor))
      (r : Option ℕ × List (Option FileDescriptor) × S) : Type 0 where
    pub result : r.0 ≡ some fd
    pub entry : (f : FileDescriptor) × (get_elem? r.1 fd ≡ some (some f))
    pub others : (other : ℕ) → fd ≢ other → get_elem? r.1 other ≡ get_elem? fds other
    pub forced : AllForced os r.1 r.2

  register_lem :
      (fd : ℕ) (slot : Option FileDescriptor) (fds : List (Option FileDescriptor)) (s : S)
      → OsLaws os
      → get_elem? fds fd ≡ some slot
      → AllForced os fds s
      → Returns (Registered fd fds) (register os (some fd) fds s)
  unfolding register
  register_lem fd slot fds s laws e a =
      Returns-bind (Gets os fd true fds) (Registered fd fds) (get os fd true fds s) _
        (get-Gets os fd true slot fds s laws e a)
        (λ r h. record {
          result = refl;
          entry = elim (Option-cases r.0) [
            | inl e ↦ absurd (ground (arith, h.made refl))
            | inr (f, e) ↦ (f, h.entry ∙ ap some e)
          ];
          others = h.others;
          forced = h.forced;
        })

  -- With an fcntl that behaves as documented, the hooked socket enters the descriptor that the real call
  -- returned, if it is in range, into the manager, and touches no other entry; every socket that
  -- the manager knows stays non-blocking in the kernel, the new one included.
  pub socket-Registered :
      (fd : ℕ) (slot : Option FileDescriptor) (fds : List (Option FileDescriptor)) (s : S)
      → OsLaws os
      → get_elem? fds fd ≡ some slot
      → AllForced os fds s
      → Returns (Registered fd fds) (socket os true (some fd) fds s)
  unfolding socket
  socket-Registered fd slot fds s laws e a = register_lem fd slot fds s laws e a

  -- The same of accept, for the descriptor of the connection, whichever way doIO came to return it,
  -- and also on a thread whose hooks are disabled.
  pub accept-Registered :
      (around : Surroundings) (n : ℕ) (enabled : Bool) (entry : Option FileDescriptor)
      (listening this_fiber : ℕ) (m m' : IoManager) (result : IoResult) (fd : ℕ)
      (slot : Option FileDescriptor) (fds : List (Option FileDescriptor)) (s : S)
      → OsLaws os
      → do_io around n enabled entry listening read_event receive this_fiber m ≡ ok (m', result)
      → accepted_fd result ≡ some fd
      → get_elem? fds fd ≡ some slot
      → AllForced os fds s
      → Returns
          (λ r. (r.0 ≡ m') × Registered fd fds (r.1, r.2, r.3))
          (accept os around n enabled entry listening this_fiber m fds s)
  unfolding accept
  accept-Registered around n enabled entry listening this_fiber m m' result fd slot fds s laws d g e
        a =
      rw (d, g)
        (Returns-bind (Registered fd fds) (λ r. (r.0 ≡ m') × Registered fd fds (r.1, r.2, r.3))
          (register os (some fd) fds s) _ (register_lem fd slot fds s laws e a) (λ r h. (refl, h)))

  -- What close leaves of the descriptor, its waits and its entry.
  pub record Closes (fd : ℕ) (c : FdContext) (m : IoManager) (fds : List (Option FileDescriptor))
      (r : Option IoManager × List (Option FileDescriptor)) : Type 0 where
    pub entry : get_elem? r.1 fd ≡ some none
    pub others : (other : ℕ) → fd ≢ other → get_elem? r.1 other ≡ get_elem? fds other
    pub waits : (a : IoManager × Bool) × (r.0 ≡ some a.0) × Cancels fd c m a

  -- The hooked close of a descriptor that the manager knows, on a thread of a valid IOManager and with a
  -- kernel and a pipe that accept, returns: the entry is gone and no other one is touched, and
  -- whoever waited for the descriptor is scheduled and waits no more.
  pub close-Closes :
      (k : Kernel) (fd : ℕ) (f : FileDescriptor) (c : FdContext) (m : IoManager)
      (fds : List (Option FileDescriptor)) (s : S)
      → IsValid m
      → get_elem? fds fd ≡ some (some f)
      → get_elem? m.contexts fd ≡ some c
      → Accepts k fd
      → k.pipe_write ≡ true
      → Returns (Closes fd c m fds) (close os k true fd (some m) fds s)
  unfolding close cancel_waits
  close-Closes k fd f c m fds s v e g a p =
      rw (get-known os fd f fds s e, close)
        (Returns-bind (λ o. (r : IoManager × Bool) × (o ≡ some r.0) × Cancels fd c m r)
          (Closes fd c m fds) (cancel_waits k fd (some m)) _
          (Returns-bind (Cancels fd c m) _ (cancel_all k fd m) _
            (cancel_all-Cancels k fd m c v g a p) (λ r h. (r, refl, h)))
          (λ o h. record {
            entry = rw (remove_lem fd (some f) fds e) (get_elem?-set fds fd (some f) none e);
            others = λ other n.
                rw (remove_lem fd (some f) fds e) (get_elem?-set_other fds fd other none n);
            waits = h;
          }))
