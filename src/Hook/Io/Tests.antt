-- ===== src/Hook/Io/Tests.antt =====
-- doIO of src/hook.cc on a concrete manager, with the idle loop's handling of the event in the waits.
use learn_server_concise.Base.{
  ℕ, ◌+◌, ◌<◌, ◌≤◌, ◌≡◌, ◌≢◌, refl, true, false, List, [], ◌∷◌, some, none, ◌==◌, ltb, length,
  contains, get_elem?-inside, if◌then◌else◌, ok, ◌>>=◌, Returns, Returns-bind, arith,
}
use learn_server_concise.Timer.{TimerManager}
use learn_server_concise.FdContext.{FdContext, none_event, read_event, fresh_context}
use learn_server_concise.IoManager.{make_room}
use learn_server_concise.IoManager.Listeners.{waited_for}
use learn_server_concise.IoManager.Samples.{willing, busy, busy-IsValid, no_timers-IsValid}
use learn_server_concise.FdManager.{FileDescriptor, forever, receive, get_timeout}
use learn_server_concise.IdleLoop.{Flags, on_context, real_events, handle_event}
use learn_server_concise.IdleLoop.Ready.{Handles, handle_event-Handles}
use learn_server_concise.Hook.Io.{
  CallResult, returned, interrupted, try_again, bytes, Surroundings, do_io,
}
use learn_server_concise.Hook.Io.First.{IsAllocator, IsReady, EventComes, Gives, do_io-first}

-- An address above all that are queued.
abbrev above : List ℕ → ℕ
above [] = 1
above (p ∷ ps) = p + above ps

above-positive : (ps : List ℕ) → 0 < above ps
above-positive [] = omega arith
above-positive (p ∷ ps) = omega (arith, above-positive ps)

not_queued : (q : ℕ) (ps : List ℕ) → above ps ≤ q → contains q ps ≡ false
not_queued q [] h = refl
not_queued q (p ∷ ps) h =
    let later : contains q ps ≡ false = not_queued q ps (omega (arith, h)) in
    let positive = above-positive ps in
    let apart : (p == q) ≡ false = ground (arith, positive, h) in rw (apart, later) refl

abbrev new_timer : TimerManager → ℕ
new_timer ts = above ts.timers

new_timer-IsAllocator : IsAllocator new_timer
new_timer-IsAllocator ts = (
  (λ e. let positive = above-positive ts.timers in absurd (omega (arith, e, positive))),
  not_queued (above ts.timers) ts.timers (omega arith),
)

abbrev readable : Flags
readable = record { readable = true; writable = false; failed = false; hung_up = false }

-- Interrupted once, then nothing to read, then 5 bytes.
abbrev some_calls : ℕ → CallResult
some_calls i = if i == 0 then interrupted else if i == 1 then try_again else returned 5

-- In each wait the descriptor 1 becomes readable.
abbrev around : Surroundings
around = record {
  kernel = willing;
  new_timer = new_timer;
  cb = 7;
  now = λ j. 1000 + j;
  calls = some_calls;
  swapped_out = λ j m. handle_event willing (on_context 1 readable) m >>= λ m'. ok (m', false);
}

reads : read_event ≢ none_event
reads e = absurd (cc)

comes : EventComes around 100 1 read_event 9 reads new_timer-IsAllocator
unfolding make_room
comes j m c m' w =
    Returns-bind (Handles 1 (real_events readable) waiting m')
      (λ r. (r.1 ≡ false) × IsReady willing 1 read_event r.0)
      (handle_event willing (on_context 1 readable) m') _
      (handle_event-Handles willing 1 readable m' waiting w.valid w.context refl (λ e. refl)
        (λ e. absurd (cc)))
      (λ m'' h.
        let within = get_elem?-inside m''.contexts 1 h.waits.0 h.waits.1 in
        let known : ltb 1 (length m''.contexts) ≡ true = ground (arith, within) in
        (
          refl,
          record {
            context = h.waits.0;
            listens = record {
              valid = h.valid;
              context = rw known h.waits.1;
              small = rw known h.valid.few;
              free = rw h.waits.2 (ground arith);
              accepted = refl;
              piped = refl;
            };
            timers_valid = rw h.timers w.timers_valid;
          },
        ))
  where
    waiting : FdContext
    waiting = waited_for c read_event none 9

-- A socket whose reads time out after 100 ms.
abbrev open_socket : FileDescriptor
open_socket = record {
  is_init = true;
  is_socket = true;
  system_non_block = true;
  user_non_block = false;
  is_closed = false;
  fd = 1;
  recv_timeout = 100;
  send_timeout = forever;
}

busy-IsReady : IsReady willing 1 read_event busy
unfolding make_room
busy-IsReady = record {
  context = fresh_context 1;
  listens = record {
    valid = busy-IsValid;
    context = refl;
    small = omega arith;
    free = refl;
    accepted = refl;
    piped = refl;
  };
  timers_valid = no_timers-IsValid;
}

do_io-first_example :
    Returns
      (Gives around 100 1 read_event 9 reads new_timer-IsAllocator (bytes 5))
      (do_io around 3 true (some open_socket) 1 read_event receive 9 busy)
unfolding get_timeout
do_io-first_example =
    do_io-first around 100 1 read_event 9 reads new_timer-IsAllocator 2 3 open_socket receive busy
      comes busy-IsReady refl refl refl refl (omega arith) (λ x h. ground arith) refl
