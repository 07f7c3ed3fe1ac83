-- ===== src/FdContext.antt =====
-- struct FDContext of include/io_manager.h and its methods in src/io_manager.cc: what is known of one
-- descriptor. A set of events is a pair of bits, READ 0x1 and WRITE 0x4.
use learn_server_concise.Base.{
  ℕ, Bool, true, false, not, ◌&&◌, Option, none, some, Outcome, ok, stop, assertion,
}
use learn_server_concise.Scheduler.{Executable, a_fiber, a_callback}

-- FDEventType, as the argument of a method
pub data FdEventType : Type 0 where
  none_event read_event write_event : FdEventType

pub record EventSet : Type 0 where
  pub read : Bool
  pub write : Bool

abbrev pub no_events : EventSet
no_events = record { read = false; write = false }

-- `events & event`
abbrev pub has_event : EventSet → FdEventType → Bool
has_event e none_event = false
has_event e read_event = e.read
has_event e write_event = e.write

-- `events | event`
abbrev pub add_event : EventSet → FdEventType → EventSet
add_event e none_event = e
add_event e read_event = record e { read = true }
add_event e write_event = record e { write = true }

-- `events & ~event`
abbrev pub remove_event : EventSet → FdEventType → EventSet
remove_event e none_event = e
remove_event e read_event = record e { read = false }
remove_event e write_event = record e { write = false }

-- `events == FDEventType::NONE`
abbrev pub is_none : EventSet → Bool
is_none e = not e.read && not e.write

-- `a & b` and `a & ~b`
abbrev pub common : EventSet → EventSet → EventSet
common a b = record { read = a.read && b.read; write = a.write && b.write }

abbrev pub without : EventSet → EventSet → EventSet
without a b = record { read = a.read && not b.read; write = a.write && not b.write }

-- FDContext::EventHandler; `scheduler` says that m_scheduler is not null.
pub record EventHandler : Type 0 where
  pub scheduler : Bool
  pub fiber : Option ℕ
  pub callback : Option ℕ

abbrev pub empty_handler : EventHandler
empty_handler = record { scheduler = false; fiber = none; callback = none }

-- FDContext
pub record FdContext : Type 0 where
  pub read_handler : EventHandler
  pub write_handler : EventHandler
  pub fd : ℕ
  pub events : EventSet

abbrev pub fresh_context : ℕ → FdContext
fresh_context i = record {
  read_handler = empty_handler;
  write_handler = empty_handler;
  fd = i;
  events = no_events;
}

-- FDContext::getEventHandler
abbrev pub get_event_handler : FdContext → FdEventType → Outcome EventHandler
get_event_handler c none_event = stop assertion
get_event_handler c read_event = ok c.read_handler
get_event_handler c write_event = ok c.write_handler

-- A write through the reference that getEventHandler returned.
abbrev pub put_handler : FdContext → FdEventType → EventHandler → FdContext
put_handler c none_event h = c
put_handler c read_event h = record c { read_handler = h }
put_handler c write_event h = record c { write_handler = h }

-- FDContext::resetHandler
abbrev pub reset_handler : FdContext → FdEventType → FdContext
reset_handler c e = put_handler c e empty_handler

-- What triggerEvent schedules, and the handler that the moves leave.
abbrev pub handler_work : EventHandler → Option Executable
handler_work h = elim h.fiber [
  | some f ↦ some (a_fiber (some f))
  | none ↦ elim h.callback [ some c ↦ some (a_callback (some c)) | none ↦ none ]
]

abbrev pub spent_handler : EventHandler → EventHandler
spent_handler h = elim h.fiber [
  | some f ↦ record h { scheduler = false; fiber = none }
  | none ↦ record h { scheduler = false; callback = none }
]
