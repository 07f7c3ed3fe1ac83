-- ===== src/Hook/Calls.antt =====
-- The calls of src/hook.cc that go through doIO: what each of them waits for, and which time-out of the
-- descriptor it takes.
use learn_server_concise.Base.{ℕ, Bool, Option, Outcome}
use learn_server_concise.FdContext.{FdEventType, read_event, write_event}
use learn_server_concise.FdManager.{FileDescriptor, TimeoutType, receive, send}
use learn_server_concise.IoManager.{IoManager}
use learn_server_concise.Hook.Io.{IoResult, Surroundings, do_io}

pub data IoCall : Type 0 where
  accept_call read_call readv_call recv_call recvfrom_call recvmsg_call : IoCall
  write_call writev_call send_call sendto_call sendmsg_call : IoCall

-- The arguments `event` and `fd_timeout_type` of doIO.
pub event_of : IoCall → FdEventType
event_of accept_call = read_event
event_of read_call = read_event
event_of readv_call = read_event
event_of recv_call = read_event
event_of recvfrom_call = read_event
event_of recvmsg_call = read_event
event_of write_call = write_event
event_of writev_call = write_event
event_of send_call = write_event
event_of sendto_call = write_event
event_of sendmsg_call = write_event

unfoldable pub timeout_of : IoCall → TimeoutType
timeout_of accept_call = receive
timeout_of read_call = receive
timeout_of readv_call = receive
timeout_of recv_call = receive
timeout_of recvfrom_call = receive
timeout_of recvmsg_call = receive
timeout_of write_call = send
timeout_of writev_call = send
timeout_of send_call = send
timeout_of sendto_call = send
timeout_of sendmsg_call = send

-- read, write and the others, on a thread with the hooks enabled or not.
pub hooked_io :
    Surroundings
    → ℕ
    → IoCall
    → Bool
    → Option FileDescriptor
    → (fd this_fiber : ℕ) → IoManager
    → Outcome (IoManager × IoResult)
unfolding event_of timeout_of
hooked_io around n c enabled entry fd this_fiber m =
    do_io around n enabled entry fd (event_of c) (timeout_of c) this_fiber m
