-- ===== src/FdManager.antt =====
-- include/fd_manager.h and src/fd_manager.cc: what is known of each open file descriptor. A flag word
-- of fcntl is its O_NONBLOCK bit and the other bits. The system calls are arguments.
pub mod Sockets
mod Tests
use learn_server_concise.Base.{
  ℕ, ◌-◌, ◌^◌, ◌≡◌, Bool, true, false, not, ◌||◌, List, Option, none, some, leb, ◌==◌,
  if◌then◌else◌, length, get_elem?, set, ◌⊎◌, replicate, Outcome, ok, stop, assertion, undefined,
}
use learn_server_concise.Fiber.{is_some}

pub record Word : Type 0 where
  pub non_block : Bool
  pub others : ℕ

-- The calls of the C library on the state `S` of the system: whether a descriptor is a socket, if
-- fstat succeeds, and F_GETFL and F_SETFL of fcntl.
pub record Os (S : Type 0) : Type 0 where
  pub fstat : ℕ → S → Option Bool
  pub get_flags : ℕ → S → Word
  pub set_flags : ℕ → Word → S → S

-- What fcntl's documentation promises: F_GETFL reports the O_NONBLOCK that F_SETFL was given; another
-- descriptor keeps its own, or shares the open file description, as a duplicate does, and has the
-- same one.
pub record OsLaws {S : Type 0} (os : Os S) : Type 0 where
  pub get-set :
      (fd : ℕ) (w : Word) (s : S) → (os.get_flags fd (os.set_flags fd w s)).non_block ≡ w.non_block
  pub get-set_other :
      (fd other : ℕ) (w : Word) (s : S)
      → ((os.get_flags other (os.set_flags fd w s)).non_block ≡ (os.get_flags other s).non_block)
        ⊎ ((os.get_flags other (os.set_flags fd w s)).non_block ≡ w.non_block)

pub record FileDescriptor : Type 0 where
  pub is_init : Bool
  pub is_socket : Bool
  pub system_non_block : Bool
  pub user_non_block : Bool
  pub is_closed : Bool
  pub fd : ℕ
  pub recv_timeout : ℕ
  pub send_timeout : ℕ

-- static_cast<uint64_t>(-1)
abbrev pub forever : ℕ
forever = 2 ^ 64 - 1

-- SO_RCVTIMEO and SO_SNDTIMEO
pub data TimeoutType : Type 0 where
  receive send : TimeoutType

-- FileDescriptor::setTimeout
pub set_timeout : TimeoutType → ℕ → FileDescriptor → FileDescriptor
set_timeout receive v f = record f { recv_timeout = v }
set_timeout send v f = record f { send_timeout = v }

-- FileDescriptor::getTimeout
unfoldable pub get_timeout : TimeoutType → FileDescriptor → ℕ
get_timeout receive f = f.recv_timeout
get_timeout send f = f.send_timeout

-- FileDescriptor::FileDescriptor(int)
abbrev pub blank : ℕ → FileDescriptor
blank fd = record {
  is_init = false;
  is_socket = false;
  system_non_block = false;
  user_non_block = false;
  is_closed = false;
  fd = fd;
  recv_timeout = forever;
  send_timeout = forever;
}

module _ {S : Type 0} (os : Os S) where
  -- FileDescriptor::init on an object that is not initialised.
  pub init_descriptor : FileDescriptor → S → FileDescriptor × S
  init_descriptor f s =
      let known = is_some (os.fstat f.fd s) in
      let socket : Bool = elim (os.fstat f.fd s) [ none ↦ false | some b ↦ b ] in
      let flags = os.get_flags f.fd s in
      let forced =
        if flags.non_block then s else os.set_flags f.fd (record flags { non_block = true }) s in
      (
        record f {
          is_init = known;
          is_socket = socket;
          system_non_block = socket;
          user_non_block = false;
          is_closed = false;
          recv_timeout = forever;
          send_timeout = forever;
        },
        if socket then forced else s,
      )

  -- FileDescriptorManagerImpl::get, where `m_data` is the list.
  pub get :
      ℕ
      → Bool
      → List (Option FileDescriptor)
      → S
      → Outcome (Option FileDescriptor × List (Option FileDescriptor) × S)
  get fd auto_create fds s =
      let made = init_descriptor (blank fd) s in
      if leb (length fds) fd
      then if auto_create then stop assertion else ok (none, fds, s)
      else elim (get_elem? fds fd) [
        | none ↦ stop undefined
        | some slot ↦
            if is_some slot || not auto_create
            then ok (slot, fds, s)
            else ok (some made.0, set fds fd (some made.0), made.1)
      ]

-- FileDescriptorManagerImpl::remove
pub remove : ℕ → List (Option FileDescriptor) → List (Option FileDescriptor)
remove fd fds = if leb (length fds) fd then fds else set fds fd none

-- The constructor FileDescriptorManagerImpl().
pub new_manager : List (Option FileDescriptor)
new_manager = replicate 64 none
