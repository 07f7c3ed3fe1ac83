-- ===== src/Address.antt =====
-- include/address.h and src/address.cc: socket addresses, as the bytes of their sockaddr structures on
-- a little-endian machine. AF_INET is 2 and AF_INET6 is 10, as on Linux. A function whose end is
-- reached without a `return` is undefined.
pub mod Order
pub mod Ports
pub mod Text
mod Tests
use Prim.Native.Nat.{◌/◌}
use learn_server_concise.Base.{
  ℕ, zero, suc, ◌+◌, ◌-◌, ◌*◌, ◌%◌, ◌^◌, Bool, true, false, not, ◌&&◌, List, [], ◌∷◌, ◌++◌, Option,
  none, some, ltb, leb, ◌==◌, if◌then◌else◌, length, replicate, Outcome, ok, stop, undefined, ◌>>=◌,
  ◌>>◌, assert, ensure,
}
use learn_server_concise.LogFormatter.{decimal}

-- The first `n` bytes.
abbrev pub first_bytes : ℕ → List ℕ → List ℕ
first_bytes zero bytes = []
first_bytes (suc n) [] = []
first_bytes (suc n) (b ∷ bs) = b ∷ first_bytes n bs

-- The sign of memcmp over `n` bytes.
pub data Sign : Type 0 where
  negative nothing positive : Sign

unfoldable pub memcmp : ℕ → List ℕ → List ℕ → Sign
memcmp zero a b = nothing
memcmp (suc n) [] b = nothing
memcmp (suc n) (x ∷ xs) [] = nothing
memcmp (suc n) (x ∷ xs) (y ∷ ys) =
    let rest = memcmp n xs ys in if ltb x y then negative else if ltb y x then positive else rest

abbrev is_nothing : Sign → Bool
is_nothing nothing = true
is_nothing _ = false

-- std::min
abbrev min : ℕ → ℕ → ℕ
min a b = if ltb b a then b else a

-- Address::operator<, on the bytes of getAddr(), of which there are getAddrLen().
unfoldable pub less : List ℕ → List ℕ → Bool
unfolding memcmp
less a b = elim (memcmp (min (length a) (length b)) a b) [
  | negative ↦ true
  | positive ↦ false
  | nothing ↦ ltb (length a) (length b)
]

-- Address::operator== and Address::operator!=
unfoldable pub equal : List ℕ → List ℕ → Bool
unfolding memcmp
equal a b = length a == length b && is_nothing (memcmp (length a) a b)

unfoldable pub differs : List ℕ → List ℕ → Bool
unfolding equal
differs a b = not (equal a b)

-- A uint16_t and a uint32_t in memory.
abbrev pub bytes_of_short : ℕ → List ℕ
bytes_of_short n = n % 2 ^ 8 ∷ n / 2 ^ 8 % 2 ^ 8 ∷ []

abbrev pub bytes_of_word : ℕ → List ℕ
bytes_of_word n = n % 2 ^ 8 ∷ n / 2 ^ 8 % 2 ^ 8 ∷ n / 2 ^ 16 % 2 ^ 8 ∷ n / 2 ^ 24 % 2 ^ 8 ∷ []

-- htons, ntohs and htonl, ntohl: they swap the bytes of their argument.
abbrev pub swap_short : ℕ → ℕ
swap_short n = n % 2 ^ 8 * 2 ^ 8 + n / 2 ^ 8 % 2 ^ 8

abbrev pub swap_word : ℕ → ℕ
swap_word n =
    n % 2 ^ 8 * 2 ^ 24
    + n / 2 ^ 8 % 2 ^ 8 * 2 ^ 16
    + n / 2 ^ 16 % 2 ^ 8 * 2 ^ 8
    + n / 2 ^ 24 % 2 ^ 8

-- The member m_addr of IPv4Address, a sockaddr_in, whose last eight bytes are 0.
pub record Ipv4Address : Type 0 where
  pub family : ℕ
  pub port : ℕ
  pub address : ℕ

-- IPv4Address::IPv4Address
abbrev pub make_ipv4 : ℕ → ℕ → Ipv4Address
make_ipv4 address port = record { family = 2; port = swap_short port; address = swap_word address }

-- The bytes behind IPv4Address::getAddr, as many as IPv4Address::getAddrLen returns.
abbrev pub ipv4_bytes : Ipv4Address → List ℕ
ipv4_bytes a =
    bytes_of_short a.family ++ bytes_of_short a.port ++ bytes_of_word a.address ++ replicate 8 0

-- IPv4Address::getPort and IPv4Address::setPort
unfoldable pub get_port : Ipv4Address → ℕ
get_port a = swap_short a.port

unfoldable pub set_port : ℕ → Ipv4Address → Ipv4Address
set_port port a = record a { port = swap_short port }

-- Four numbers with dots between them, and a fifth behind a colon.
abbrev pub dotted : ℕ → ℕ → ℕ → ℕ → ℕ → List ℕ
dotted a b c d port =
    decimal a
    ++ (46 ∷ (decimal b ++ (46 ∷ (decimal c ++ (46 ∷ (decimal d ++ (58 ∷ decimal port)))))))

-- IPv4Address::insert: the text that it writes
unfoldable pub ipv4_text : Ipv4Address → List ℕ
ipv4_text a =
    let addr = swap_word a.address in
    dotted (addr / 2 ^ 24 % 2 ^ 8) (addr / 2 ^ 16 % 2 ^ 8) (addr / 2 ^ 8 % 2 ^ 8) (addr % 2 ^ 8)
      (swap_short a.port)

-- The member m_addr of IPv6Address, a sockaddr_in6.
pub record Ipv6Address : Type 0 where
  pub family : ℕ
  pub port : ℕ
  pub flow_info : ℕ
  pub address : List ℕ
  pub scope_id : ℕ

-- IPv6Address::IPv6Address(): memset leaves every other member 0.
abbrev pub any_ipv6 : Ipv6Address
any_ipv6 = record { family = 10; port = 0; flow_info = 0; address = replicate 16 0; scope_id = 0 }

-- IPv6Address::IPv6Address(const char*, uint16_t), where `readable` is what may be read behind the
-- pointer: memcpy reads 16 bytes.
unfoldable pub make_ipv6 : List ℕ → ℕ → Outcome Ipv6Address
make_ipv6 readable port = do
  ensure (leb 16 (length readable)) undefined
  ok (record any_ipv6 { port = swap_short port; address = first_bytes 16 readable })

-- The bytes behind IPv6Address::getAddr, as many as IPv6Address::getAddrLen returns.
abbrev pub ipv6_bytes : Ipv6Address → List ℕ
ipv6_bytes a =
    bytes_of_short a.family
    ++ bytes_of_short a.port
    ++ bytes_of_word a.flow_info
    ++ a.address
    ++ bytes_of_word a.scope_id

-- IPv6Address::insert
abbrev pub ipv6_text : Ipv6Address → List ℕ
ipv6_text a = 91 ∷ []

-- The classes of which objects can be made.
pub data Address : Type 0 where
  ipv4 : Ipv4Address → Address
  ipv6 : Ipv6Address → Address
  unknown_address : Address

-- getAddr with getAddrLen, of UnknowAddress without a `return`
pub get_addr : Address → Outcome (List ℕ)
get_addr (ipv4 a) = ok (ipv4_bytes a)
get_addr (ipv6 a) = ok (ipv6_bytes a)
get_addr unknown_address = stop undefined

-- Address::getFamily: sa_family are the first two bytes.
pub get_family : Address → Outcome ℕ
unfolding get_addr
get_family a = get_addr a >>= λ bytes. elim bytes [
  | [] ↦ stop undefined
  | low ∷ rest ↦ elim rest [ [] ↦ stop undefined | high ∷ more ↦ ok (low + high * 2 ^ 8) ]
]

-- getPort and setPort of the two classes derived from IPAddress
pub port_of : Address → Outcome ℕ
unfolding get_port
port_of (ipv4 a) = ok (get_port a)
port_of (ipv6 a) = stop undefined
port_of unknown_address = stop undefined

pub with_port : ℕ → Address → Address
unfolding set_port
with_port port (ipv4 a) = ipv4 (set_port port a)
with_port port (ipv6 a) = ipv6 a
with_port port unknown_address = unknown_address

-- `insert` of the three classes
pub text_of : Address → Outcome (List ℕ)
unfolding ipv4_text
text_of (ipv4 a) = ok (ipv4_text a)
text_of (ipv6 a) = ok (ipv6_text a)
text_of unknown_address = stop undefined

-- IPv4Address::broadcastAddress
pub broadcast_address : ℕ → Ipv4Address → Outcome Address
broadcast_address prefix_len a = do assert (not (ltb 32 prefix_len)); stop undefined

-- Address::toString, where `written` is what the thread's `ss` holds.
pub to_string : Address → List ℕ → Outcome (List ℕ × List ℕ)
unfolding text_of
to_string a written = text_of a >>= λ text. ok (written ++ text, written ++ text)

-- Calls of toString on one thread, and their results.
pub to_strings : List Address → List ℕ → Outcome (List (List ℕ))
unfolding to_string
to_strings [] written = ok []
to_strings (a ∷ rest) written =
    to_string a written >>= λ r. to_strings rest r.1 >>= λ rs. ok (r.0 ∷ rs)
