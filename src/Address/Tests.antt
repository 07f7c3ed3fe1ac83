-- ===== src/Address/Tests.antt =====
-- The addresses of include/address.h and src/address.cc on concrete ones.
use learn_server_concise.Base.{ℕ, ◌≡◌, ◌↔◌, refl, List, [], ◌∷◌, true, false, Returns, arith}
use learn_server_concise.Address.{
  Ipv4Address, make_ipv4, ipv4_bytes, ipv4_text, ipv4, to_string, less,
}
use learn_server_concise.Address.Order.{Consistent, less-Consistent}
use learn_server_concise.Address.Ports.{to_string-once}
use learn_server_concise.Address.Text.{read_endpoint, ipv4_text-read}

-- 127.0.0.1, port 80
abbrev local_host : Ipv4Address
local_host = make_ipv4 2130706433 80

less-Consistent_example :
    Consistent (ipv4_bytes local_host) (ipv4_bytes (make_ipv4 1 81)) (ipv4_bytes (make_ipv4 2 81))
less-Consistent_example =
    less-Consistent (ipv4_bytes local_host) (ipv4_bytes (make_ipv4 1 81))
      (ipv4_bytes (make_ipv4 2 81))

less_test :
    (less (ipv4_bytes local_host) (ipv4_bytes (make_ipv4 1 81)) ≡ true)
    × (less (ipv4_bytes (make_ipv4 2 81)) (ipv4_bytes (make_ipv4 1 81)) ≡ false)
unfolding less
less_test = (refl, refl)

ipv4_text-read_example : read_endpoint (ipv4_text local_host) ≡ (2130706433, 80)
ipv4_text-read_example = ipv4_text-read 2130706433 80 (omega arith) (omega arith)

-- What another address left in the stream.
abbrev one_written : List ℕ
one_written = 49 ∷ []

to_string-once_example :
    Returns
      (λ r. ((r.0 ≡ ipv4_text local_host) ↔ (one_written ≡ [])) × (r.1 ≡ r.0))
      (to_string (ipv4 local_host) one_written)
to_string-once_example = to_string-once local_host one_written
