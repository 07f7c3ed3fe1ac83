-- ===== src/Address/Ports.antt =====
-- The ports, the family and the kinds of address.
use learn_server_concise.Base.{
  ℕ, ◌<◌, ◌^◌, ◌≡◌, ◌↔◌, ◌⊎◌, inl, inr, refl, ap, List, [], ◌∷◌, ◌++◌, length, length-append, ltb,
  leb, if◌then◌else◌, ok, stop, assertion, undefined, Returns, arith, Bool-cases,
}
use learn_server_concise.Address.{
  any_ipv6, swap_short, first_bytes, Ipv4Address, Ipv6Address, make_ipv4, get_port, set_port, ipv4,
  ipv6, get_family, get_addr, port_of, with_port, make_ipv6, broadcast_address, to_string, text_of,
  ipv4_text,
}

-- getPort returns the port that the constructor or setPort was given, whatever the byte order of the
-- machine, and setPort leaves the family and the address as they are.
pub set_port-get_port :
    (address p q : ℕ)
    → p < 2 ^ 16
    → q < 2 ^ 16
    → (port_of (ipv4 (make_ipv4 address p)) ≡ ok p)
      × (get_family (ipv4 (make_ipv4 address p)) ≡ ok 2)
      × (with_port q (ipv4 (make_ipv4 address p)) ≡ ipv4 (make_ipv4 address q))
unfolding port_of get_port get_family get_addr with_port set_port
set_port-get_port address p q h k = (ap ok (omega arith), refl, refl)

append_self : (w t : List ℕ) → w ++ t ≡ t → w ≡ []
append_self [] t e = refl
append_self (c ∷ cs) t e = absurd (omega (arith, length-append (c ∷ cs) t, ap length e))

-- The stream behind toString is never emptied: on a thread on which nothing was written yet it returns the
-- text of the address, and after that never again the text of any address alone.
pub to_string-once :
    (a : Ipv4Address) (written : List ℕ)
    → Returns
        (λ r. ((r.0 ≡ ipv4_text a) ↔ (written ≡ [])) × (r.1 ≡ r.0))
        (to_string (ipv4 a) written)
unfolding to_string text_of
to_string-once a written = ((λ e. append_self written (ipv4_text a) e, λ e. rw e refl), refl)

-- broadcastAddress never returns a value: it fails its assertion or its end is reached without a
-- `return`.
pub broadcast_address-stops :
    (prefix_len : ℕ) (a : Ipv4Address)
    → broadcast_address prefix_len a ≡ stop (if ltb 32 prefix_len then assertion else undefined)
unfolding broadcast_address
broadcast_address-stops prefix_len a = ground arith

-- The constructor of IPv6Address reads 16 bytes, so that it is undefined for every shorter text, the
-- default argument "" among them; with 16 bytes the address holds them.
pub make_ipv6-defined :
    (readable : List ℕ) (port : ℕ)
    → ((length readable < 16) × (make_ipv6 readable port ≡ stop undefined))
      ⊎ ((a : Ipv6Address) × (make_ipv6 readable port ≡ ok a) × (get_family (ipv6 a) ≡ ok 10))
unfolding make_ipv6 get_family get_addr
make_ipv6-defined readable port = elim (Bool-cases (leb 16 (length readable))) [
  | inl e ↦ inr (
    record any_ipv6 { port = swap_short port; address = first_bytes 16 readable },
    rw e refl,
    refl,
  )
  | inr e ↦ inl (ground arith, rw e refl)
]
