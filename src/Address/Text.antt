-- ===== src/Address/Text.antt =====
-- The text of an IPv4 address, read back.
use learn_server_concise.Base.{
  ℕ, zero, suc, ◌+◌, ◌-◌, ◌*◌, ◌%◌, ◌^◌, ◌<◌, ◌≡◌, refl, ap, sym, ◌∙◌, false, ◌&&◌, List, [], ◌∷◌,
  ◌++◌, ltb, leb, if◌then◌else◌, arith, Bool-cases, inl, inr,
}
use Prim.Native.Nat.{◌/◌}
use mathlib.Core.Path.{ap₂}
use mathlib.Core.List.{append_assoc, append-nil}
use learn_server_concise.LogFormatter.{decimal, digits}
use learn_server_concise.Address.{dotted, make_ipv4, ipv4_text}

-- A number in decimal, from the front of a text, behind the digits of `n`.
unfoldable pub read_number : ℕ → List ℕ → ℕ × List ℕ
read_number n [] = (n, [])
read_number n (c ∷ cs) =
    let rest = read_number (n * 10 + (c - 48)) cs in
    if leb 48 c && leb c 57 then rest else (n, c ∷ cs)

-- The text behind a separator.
abbrev pub behind : List ℕ → List ℕ
behind [] = []
behind (c ∷ cs) = cs

-- Four numbers and a fifth, each behind one separator: the address and the port.
unfoldable pub read_endpoint : List ℕ → ℕ × ℕ
read_endpoint text =
    let a = read_number 0 text in
    let b = read_number 0 (behind a.1) in
    let c = read_number 0 (behind b.1) in
    let d = read_number 0 (behind c.1) in
    let port = read_number 0 (behind d.1) in
    (a.0 * 2 ^ 24 + b.0 * 2 ^ 16 + c.0 * 2 ^ 8 + d.0, port.0)

read_number-digit :
    (n d : ℕ) (t : List ℕ) → d < 10 → read_number n ((48 + d) ∷ t) ≡ read_number (n * 10 + d) t
unfolding read_number
read_number-digit n d t h = ground arith

read_number-digits :
    (k n : ℕ) (t : List ℕ) → n < 10 ^ k → read_number 0 (digits k n ++ t) ≡ read_number n t
unfolding digits
read_number-digits zero n t h = ap (λ x. read_number x t) (omega arith)
read_number-digits (suc k) n t h = elim (Bool-cases (ltb n 10)) [
  | inl e ↦ rw e (read_number-digit 0 n t (ground arith) ∙ ap (λ x. read_number x t) (omega arith))
  | inr e ↦
      rw (e, append_assoc)
        (read_number-digits k (n / 10) _ (omega arith)
          ∙ read_number-digit (n / 10) (n % 10) t (omega arith)
          ∙ ap (λ x. read_number x t) (omega arith))
]

read_number-decimal :
    (n c : ℕ) (t : List ℕ)
    → n < 2 ^ 32
    → (leb 48 c && leb c 57) ≡ false
    → read_number 0 (decimal n ++ c ∷ t) ≡ (n, c ∷ t)
unfolding decimal read_number
read_number-decimal n c t h e = read_number-digits 10 n (c ∷ t) (omega arith) ∙ rw e refl

read_number-last : (n : ℕ) → n < 2 ^ 32 → read_number 0 (decimal n) ≡ (n, [])
unfolding decimal read_number
read_number-last n h =
    ap (read_number 0) (sym (append-nil (digits 10 n))) ∙ read_number-digits 10 n [] (omega arith)

read_endpoint-dotted :
    (a b c d port : ℕ)
    → a < 2 ^ 32
    → b < 2 ^ 32
    → c < 2 ^ 32
    → d < 2 ^ 32
    → port < 2 ^ 32
    → read_endpoint (dotted a b c d port) ≡ (a * 2 ^ 24 + b * 2 ^ 16 + c * 2 ^ 8 + d, port)
unfolding read_endpoint
read_endpoint-dotted a b c d port ha hb hc hd hp =
    rw
      (
        read_number-decimal a 46
            (decimal b ++ (46 ∷ (decimal c ++ (46 ∷ (decimal d ++ (58 ∷ decimal port)))))) ha refl,
        read_number-decimal b 46 (decimal c ++ (46 ∷ (decimal d ++ (58 ∷ decimal port)))) hb refl,
        read_number-decimal c 46 (decimal d ++ (58 ∷ decimal port)) hc refl,
        read_number-decimal d 58 (decimal port) hd refl,
        read_number-last port hp,
      )
      refl

-- The text of an IPv4 address, read as four numbers of the address and the port, gives back what the
-- constructor was given.
pub ipv4_text-read :
    (address port : ℕ)
    → address < 2 ^ 32
    → port < 2 ^ 16
    → read_endpoint (ipv4_text (make_ipv4 address port)) ≡ (address, port)
unfolding read_endpoint ipv4_text
ipv4_text-read address port h k =
    read_endpoint-dotted _ _ _ _ _ (omega arith) (omega arith) (omega arith) (omega arith)
      (omega arith)
    ∙ ap₂ (λ x y. (x, y)) (omega arith) (omega arith)
