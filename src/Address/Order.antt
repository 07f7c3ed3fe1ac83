-- ===== src/Address/Order.antt =====
-- The order and the equality of addresses.
use learn_server_concise.Base.{
  ℕ, ◌%◌, ◌^◌, ◌<◌, ◌≡◌, ◌↔◌, inl, inr, refl, ap, ◌∙◌, Bool, true, false, ◌&&◌, ◌||◌, List, [], ◌∷◌,
  ltb, ◌==◌, arith, Bool-cases,
}
use mathlib.Core.Path.{ap₂, subst}
use Prim.Native.Nat.{◌/◌}
use learn_server_concise.Address.{
  memcmp, less, equal, differs, make_ipv4, ipv4_bytes, swap_short, swap_word,
}

-- The order of words in a dictionary.
unfoldable pub lexicographic : List ℕ → List ℕ → Bool
lexicographic [] [] = false
lexicographic [] (y ∷ ys) = true
lexicographic (x ∷ xs) [] = false
lexicographic (x ∷ xs) (y ∷ ys) = ltb x y || (x == y && lexicographic xs ys)

-- Comparing the common part by memcmp and then the lengths is the order of words in a dictionary.
pub less-lexicographic : (a b : List ℕ) → less a b ≡ lexicographic a b
unfolding less memcmp lexicographic
less-lexicographic [] [] = ground arith
less-lexicographic [] (y ∷ ys) = ground arith
less-lexicographic (x ∷ xs) [] = ground arith
less-lexicographic (x ∷ xs) (y ∷ ys) = ground (arith, less-lexicographic xs ys)

equal-true : (a b : List ℕ) → equal a b ≡ true → a ≡ b
unfolding equal memcmp
equal-true [] [] e = refl
equal-true [] (y ∷ ys) e = absurd (ground arith)
equal-true (x ∷ xs) [] e = absurd (ground arith)
equal-true (x ∷ xs) (y ∷ ys) e = ap₂ ◌∷◌ (ground (arith)) (equal-true xs ys (ground arith))

equal_refl : (a : List ℕ) → equal a a ≡ true
unfolding equal memcmp
equal_refl [] = ground arith
equal_refl (x ∷ xs) = ground (arith, equal_refl xs)

lexicographic_irrefl : (a : List ℕ) → lexicographic a a ≡ false
unfolding lexicographic
lexicographic_irrefl [] = refl
lexicographic_irrefl (x ∷ xs) = ground (arith, lexicographic_irrefl xs)

lexicographic_trans :
    (a b c : List ℕ)
    → lexicographic a b ≡ true
    → lexicographic b c ≡ true
    → lexicographic a c ≡ true
unfolding lexicographic
lexicographic_trans [] [] c h k = absurd (ground arith)
lexicographic_trans [] (y ∷ ys) [] h k = absurd (ground arith)
lexicographic_trans [] (y ∷ ys) (z ∷ zs) h k = refl
lexicographic_trans (x ∷ xs) [] c h k = absurd (ground arith)
lexicographic_trans (x ∷ xs) (y ∷ ys) [] h k = absurd (ground arith)
lexicographic_trans (x ∷ xs) (y ∷ ys) (z ∷ zs) h k = ground (arith, lexicographic_trans xs ys zs)

lexicographic_total : (a b : List ℕ) → lexicographic a b ≡ false → lexicographic b a ≡ false → a ≡ b
unfolding lexicographic
lexicographic_total [] [] h k = refl
lexicographic_total [] (y ∷ ys) h k = absurd (ground arith)
lexicographic_total (x ∷ xs) [] h k = absurd (ground arith)
lexicographic_total (x ∷ xs) (y ∷ ys) h k =
    ap₂ ◌∷◌ (ground arith) (lexicographic_total xs ys (ground arith) (ground arith))

-- What makes `<`, `==` and `!=` on addresses fit to be used together.
pub record Consistent (a b c : List ℕ) : Type 0 where
  pub irrefl : less a a ≡ false
  pub trans : less a b ≡ true → less b c ≡ true → less a c ≡ true
  pub equal_iff : (equal a b ≡ true) ↔ (a ≡ b)
  pub differs_iff : (differs a b ≡ true) ↔ ((less a b || less b a) ≡ true)

-- `<` is a strict order on the addresses that agrees with `==` and `!=`: two addresses are equal
-- exactly if all their bytes are, and differ exactly if one is less than the other.
pub less-Consistent : (a b c : List ℕ) → Consistent a b c
unfolding differs
less-Consistent a b c = record {
  irrefl = less-lexicographic a a ∙ lexicographic_irrefl a;
  trans =
      rw (less-lexicographic a b, less-lexicographic b c, less-lexicographic a c)
        (lexicographic_trans a b c);
  equal_iff = (equal-true a b, λ e. subst (λ x. equal a x ≡ true) e (equal_refl a));
  differs_iff = (
    λ h.
        ground
          (arith, lexicographic_total a b, less-lexicographic a b, less-lexicographic b a, apart),
    λ h. elim (Bool-cases (equal a b)) [
      | inr e ↦ rw e refl
      | inl e ↦ absurd (ground (arith, same e, less-lexicographic a b, less-lexicographic b a, h))
    ],
  );
}
  where
    apart : equal a b ≡ false → (lexicographic a b ≡ false) → lexicographic b a ≡ false → ⊥
    apart e h k =
        let eq : equal a b ≡ true =
          subst (λ x. equal a x ≡ true) (lexicographic_total a b h k) (equal_refl a) in
        absurd (cc)

    same : equal a b ≡ true → (lexicographic a b ≡ false) × (lexicographic b a ≡ false)
    same e =
        subst (λ x. (lexicographic a x ≡ false) × (lexicographic x a ≡ false)) (equal-true a b e)
          (lexicographic_irrefl a, lexicographic_irrefl a)

-- A high and a low part, compared one after the other.
two_parts :
    (x y : ℕ) (rest : Bool)
    → (ltb (x / 2 ^ 8) (y / 2 ^ 8)
        || (x / 2 ^ 8 == y / 2 ^ 8
            && (ltb (x % 2 ^ 8) (y % 2 ^ 8) || (x % 2 ^ 8 == y % 2 ^ 8 && rest))))
      ≡ (ltb x y || (x == y && rest))
two_parts x y rest = ground arith

-- The bytes of a number in network order.
short_bytes :
    (p : ℕ)
    → p < 2 ^ 16
    → (swap_short p % 2 ^ 8 ≡ p / 2 ^ 8) × (swap_short p / 2 ^ 8 % 2 ^ 8 ≡ p % 2 ^ 8)
short_bytes p h = (omega arith, omega arith)

word_bytes :
    (a : ℕ)
    → a < 2 ^ 32
    → (swap_word a % 2 ^ 8 ≡ a / 2 ^ 8 / 2 ^ 8 / 2 ^ 8)
      × (swap_word a / 2 ^ 8 % 2 ^ 8 ≡ a / 2 ^ 8 / 2 ^ 8 % 2 ^ 8)
      × (swap_word a / 2 ^ 16 % 2 ^ 8 ≡ a / 2 ^ 8 % 2 ^ 8)
      × (swap_word a / 2 ^ 24 % 2 ^ 8 ≡ a % 2 ^ 8)
word_bytes a h = (omega arith, omega arith, omega arith, omega arith)

-- Two IPv4 addresses are ordered by their ports, and by their addresses if the ports are equal.
pub less-ipv4 :
    (a b p q : ℕ)
    → a < 2 ^ 32
    → b < 2 ^ 32
    → p < 2 ^ 16
    → q < 2 ^ 16
    → less (ipv4_bytes (make_ipv4 a p)) (ipv4_bytes (make_ipv4 b q))
      ≡ (ltb p q || (p == q && ltb a b))
unfolding lexicographic
less-ipv4 a b p q ha hb hp hq =
    less-lexicographic (ipv4_bytes (make_ipv4 a p)) (ipv4_bytes (make_ipv4 b q))
    ∙ rw
        (
          (short_bytes p hp).0,
          (short_bytes p hp).1,
          (short_bytes q hq).0,
          (short_bytes q hq).1,
          (word_bytes a ha).0,
          (word_bytes a ha).1,
          (word_bytes a ha).2,
          (word_bytes a ha).3,
          (word_bytes b hb).0,
          (word_bytes b hb).1,
          (word_bytes b hb).2,
          (word_bytes b hb).3,
        )
        (two_parts p q _
          ∙ ap (λ r. ltb p q || (p == q && r))
              (two_parts (a / 2 ^ 8 / 2 ^ 8) (b / 2 ^ 8 / 2 ^ 8) _
                ∙ two_parts (a / 2 ^ 8) (b / 2 ^ 8) _
                ∙ two_parts a b false
                ∙ ground arith))
