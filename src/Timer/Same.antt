-- ===== src/Timer/Same.antt =====
-- Lists of timers, each once, with the same members.
use mathlib.Core.List.{Perm, perm_middle}
use mathlib.Core.List.Perm
use learn_server_concise.Base.{
  ℕ, ◌≡◌, refl, ap, sym, Bool, true, false, ◌||◌, List, [], ◌∷◌, ◌++◌, ◌==◌, ==_iff, select,
  contains, arith, Bool-cases, inl, inr,
}
use mathlib.Core.Path.{subst}
use learn_server_concise.Timer.Invariant.{Distinct}
use learn_server_concise.Timer.Expired.{contains-select}

pub Distinct-select : (s : ℕ → Bool) (ps : List ℕ) → Distinct ps → Distinct (select s ps)
Distinct-select s [] d = tt
Distinct-select s (p ∷ ps) d = elim (Bool-cases (s p)) [
  | inl e ↦ rw e (ground (arith, contains-select s p ps, d.0), Distinct-select s ps d.1)
  | inr e ↦ rw e (Distinct-select s ps d.1)
]

-- What a list that holds `p` is made of.
pub contains-split :
    (p : ℕ) (ys : List ℕ)
    → contains p ys ≡ true
    → (front : List ℕ) × (back : List ℕ) × (ys ≡ front ++ p ∷ back)
contains-split p [] c = absurd (cc)
contains-split p (y ∷ ys) c = elim (Bool-cases (y == p)) [
  | inl e ↦ ([], ys, ap (λ z. z ∷ ys) ((==_iff y p).0 e))
  | inr e ↦
      let rest = contains-split p ys (ground arith) in
      (y ∷ rest.0, rest.1, ap (λ zs. y ∷ zs) rest.2)
]

contains-middle :
    (p q : ℕ) (front back : List ℕ)
    → contains q (front ++ p ∷ back) ≡ (p == q || contains q (front ++ back))
contains-middle p q [] back = refl
contains-middle p q (x ∷ front) back = ground (arith, contains-middle p q front back)

Distinct-middle :
    (p : ℕ) (front back : List ℕ)
    → Distinct (front ++ p ∷ back)
    → Distinct (front ++ back) × (contains p (front ++ back) ≡ false)
Distinct-middle p [] back d = (d.1, d.0)
Distinct-middle p (x ∷ front) back d =
    let rest = Distinct-middle p front back d.1 in
    (
      (ground (arith, contains-middle p x front back, d.0), rest.0),
      ground (arith, contains-middle p x front back, d.0, rest.1),
    )

-- Each is the other in another order.
pub same-perm :
    (xs ys : List ℕ)
    → Distinct xs
    → Distinct ys
    → ((q : ℕ) → contains q xs ≡ contains q ys)
    → Perm xs ys
same-perm [] [] d e s = Perm.nil
same-perm [] (y ∷ ys) d e s = absurd (ground (arith, s y))
same-perm (x ∷ xs) ys d e s =
    let parts = contains-split x ys (ground (arith, s x)) in
    let e' = subst Distinct parts.2 e in
    let rest = Distinct-middle x parts.0 parts.1 e' in
    subst (λ zs. Perm (x ∷ xs) zs) (sym parts.2)
      (Perm.trans
        (Perm.cons x (
          same-perm xs (parts.0 ++ parts.1) d.1 rest.0 (λ q. ground (
            arith,
            s q,
            ap (contains q) parts.2,
            contains-middle x q parts.0 parts.1,
            d.0,
            rest.1,
          ))))
        (Perm.symm (perm_middle parts.0 parts.1)))
