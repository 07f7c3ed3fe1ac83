-- ===== src/OrderedSet/Laws.antt =====
-- What the operations of the ordered set do, for a strict total order.
use learn_server_concise.Base.{
  ℕ, ◌≡◌, refl, Bool, true, false, not, ◌&&◌, ◌||◌, List, [], ◌∷◌, ◌==◌, All, contains, arith,
}
use learn_server_concise.OrderedSet.{insert, find, erase, IsSorted}

-- `less` is a strict total order: the requirement of `std::set` on its comparator, and antisymmetry.
pub record IsOrder (less : ℕ → ℕ → Bool) : Type 0 where
  pub irrefl : (a : ℕ) → less a a ≡ false
  pub trans : (a b c : ℕ) → less a b ≡ true → less b c ≡ true → less a c ≡ true
  pub total : (a b : ℕ) → less a b ≡ false → less b a ≡ false → a ≡ b

module _ (less : ℕ → ℕ → Bool) (o : IsOrder less) where
  abbrev Above : ℕ → List ℕ → Type 0
  Above x = All (λ y. less x y ≡ true)

  Above-trans : (x y : ℕ) (ys : List ℕ) → less x y ≡ true → Above y ys → Above x ys
  Above-trans x y [] h a = tt
  Above-trans x y (z ∷ zs) h a = (o.trans x y z h a.0, Above-trans x y zs h a.1)

  -- An element below all the others is none of them.
  pub contains_below : (x : ℕ) (ys : List ℕ) → Above x ys → contains x ys ≡ false
  contains_below x [] a = refl
  contains_below x (y ∷ ys) a = ground (arith, o.irrefl x, contains_below x ys a.1)

  contains-Above : (x y : ℕ) (ys : List ℕ) → Above y ys → less x y ≡ true → contains x ys ≡ false
  contains-Above x y ys a h = contains_below x ys (Above-trans x y ys h a)

  insert-Above : (z x : ℕ) (ys : List ℕ) → less z x ≡ true → Above z ys → Above z (insert less x ys)
  unfolding insert
  insert-Above z x [] h a = (h, tt)
  insert-Above z x (y ∷ ys) h a = ground (arith, insert-Above z x ys h a.1)

  pub insert-IsSorted : (x : ℕ) (ys : List ℕ) → IsSorted less ys → IsSorted less (insert less x ys)
  unfolding insert
  insert-IsSorted x [] s = (tt, tt)
  insert-IsSorted x (y ∷ ys) s =
      ground (arith, insert-IsSorted x ys s.1, insert-Above y x ys, Above-trans x y ys)

  -- After `insert` exactly the new element has joined.
  pub contains-insert :
      (x z : ℕ) (ys : List ℕ) → contains z (insert less x ys) ≡ (x == z || contains z ys)
  unfolding insert
  contains-insert x z [] = refl
  contains-insert x z (y ∷ ys) = ground (arith, contains-insert x z ys, o.total x y)

  erase-Above : (z x : ℕ) (ys : List ℕ) → Above z ys → Above z (erase less x ys)
  unfolding erase
  erase-Above z x [] a = tt
  erase-Above z x (y ∷ ys) a = ground (arith, erase-Above z x ys a.1)

  pub erase-IsSorted : (x : ℕ) (ys : List ℕ) → IsSorted less ys → IsSorted less (erase less x ys)
  unfolding erase
  erase-IsSorted x [] s = tt
  erase-IsSorted x (y ∷ ys) s = ground (arith, erase-IsSorted x ys s.1, erase-Above y x ys s.0)

  -- After `erase` exactly that element has gone.
  pub contains-erase :
      (x z : ℕ) (ys : List ℕ)
      → IsSorted less ys
      → contains z (erase less x ys) ≡ (not (x == z) && contains z ys)
  unfolding erase
  contains-erase x z [] s = ground arith
  contains-erase x z (y ∷ ys) s = ground (
    arith,
    contains-erase x z ys s.1,
    o.total x y,
    o.irrefl x,
    contains_below y ys s.0,
    contains-Above x y ys s.0,
  )

  -- The search down the order finds what a search of the whole list would.
  pub find-contains : (x : ℕ) (ys : List ℕ) → IsSorted less ys → find less x ys ≡ contains x ys
  unfolding find
  find-contains x [] s = refl
  find-contains x (y ∷ ys) s =
      ground (arith, find-contains x ys s.1, o.total x y, o.irrefl x, contains-Above x y ys s.0)

  pub erase_single : (x : ℕ) → erase less x (x ∷ []) ≡ []
  unfolding erase
  erase_single x = ground (arith, o.irrefl x)
