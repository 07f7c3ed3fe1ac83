-- ===== src/OrderedSet.antt =====
-- `std::set<T*, Compare>` of the C++ standard library, as the timers' queue in include/timer.h uses it:
-- the elements in the order of `less`, of which at most one of two equivalent ones is kept.
pub mod Laws
use learn_server_concise.Base.{ℕ, ◌≡◌, Bool, true, false, not, List, [], ◌∷◌, if◌then◌else◌, All}

module _ (less : ℕ → ℕ → Bool) where
  -- `insert`: an equivalent element that is there already stays.
  unfoldable pub insert : ℕ → List ℕ → List ℕ
  insert x [] = x ∷ []
  insert x (y ∷ ys) =
      let rest = insert x ys in
      if less x y then x ∷ y ∷ ys else if less y x then y ∷ rest else y ∷ ys

  -- `find(x) != end()`
  unfoldable pub find : ℕ → List ℕ → Bool
  find x [] = false
  find x (y ∷ ys) = let rest = find x ys in if less y x then rest else not (less x y)

  -- `erase(find(x))`, where the element is there
  unfoldable pub erase : ℕ → List ℕ → List ℕ
  erase x [] = []
  erase x (y ∷ ys) =
      let rest = erase x ys in if less y x then y ∷ rest else if less x y then y ∷ ys else ys

  -- `[begin(), lower_bound(x))`
  unfoldable pub before : ℕ → List ℕ → List ℕ
  before x [] = []
  before x (y ∷ ys) = let rest = before x ys in if less y x then y ∷ rest else []

  -- `[lower_bound(x), end())`
  unfoldable pub lower_bound : ℕ → List ℕ → List ℕ
  lower_bound x [] = []
  lower_bound x (y ∷ ys) = let rest = lower_bound x ys in if less y x then rest else y ∷ ys

  -- The elements stand in the order of `less`.
  abbrev pub IsSorted : List ℕ → Type 0
  IsSorted [] = Unit
  IsSorted (x ∷ xs) = All (λ y. less x y ≡ true) xs × IsSorted xs
