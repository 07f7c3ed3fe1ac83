-- ===== src/Config/Tests.antt =====
-- The settings of include/config.h with concrete names and numbers.
use learn_server_concise.Base.{ℕ, ◌≡◌, refl, Bool, List, [], ◌∷◌, ◌==◌, map, All, Returns}
use learn_server_concise.Config.{
  ConfigVar, Entry, set_value, lookup, lookup_or_create, same_string, is_valid_name,
}
use learn_server_concise.Config.Handlers.{set_value-Call}
use learn_server_concise.Config.Registry.{Creates, lookup_or_create-Creates}

abbrev number_equal : ℕ → ℕ → Bool
number_equal a b = a == b

-- A setting of 5 with one handler.
abbrev watched : ConfigVar ℕ
watched = record { value = 5; callbacks = (0, 7) ∷ [] }

set_value-Call_example :
    ((set_value number_equal 6 watched).0 ≡ record watched { value = 6 })
    × (map (λ p. p.handler) (set_value number_equal 6 watched).1 ≡ 7 ∷ [])
    × All
        (λ p. (p.old_value ≡ watched.value) × (p.new_value ≡ watched.value))
        (set_value number_equal 6 watched).1
set_value-Call_example = set_value-Call number_equal 6 watched

-- "a" is registered, "b" is not.
abbrev settings : List (List ℕ × Entry ℕ)
settings = (97 ∷ [], record { type = 1; var = watched }) ∷ []

lookup_or_create-Creates_example :
    Returns (Creates 2 (98 ∷ []) 9 settings) (lookup_or_create 2 (98 ∷ []) 9 settings)
unfolding lookup same_string is_valid_name
lookup_or_create-Creates_example = lookup_or_create-Creates 2 (98 ∷ []) 9 settings refl refl
