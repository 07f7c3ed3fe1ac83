-- ===== src/Config/Loading/Tests.antt =====
-- Loading a concrete document into the settings of include/config.h.
use learn_server_concise.Base.{
  ℕ, ◌≡◌, refl, Bool, List, [], ◌∷◌, ◌==◌, Option, some, none, ◌-◌, if◌then◌else◌,
}
use learn_server_concise.Config.{ConfigVar, Entry, same_string, lookup, put_entry}
use learn_server_concise.Config.Loading.{
  Node, Named, scalar, map_node, sequence, no_entry, entry, no_item, item, traverse, load_all,
  load_named, entry_from_string, load_from_yaml,
}
use learn_server_concise.Config.Loading.Paths.{
  paths, paths_of_entries, paths_of_items, traverse-paths,
}
use learn_server_concise.Config.Loading.Settings.{read_all, on_setting, load_from_yaml-reads}

abbrev number_equal : ℕ → ℕ → Bool
number_equal a b = a == b

-- A setting of 5 with one handler.
abbrev watched : ConfigVar ℕ
watched = record { value = 5; callbacks = (0, 7) ∷ [] }

-- "a" is registered, "b" is not.
abbrev settings : List (List ℕ × Entry ℕ)
settings = (97 ∷ [], record { type = 1; var = watched }) ∷ []

-- `A: 7` and a sequence `b` of one text.
abbrev document : Node
document = map_node [] (
    entry (65 ∷ []) (scalar (55 ∷ []))
      (entry (98 ∷ []) (sequence [] (item (scalar (120 ∷ [])) no_item)) no_entry))

-- An assignment that changes the entry itself and no other.
abbrev replaced : Named → List Named → List Named
replaced n [] = []
replaced n (m ∷ ms) = (if same_string m.0 n.0 then n else m) ∷ replaced n ms

traverse-paths_example : traverse replaced document [] [] ≡ paths document []
unfolding paths paths_of_entries paths_of_items same_string
traverse-paths_example = traverse-paths replaced document refl

-- A number of one digit.
abbrev one_digit : ℕ → List ℕ → Option ℕ
one_digit type [] = none
one_digit type (c ∷ cs) = some (c - 48)

load_from_yaml-reads_example :
    lookup (97 ∷ []) (load_from_yaml number_equal one_digit replaced document settings)
    ≡ on_setting number_equal one_digit
        (read_all number_equal one_digit (97 ∷ []) (paths document []))
        (lookup (97 ∷ []) settings)
unfolding paths paths_of_entries paths_of_items same_string
load_from_yaml-reads_example =
    load_from_yaml-reads number_equal one_digit replaced (97 ∷ []) document settings refl

-- The setting "a" is 7 afterwards.
load_test :
    lookup (97 ∷ []) (load_from_yaml number_equal one_digit replaced document settings)
    ≡ some (record { type = 1; var = record watched { value = 7 } })
unfolding load_from_yaml load_all load_named traverse lookup put_entry entry_from_string
load_test = refl
