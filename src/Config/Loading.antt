-- ===== src/Config/Loading.antt =====
-- Config::LoadFromYAML and TraversalNode of include/config.h. A node of yaml-cpp is what they ask of it: the
-- text that it is printed as, and, for a map, its keys and nodes, for a sequence, its nodes.
pub mod Paths
pub mod Settings
mod Tests
use learn_server_concise.Base.{
  ℕ, ◌+◌, Bool, true, false, ◌&&◌, ◌||◌, List, [], ◌∷◌, ◌++◌, Option, none, some, leb,
  if◌then◌else◌,
}
use learn_server_concise.LogFormatter.{decimal}
use learn_server_concise.Config.{Entry, same_string, lookup, put_entry, from_string}

mutual
  pub data Node : Type 0 where
    scalar : (text : List ℕ) → Node
    map_node : (text : List ℕ) → Entries → Node
    sequence : (text : List ℕ) → Items → Node

  pub data Entries : Type 0 where
    no_entry : Entries
    entry : (key : List ℕ) → Node → Entries → Entries

  pub data Items : Type 0 where
    no_item : Items
    item : Node → Items → Items

abbrev pub node_text : Node → List ℕ
node_text (scalar text) = text
node_text (map_node text es) = text
node_text (sequence text is) = text

-- A name with a node's text: an element of `output`.
abbrev pub Named : Type 0
Named = List ℕ × List ℕ

-- Whether std::find_if finds the name in `output`.
abbrev pub has_name : List ℕ → List Named → Bool
has_name name [] = false
has_name name (n ∷ ns) = same_string n.0 name || has_name name ns

abbrev pub is_empty_name : List ℕ → Bool
is_empty_name [] = true
is_empty_name (c ∷ cs) = false

-- The name of a map's node, and of a sequence's.
abbrev pub key_name : List ℕ → List ℕ → List ℕ
key_name name key = if is_empty_name name then key else name ++ 46 ∷ key

abbrev pub index_name : List ℕ → ℕ → List ℕ
index_name name i = name ++ 46 ∷ decimal i

-- `assign` is `output_iter->second = node`, where the name is in `output` already: what the assignment of
-- yaml-cpp, with the nodes that then share their contents, leaves of the names and texts of `output`.
module _ (assign : Named → List Named → List Named) where
  -- std::find_if on `output`, and the assignment or push_back
  pub put_named : List ℕ → List ℕ → List Named → List Named
  put_named name text out =
      if has_name name out then assign (name, text) out else out ++ (name, text) ∷ []

  -- Config::TraversalNode
  mutual
    unfolding put_named

    pub traverse : Node → List ℕ → List Named → List Named
    traverse (scalar text) name out = put_named name text out
    traverse (map_node text es) name out = traverse_entries es name (put_named name text out)
    traverse (sequence text is) name out = traverse_items is 0 name (put_named name text out)

    pub traverse_entries : Entries → List ℕ → List Named → List Named
    traverse_entries no_entry name out = out
    traverse_entries (entry key n es) name out =
        traverse_entries es name (traverse n (key_name name key) out)

    pub traverse_items : Items → ℕ → List ℕ → List Named → List Named
    traverse_items no_item i name out = out
    traverse_items (item n is) i name out =
        traverse_items is (i + 1) name (traverse n (index_name name i) out)

-- std::transform with ::tolower
abbrev pub to_lower : List ℕ → List ℕ
to_lower [] = []
to_lower (c ∷ cs) = (if leb 65 c && leb c 90 then c + 32 else c) ∷ to_lower cs

module _ {T : Type 0} (same : T → T → Bool) (parse : ℕ → List ℕ → Option T) where
  -- `var->fromString(…)`, where the setting's type decides how a text is read
  unfoldable pub entry_from_string : List ℕ → Entry T → Entry T
  unfolding from_string
  entry_from_string text e = record e { var = (from_string same (parse e.type) text e.var).0 }

  -- The body of the loop of LoadFromYAML.
  pub load_named : Named → List (List ℕ × Entry T) → List (List ℕ × Entry T)
  unfolding lookup put_entry entry_from_string
  load_named n vars =
      let key = to_lower n.0 in
      if is_empty_name n.0 then vars else elim (lookup key vars) [
        | none ↦ vars
        | some e ↦ put_entry key (entry_from_string n.1 e) vars
      ]

  pub load_all : List Named → List (List ℕ × Entry T) → List (List ℕ × Entry T)
  unfolding load_named
  load_all [] vars = vars
  load_all (n ∷ ns) vars = load_all ns (load_named n vars)

  -- Config::LoadFromYAML
  pub load_from_yaml :
      (Named → List Named → List Named) → Node → List (List ℕ × Entry T) → List (List ℕ × Entry T)
  unfolding traverse load_all
  load_from_yaml assign root vars = load_all (traverse assign root [] []) vars
