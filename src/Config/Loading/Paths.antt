-- ===== src/Config/Loading/Paths.antt =====
-- What the traversal of a document collects.
use learn_server_concise.Base.{
  ℕ, ◌+◌, ◌≡◌, refl, sym, ap, ◌∙◌, Bool, true, false, not, ◌&&◌, ◌||◌, List, [], ◌∷◌, ◌++◌, arith,
}
use mathlib.Core.List.{append-nil, append_assoc}
use learn_server_concise.Config.{same_string}
use learn_server_concise.Config.Loading.{
  Node, scalar, map_node, sequence, Entries, no_entry, entry, Items, no_item, item, Named, has_name,
  put_named, key_name, index_name, traverse, traverse_entries, traverse_items,
}

-- Every node of a document with its full name, from the root down and from left to right.
unfoldable mutual
  pub paths : Node → List ℕ → List Named
  paths (scalar text) name = (name, text) ∷ []
  paths (map_node text es) name = (name, text) ∷ paths_of_entries es name
  paths (sequence text is) name = (name, text) ∷ paths_of_items is 0 name

  pub paths_of_entries : Entries → List ℕ → List Named
  paths_of_entries no_entry name = []
  paths_of_entries (entry key n es) name = paths n (key_name name key) ++ paths_of_entries es name

  pub paths_of_items : Items → ℕ → List ℕ → List Named
  paths_of_items no_item i name = []
  paths_of_items (item n is) i name = paths n (index_name name i) ++ paths_of_items is (i + 1) name

-- The same names and texts one after the other, where no name comes twice.
abbrev pub repeats : Named → List Named → Bool
repeats n [] = false
repeats n (m ∷ ms) = same_string n.0 m.0 || repeats n ms

abbrev pub all_apart : List Named → Bool
all_apart [] = true
all_apart (n ∷ ns) = not (repeats n ns) && all_apart ns

abbrev apart_from : List Named → List Named → Bool
apart_from out [] = true
apart_from out (n ∷ ns) = not (has_name n.0 out) && apart_from out ns

has_name-append :
    (name : List ℕ) (out : List Named) (n : Named)
    → has_name name (out ++ n ∷ []) ≡ (has_name name out || same_string n.0 name)
has_name-append name [] n = ground arith
has_name-append name (m ∷ ms) n = let rest = has_name-append name ms n in rw rest (ground arith)

apart_from-append :
    (out : List Named) (n : Named) (ns : List Named)
    → apart_from out ns ≡ true
    → repeats n ns ≡ false
    → apart_from (out ++ n ∷ []) ns ≡ true
apart_from-append out n [] a r = refl
apart_from-append out n (m ∷ ms) a r =
    let rest = apart_from-append out n ms (ground (arith, a)) (ground (arith, r)) in
    rw (has_name-append m.0 out n, rest) (ground (arith, a, r))

nothing-apart : (ns : List Named) → apart_from [] ns ≡ true
nothing-apart [] = refl
nothing-apart (n ∷ ns) = nothing-apart ns

module _ (assign : Named → List Named → List Named) where
  -- The traversal is one `put_named` for each path.
  abbrev put_all : List Named → List Named → List Named
  put_all [] out = out
  put_all (n ∷ ns) out = put_all ns (put_named assign n.0 n.1 out)

  put_all-append : (xs ys out : List Named) → put_all (xs ++ ys) out ≡ put_all ys (put_all xs out)
  put_all-append [] ys out = refl
  put_all-append (x ∷ xs) ys out = put_all-append xs ys (put_named assign x.0 x.1 out)

  mutual
    unfolding traverse traverse_entries traverse_items paths paths_of_entries paths_of_items

    traverse-put_all :
        (n : Node) (name : List ℕ) (out : List Named)
        → traverse assign n name out ≡ put_all (paths n name) out
    traverse-put_all (scalar text) name out = refl
    traverse-put_all (map_node text es) name out =
        entries-put_all es name (put_named assign name text out)
    traverse-put_all (sequence text is) name out =
        items-put_all is 0 name (put_named assign name text out)

    entries-put_all :
        (es : Entries) (name : List ℕ) (out : List Named)
        → traverse_entries assign es name out ≡ put_all (paths_of_entries es name) out
    entries-put_all no_entry name out = refl
    entries-put_all (entry key n es) name out =
        entries-put_all es name (traverse assign n (key_name name key) out)
        ∙ ap (put_all (paths_of_entries es name)) (traverse-put_all n (key_name name key) out)
        ∙ sym (put_all-append (paths n (key_name name key)) (paths_of_entries es name) out)

    items-put_all :
        (is : Items) (i : ℕ) (name : List ℕ) (out : List Named)
        → traverse_items assign is i name out ≡ put_all (paths_of_items is i name) out
    items-put_all no_item i name out = refl
    items-put_all (item n is) i name out =
        items-put_all is (i + 1) name (traverse assign n (index_name name i) out)
        ∙ ap (put_all (paths_of_items is (i + 1) name)) (traverse-put_all n (index_name name i) out)
        ∙ sym (put_all-append (paths n (index_name name i)) (paths_of_items is (i + 1) name) out)

  put_all-apart :
      (ns out : List Named)
      → apart_from out ns ≡ true
      → all_apart ns ≡ true
      → put_all ns out ≡ out ++ ns
  unfolding put_named
  put_all-apart [] out f a = sym (append-nil out)
  put_all-apart (n ∷ ns) out f a =
      let own : has_name n.0 out ≡ false = ground (arith, f) in
      rw own (
        put_all-apart ns (out ++ n ∷ [])
          (apart_from-append out n ns (ground (arith, f)) (ground (arith, a))) (ground (arith, a))
        ∙ append_assoc out (n ∷ []) ns)

  -- The traversal of a document in which no full name comes twice collects exactly its nodes, with their
  -- full names and texts, from the root down and from left to right.
  pub traverse-paths :
      (root : Node) → all_apart (paths root []) ≡ true → traverse assign root [] [] ≡ paths root []
  traverse-paths root a =
      traverse-put_all root [] []
      ∙ put_all-apart (paths root []) [] (nothing-apart (paths root [])) a
