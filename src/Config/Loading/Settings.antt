-- ===== src/Config/Loading/Settings.antt =====
-- What loading a document does to the settings.
use learn_server_concise.Base.{
  ℕ, ◌≡◌, refl, sym, ap, ◌∙◌, Bool, true, false, ◌&&◌, not, List, [], ◌∷◌, Option, none, some,
  if◌then◌else◌, Bool-cases, Option-cases, inl, inr, arith,
}
use mathlib.Core.Path.{subst}
use learn_server_concise.Config.{Entry, same_string, lookup}
use learn_server_concise.Config.Registry.{same_string_eq, lookup-put_entry, lookup-put_entry_other}
use learn_server_concise.Config.Loading.{
  Node, Named, is_empty_name, to_lower, traverse, entry_from_string, load_named, load_all,
  load_from_yaml,
}
use learn_server_concise.Config.Loading.Paths.{paths, all_apart, traverse-paths}

module _ {T : Type 0} (same : T → T → Bool) (parse : ℕ → List ℕ → Option T) where
  -- A text that was collected under a name which is the setting's in lower case.
  abbrev pub is_for : List ℕ → Named → Bool
  is_for name n = not (is_empty_name n.0) && same_string (to_lower n.0) name

  -- The setting reads the texts that are for it, one after the other.
  pub read_all : List ℕ → List Named → Entry T → Entry T
  read_all name [] e = e
  read_all name (n ∷ ns) e =
      read_all name ns (if is_for name n then entry_from_string same parse n.1 e else e)

  -- One setting, or none.
  abbrev pub on_setting : (Entry T → Entry T) → Option (Entry T) → Option (Entry T)
  on_setting f none = none
  on_setting f (some e) = some (f e)

  on_setting_same : (o : Option (Entry T)) → on_setting (λ e. e) o ≡ o
  on_setting_same none = refl
  on_setting_same (some e) = refl

  load_named-own :
      (n : Named) (vars : List (List ℕ × Entry T))
      → is_empty_name n.0 ≡ false
      → lookup (to_lower n.0) (load_named same parse n vars)
        ≡ on_setting (entry_from_string same parse n.1) (lookup (to_lower n.0) vars)
  unfolding load_named
  load_named-own n vars h = elim (Option-cases (lookup (to_lower n.0) vars)) [
    | inl e ↦ rw (h, e) e
    | inr (x, e) ↦ rw (h, e) (lookup-put_entry (to_lower n.0) _ vars)
  ]

  load_named-other :
      (name : List ℕ) (n : Named) (vars : List (List ℕ × Entry T))
      → is_for name n ≡ false
      → lookup name (load_named same parse n vars) ≡ lookup name vars
  unfolding load_named
  load_named-other name n vars h = elim (Bool-cases (is_empty_name n.0)) [
    | inl b ↦ rw b refl
    | inr b ↦ elim (Option-cases (lookup (to_lower n.0) vars)) [
      | inl e ↦ rw (b, e) refl
      | inr (x, e) ↦
          rw (b, e) (lookup-put_entry_other (to_lower n.0) name _ vars (ground (arith, h, b)))
    ]
  ]

  load_named_lem :
      (name : List ℕ) (n : Named) (vars : List (List ℕ × Entry T))
      → lookup name (load_named same parse n vars)
        ≡ on_setting
            (λ e. if is_for name n then entry_from_string same parse n.1 e else e)
            (lookup name vars)
  load_named_lem name n vars = elim (Bool-cases (is_for name n)) [
    | inl h ↦
        let key : to_lower n.0 ≡ name = same_string_eq (to_lower n.0) name (ground (arith, h)) in
        let own : is_empty_name n.0 ≡ false = ground (arith, h) in
        rw h (
          subst
            (λ x.
              lookup x (load_named same parse n vars)
              ≡ on_setting (entry_from_string same parse n.1) (lookup x vars))
            key (load_named-own n vars own))
    | inr h ↦ rw h (load_named-other name n vars h ∙ sym (on_setting_same (lookup name vars)))
  ]

  on_setting-on_setting :
      (f g : Entry T → Entry T) (o : Option (Entry T))
      → on_setting f (on_setting g o) ≡ on_setting (λ e. f (g e)) o
  on_setting-on_setting f g none = refl
  on_setting-on_setting f g (some e) = refl

  load_all_lem :
      (name : List ℕ) (ns : List Named) (vars : List (List ℕ × Entry T))
      → lookup name (load_all same parse ns vars) ≡ on_setting (read_all name ns) (lookup name vars)
  unfolding load_all read_all
  load_all_lem name [] vars = sym (on_setting_same (lookup name vars))
  load_all_lem name (n ∷ ns) vars =
      load_all_lem name ns (load_named same parse n vars)
      ∙ ap (on_setting (read_all name ns)) (load_named_lem name n vars)
      ∙ on_setting-on_setting (read_all name ns) _ (lookup name vars)

  -- Loading a document makes no setting and removes none. Where no full name comes twice in it, a setting
  -- that is there reads, with fromString and in their order, the texts of the nodes whose full name in
  -- lower case is the setting's, and nothing else; the root, whose name is empty, is for no setting.
  pub load_from_yaml-reads :
      (assign : Named → List Named → List Named) (name : List ℕ) (root : Node)
      (vars : List (List ℕ × Entry T))
      → all_apart (paths root []) ≡ true
      → lookup name (load_from_yaml same parse assign root vars)
        ≡ on_setting (read_all name (paths root [])) (lookup name vars)
  unfolding load_from_yaml
  load_from_yaml-reads assign name root vars a =
      load_all_lem name (traverse assign root [] []) vars
      ∙ ap (λ ns. on_setting (read_all name ns) (lookup name vars)) (traverse-paths assign root a)
