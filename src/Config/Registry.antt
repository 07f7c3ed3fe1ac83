-- ===== src/Config/Registry.antt =====
-- The registry of the settings.
use learn_server_concise.Base.{
  ℕ, ◌≡◌, refl, ap, ◌∙◌, true, false, List, [], ◌∷◌, none, some, ◌==◌, if◌then◌else◌, ok, stop,
  thrown, Returns, arith, Bool-cases, inl, inr,
}
use learn_server_concise.Config.{
  ConfigVar, Entry, same_string, is_valid_name, lookup, put_entry, lookup_typed, lookup_or_create,
}

pub same_string_refl : (s : List ℕ) → same_string s s ≡ true
unfolding same_string
same_string_refl [] = refl
same_string_refl (c ∷ cs) = ground (arith, same_string_refl cs)

pub same_string_eq : (s t : List ℕ) → same_string s t ≡ true → s ≡ t
unfolding same_string
same_string_eq [] [] h = refl
same_string_eq [] (b ∷ bs) h = absurd (cc)
same_string_eq (a ∷ xs) [] h = absurd (cc)
same_string_eq (a ∷ xs) (b ∷ bs) h =
    let heads : a ≡ b = ground arith in
    let tails : same_string xs bs ≡ true = ground arith in
    ap (λ x. x ∷ xs) heads ∙ ap (◌∷◌ b) (same_string_eq xs bs tails)

module _ {T : Type 0} where
  pub lookup-put_entry :
      (name : List ℕ) (e : Entry T) (vars : List (List ℕ × Entry T))
      → lookup name (put_entry name e vars) ≡ some e
  unfolding lookup put_entry
  lookup-put_entry name e [] = rw (same_string_refl name) refl
  lookup-put_entry name e (p ∷ ps) = elim (Bool-cases (same_string p.0 name)) [
    | inl h ↦ rw (h, same_string_refl name) refl
    | inr h ↦ rw h (rw h (lookup-put_entry name e ps))
  ]

  pub lookup-put_entry_other :
      (name other : List ℕ) (e : Entry T) (vars : List (List ℕ × Entry T))
      → same_string name other ≡ false
      → lookup other (put_entry name e vars) ≡ lookup other vars
  unfolding lookup put_entry
  lookup-put_entry_other name other e [] n = rw n refl
  lookup-put_entry_other name other e (p ∷ ps) n = elim (Bool-cases (same_string p.0 name)) [
    | inl h ↦
        let apart : same_string p.0 other ≡ false = rw (same_string_eq p.0 name h) n in
        rw (h, n, apart) refl
    | inr h ↦ rw h (
        ap (λ x. if same_string p.0 other then some p.1 else x)
          (lookup-put_entry_other name other e ps n))
  ]

  -- What making a setting gives, where `r` is the setting and the registry.
  pub record Creates (type : ℕ) (name : List ℕ) (value : T) (vars : List (List ℕ × Entry T))
      (r : ConfigVar T × List (List ℕ × Entry T)) : Type 0 where
    pub value_of : r.0.value ≡ value
    pub found : lookup_typed type name r.1 ≡ ok (some r.0)
    pub again : (other : T) → lookup_or_create type name other r.1 ≡ ok r
    pub wrong_type : (t : ℕ) → (type == t) ≡ false → lookup_typed t name r.1 ≡ stop thrown
    pub others :
        (other : List ℕ) → same_string name other ≡ false → lookup other r.1 ≡ lookup other vars

  -- A valid name that is not registered is registered with the value given. From then on it is found
  -- under the type that it was made with, asking for it with another default gives the same setting
  -- and changes nothing, asking for another type throws, and other names are as before.
  pub lookup_or_create-Creates :
      (type : ℕ) (name : List ℕ) (value : T) (vars : List (List ℕ × Entry T))
      → lookup name vars ≡ none
      → is_valid_name name ≡ true
      → Returns (Creates type name value vars) (lookup_or_create type name value vars)
  unfolding lookup_or_create lookup_typed
  lookup_or_create-Creates type name value vars n v =
      rw (n, lookup_typed, v)
        (record {
          value_of = refl;
          found = rw (lookup-put_entry name made vars, lookup_typed) (rw self refl);
          again = λ other. rw (lookup-put_entry name made vars, lookup_typed) (rw self refl);
          wrong_type = λ t h. rw (lookup-put_entry name made vars, lookup_typed, h) refl;
          others = λ other h. lookup-put_entry_other name other made vars h;
        })
    where
      made : Entry T
      made = record { type = type; var = record { value = value; callbacks = [] } }

      self : (type == type) ≡ true
      self = ground arith
