-- ===== src/Config.antt =====
-- ConfigVar and Config of include/config.h. A string is the list of its bytes, a change handler a
-- number, `T` the type of the values and `same` its `==`.
pub mod Handlers
pub mod Registry
pub mod Loading
mod Tests
use learn_server_concise.Base.{
  ℕ, Bool, true, false, ◌&&◌, ◌||◌, List, [], ◌∷◌, Option, none, some, ltb, leb, ◌==◌,
  if◌then◌else◌, map, Outcome, ok, stop, thrown, ◌>>=◌,
}

-- ConfigVar<T>; m_callback_map is the list of its keys and handlers, by key.
pub record ConfigVar (T : Type 0) : Type 0 where
  pub value : T
  pub callbacks : List (ℕ × ℕ)

-- A call of a handler, with its two arguments.
pub record Call (T : Type 0) : Type 0 where
  pub handler : ℕ
  pub old_value : T
  pub new_value : T

-- `map[key] = v` on a std::map by key
put_key : ℕ → ℕ → List (ℕ × ℕ) → List (ℕ × ℕ)
put_key k v [] = (k, v) ∷ []
put_key k v (p ∷ ps) =
    let rest = put_key k v ps in
    if p.0 == k then (k, v) ∷ ps else if ltb k p.0 then (k, v) ∷ p ∷ ps else p ∷ rest

-- `map.erase(key)` and `map.find(key)`
erase_key : ℕ → List (ℕ × ℕ) → List (ℕ × ℕ)
erase_key k [] = []
erase_key k (p ∷ ps) = let rest = erase_key k ps in if p.0 == k then rest else p ∷ rest

find_key : ℕ → List (ℕ × ℕ) → Option ℕ
find_key k [] = none
find_key k (p ∷ ps) = let rest = find_key k ps in if p.0 == k then some p.1 else rest

module _ {T : Type 0} where
  -- ConfigVar::setValue, and the calls that it makes. The handlers' second argument is m_value, which
  -- is written only afterwards.
  unfoldable pub set_value : (T → T → Bool) → T → ConfigVar T → ConfigVar T × List (Call T)
  set_value same v c = if same v c.value then (c, []) else (
    record c { value = v },
    map (λ p. record { handler = p.1; old_value = c.value; new_value = c.value }) c.callbacks,
  )

  -- ConfigVar::fromString, where `from_string` is FromStringFN, which may throw.
  unfoldable pub from_string :
      (T → T → Bool)
      → (List ℕ → Option T)
      → List ℕ
      → ConfigVar T
      → ConfigVar T × List (Call T) × Bool
  unfolding set_value
  from_string same parse s c = elim (parse s) [
    | none ↦ (c, [], false)
    | some v ↦ ((set_value same v c).0, (set_value same v c).1, true)
  ]

  -- ConfigVar::addListener, and the key that it returns: s_cb_id, which is 0 and never changes.
  pub add_listener : ℕ → ConfigVar T → ConfigVar T × ℕ
  unfolding put_key
  add_listener cb c = (record c { callbacks = put_key 0 cb c.callbacks }, 0)

  -- ConfigVar::delListener
  pub del_listener : ℕ → ConfigVar T → ConfigVar T
  unfolding erase_key
  del_listener key c = record c { callbacks = erase_key key c.callbacks }

  -- ConfigVar::getListener; a null pointer is `none`.
  pub get_listener : ℕ → ConfigVar T → Option ℕ
  unfolding find_key
  get_listener key c = find_key key c.callbacks

  -- ConfigVar::clearListener
  pub clear_listener : ConfigVar T → ConfigVar T
  clear_listener c = record c { callbacks = [] }

-- `==` on strings
unfoldable pub same_string : List ℕ → List ℕ → Bool
same_string [] [] = true
same_string [] (b ∷ bs) = false
same_string (a ∷ xs) [] = false
same_string (a ∷ xs) (b ∷ bs) = a == b && same_string xs bs

-- A byte of "qwertyuiopasdfghjklzxcvbnm0123456789._"
abbrev pub is_allowed : ℕ → Bool
is_allowed c = (leb 97 c && leb c 122) || (leb 48 c && leb c 57) || c == 46 || c == 95

-- `name.find_first_not_of(…) == npos`
pub is_valid_name : List ℕ → Bool
is_valid_name [] = true
is_valid_name (c ∷ cs) = is_allowed c && is_valid_name cs

-- A registered setting, with the number of the type that it was made with.
pub record Entry (T : Type 0) : Type 0 where
  pub type : ℕ
  pub var : ConfigVar T

module _ {T : Type 0} where
  -- Config::Lookup(name)
  unfoldable pub lookup : List ℕ → List (List ℕ × Entry T) → Option (Entry T)
  unfolding same_string
  lookup name [] = none
  lookup name (p ∷ ps) =
      let rest = lookup name ps in if same_string p.0 name then some p.1 else rest

  -- `GetData()[name] = v`
  unfoldable pub put_entry : List ℕ → Entry T → List (List ℕ × Entry T) → List (List ℕ × Entry T)
  unfolding same_string
  put_entry name e [] = (name, e) ∷ []
  put_entry name e (p ∷ ps) =
      let rest = put_entry name e ps in if same_string p.0 name then (name, e) ∷ ps else p ∷ rest

  -- Config::Lookup<T>(name): a failing cast throws.
  pub lookup_typed : ℕ → List ℕ → List (List ℕ × Entry T) → Outcome (Option (ConfigVar T))
  unfolding lookup
  lookup_typed type name vars = elim (lookup name vars) [
    | none ↦ ok none
    | some e ↦ if e.type == type then ok (some e.var) else stop thrown
  ]

  -- Config::Lookup<T>(name, value, description)
  pub lookup_or_create :
      ℕ → List ℕ → T → List (List ℕ × Entry T) → Outcome (ConfigVar T × List (List ℕ × Entry T))
  unfolding lookup_typed put_entry
  lookup_or_create type name value vars =
      let made : ConfigVar T = record { value = value; callbacks = [] } in
      lookup_typed type name vars >>= λ found. elim found [
        | some v ↦ ok (v, vars)
        | none ↦
            if is_valid_name name
            then ok (made, put_entry name (record { type = type; var = made }) vars)
            else stop thrown
      ]
