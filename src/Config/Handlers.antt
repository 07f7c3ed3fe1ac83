-- ===== src/Config/Handlers.antt =====
-- What the change handlers of a setting are told, and how many there are.
use learn_server_concise.Base.{
  ℕ, ◌≡◌, refl, ap, ◌⊎◌, Bool, List, [], ◌∷◌, if◌then◌else◌, map, All, Bool-cases, inl, inr, some,
  none, ◌==◌, arith, ◌∙◌,
}
use learn_server_concise.Config.{
  ConfigVar, Call, set_value, add_listener, put_key, clear_listener, erase_key, find_key,
  del_listener, get_listener,
}

module _ {T : Type 0} where
  abbrev calls : T → List (ℕ × ℕ) → List (Call T)
  calls old ps = map (λ p. record { handler = p.1; old_value = old; new_value = old }) ps

  told :
      (old : T) (ps : List (ℕ × ℕ))
      → (map (λ p. p.handler) (calls old ps) ≡ map (λ p. p.1) ps)
        × All (λ p. (p.old_value ≡ old) × (p.new_value ≡ old)) (calls old ps)
  told old [] = (refl, tt)
  told old (p ∷ ps) = (ap (◌∷◌ p.1) (told old ps).0, ((refl, refl), (told old ps).1))

  -- `setValue` with a different value stores it and calls every handler once, in the order of the keys,
  -- but tells each that the value is still what it was before. With the same value it does nothing.
  pub set_value-Call :
      (same : T → T → Bool) (v : T) (c : ConfigVar T)
      → ((set_value same v c).0 ≡ (if same v c.value then c else record c { value = v }))
        × (map (λ p. p.handler) (set_value same v c).1
            ≡ (if same v c.value then [] else map (λ p. p.1) c.callbacks))
        × All (λ p. (p.old_value ≡ c.value) × (p.new_value ≡ c.value)) (set_value same v c).1
  unfolding set_value
  set_value-Call same v c = elim (Bool-cases (same v c.value)) [
    | inl e ↦ rw e (refl, refl, tt)
    | inr e ↦ rw e (refl, (told c.value c.callbacks).0, (told c.value c.callbacks).1)
  ]

  pub add_all : List ℕ → ConfigVar T → ConfigVar T
  add_all [] c = c
  add_all (cb ∷ cbs) c = add_all cbs (add_listener cb c).0

  -- No handler, or one with the key 0.
  abbrev AtMostOne : ConfigVar T → Type 0
  AtMostOne c = (c.callbacks ≡ []) ⊎ ((x : ℕ) × (c.callbacks ≡ (0, x) ∷ []))

  add_one :
      (cb : ℕ) (c : ConfigVar T) → AtMostOne c → (add_listener cb c).0.callbacks ≡ (0, cb) ∷ []
  unfolding add_listener put_key
  add_one cb c (inl e) = rw e refl
  add_one cb c (inr (x, e)) = rw e refl

  add_all-AtMostOne : (cbs : List ℕ) (c : ConfigVar T) → AtMostOne c → AtMostOne (add_all cbs c)
  unfolding add_all
  add_all-AtMostOne [] c a = a
  add_all-AtMostOne (cb ∷ cbs) c a =
      add_all-AtMostOne cbs (add_listener cb c).0 (inr (cb, add_one cb c a))

  -- Whatever handlers are added to a setting without any, only the last one is kept: addListener gives
  -- all of them the key 0.
  pub add_listener-last :
      (cbs : List ℕ) (cb : ℕ) (c : ConfigVar T)
      → (add_listener cb (add_all cbs (clear_listener c))).0.callbacks ≡ (0, cb) ∷ []
  unfolding clear_listener
  add_listener-last cbs cb c = add_one cb _ (add_all-AtMostOne cbs (clear_listener c) (inl refl))

find_key-put_key :
    (k v q : ℕ) (ps : List (ℕ × ℕ))
    → find_key q (put_key k v ps) ≡ (if k == q then some v else find_key q ps)
unfolding find_key put_key
find_key-put_key k v q [] = refl
find_key-put_key k v q (p ∷ ps) = ground (arith, find_key-put_key k v q ps)

find_key-erase_key :
    (k q : ℕ) (ps : List (ℕ × ℕ))
    → find_key q (erase_key k ps) ≡ (if k == q then none else find_key q ps)
unfolding find_key erase_key
find_key-erase_key k q [] = ground arith
find_key-erase_key k q (p ∷ ps) = ground (arith, find_key-erase_key k q ps)

module _ {T : Type 0} where
  -- getListener finds the last handler added, under the key that addListener returned, until delListener
  -- is called with that key; with any other key it finds what was there before.
  pub get_listener-add_listener :
      (cb q : ℕ) (c : ConfigVar T)
      → let added = add_listener cb c in
        (get_listener q added.0 ≡ (if added.1 == q then some cb else get_listener q c))
        × (get_listener q (del_listener added.1 added.0)
            ≡ (if added.1 == q then none else get_listener q c))
  unfolding add_listener get_listener del_listener
  get_listener-add_listener cb q c = (
    find_key-put_key 0 cb q c.callbacks,
    find_key-erase_key 0 q (put_key 0 cb c.callbacks)
        ∙ ground (arith, find_key-put_key 0 cb q c.callbacks),
  )
