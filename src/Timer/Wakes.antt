-- ===== src/Timer/Wakes.antt =====
-- When a queued timer fires.
use learn_server_concise.Base.{
  ℕ, ◌≤◌, ◌≡◌, ◌≢◌, refl, ap, ◌∙◌, true, false, List, [], ◌∷◌, ◌++◌, Option, some, map, contains,
  select, arith, Returns, Returns-weaken,
}
use learn_server_concise.Timer.{TimerManager, list_expired_callback}
use learn_server_concise.Timer.Invariant.{IsValid}
use learn_server_concise.Timer.Expired.{is_expired, contains-select}
use learn_server_concise.Timer.Same.{contains-split}
use learn_server_concise.Timer.Contract.{Expires, list_expired_callback-Expires}

-- The callback is among those that are called.
abbrev pub Calls : ℕ → List (Option ℕ) → Type 0
Calls cb fns =
    (front : List (Option ℕ)) × (back : List (Option ℕ)) × (fns ≡ front ++ some cb ∷ back)

map-append : (f : ℕ → Option ℕ) (xs ys : List ℕ) → map f (xs ++ ys) ≡ map f xs ++ map f ys
map-append f [] ys = refl
map-append f (x ∷ xs) ys = ap (λ zs. f x ∷ zs) (map-append f xs ys)

module _ (probe later p : ℕ) (m : TimerManager) (v : IsValid m) (nonnull : probe ≢ 0)
    (fresh : contains probe m.timers ≡ false) (queued : contains p m.timers ≡ true) where
  pub list_expired_callback-fires :
      (cb : ℕ)
      → (m.heap p).fn ≡ some cb
      → (m.heap p).next ≤ later
      → Returns (λ r. Calls cb r.1) (list_expired_callback probe later m [])
  list_expired_callback-fires cb f due =
      Returns-weaken (Expires later m []) (λ r. Calls cb r.1)
        (list_expired_callback probe later m [])
        (list_expired_callback-Expires probe later m [] v nonnull fresh)
        (λ r e.
          let parts =
            contains-split p (select (is_expired later m) m.timers)
              (contains-select (is_expired later m) p m.timers ∙ ground (arith, queued, due)) in
          (
            map fn_of parts.0,
            map fn_of parts.1,
            e.callbacks
                ∙ ap (map fn_of) parts.2
                ∙ map-append fn_of parts.0 (p ∷ parts.1)
                ∙ ap (λ x. map fn_of parts.0 ++ x ∷ map fn_of parts.1) f,
          ))
    where
      fn_of : ℕ → Option ℕ
      fn_of q = (m.heap q).fn

  pub list_expired_callback-keeps :
      is_expired later m p ≡ false
      → Returns (λ r. contains p r.0.timers ≡ true) (list_expired_callback probe later m [])
  list_expired_callback-keeps early =
      Returns-weaken (Expires later m []) _ (list_expired_callback probe later m [])
        (list_expired_callback-Expires probe later m [] v nonnull fresh)
        (λ r e. e.queue p ∙ ground (arith, queued, early))
