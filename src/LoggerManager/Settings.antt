-- ===== src/LoggerManager/Settings.antt =====
-- The setting "logs", and the handler that LogIniter gives it.
use learn_server_concise.Base.{ℕ, ◌≡◌, refl, true, List, [], ◌∷◌, map}
use learn_server_concise.Config.{ConfigVar, set_value}
use learn_server_concise.Config.Registry.{same_string_refl}
use learn_server_concise.LoggerManager.{LogConfig, same_config, same_configs}

abbrev pub names : List LogConfig → List (List ℕ)
names configs = map (λ c. c.name) configs

same_configs-names : (xs ys : List LogConfig) → names xs ≡ names ys → same_configs xs ys ≡ true
unfolding same_configs same_config
same_configs-names [] [] e = refl
same_configs-names [] (y ∷ ys) e = absurd (cc)
same_configs-names (x ∷ xs) [] e = absurd (cc)
same_configs-names (x ∷ xs) (y ∷ ys) e =
    let heads : x.name ≡ y.name = cc in
    let tails : names xs ≡ names ys = cc in
    rw (heads, same_string_refl y.name, same_configs-names xs ys tails) refl

-- LogConfig's `==` compares the names alone: a new value of the setting that has the same names in the
-- same order, whatever its levels, patterns and appenders, is not stored, and no handler is called,
-- so that the loggers are not made anew.
pub set_value-same_names :
    (configs : List LogConfig) (setting : ConfigVar (List LogConfig))
    → names configs ≡ names setting.value
    → set_value same_configs configs setting ≡ (setting, [])
unfolding set_value
set_value-same_names configs setting e = rw (same_configs-names configs setting.value e) refl
