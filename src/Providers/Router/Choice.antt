-- ===== src/Providers/Router/Choice.antt =====
-- Which lists of models a router accepts, and which model its agent gets.
use picobot.Base.{
  Text, ℕ, Bool, true, false, List, [], ◌∷◌, Option, none, some, text_eq, text_eq_refl, trim,
  is_empty, any, all, find, not, ◌&&◌, inl, inr, ◌≡◌, refl, sym, subst, ap, ◌∙◌, arith, Bool-cases,
}
use picobot.Tools.Input.{unwrap_or}
use picobot.Providers.Router.{
  Fallible, ◌>>=◌, ModelConfig, Config, ModelRouter, has_id, check_models, new_router,
  build_default, build_of, from_model_config, build_with_env, new_router_of, model_of, default_of,
}

abbrev accepts : {A : Type 0} → Fallible A → Bool
accepts (inl e) = false
accepts (inr a) = true

-- No identifier stands twice.
unfoldable is_distinct : List ModelConfig → Bool
unfolding any
is_distinct [] = true
is_distinct (model ∷ models) = not (any (has_id model.id) models) && is_distinct models

abbrev is_named : ModelConfig → Bool
is_named model = not (is_empty (trim model.id))

abbrev unseen : List Text → ModelConfig → Bool
unseen seen model = not (any (text_eq model.id) seen)

all-unseen-cons :
    (id : Text) (seen : List Text) (models : List ModelConfig)
    → all (unseen (id ∷ seen)) models ≡ (not (any (has_id id) models) && all (unseen seen) models)
unfolding all any
all-unseen-cons id seen [] = refl
all-unseen-cons id seen (model ∷ models) = ground (arith, all-unseen-cons id seen models)

accepts-check_models :
    (seen : List Text) (models : List ModelConfig)
    → accepts (check_models seen models)
      ≡ (all is_named models && (all (unseen seen) models && is_distinct models))
unfolding check_models all is_distinct
accepts-check_models seen [] = refl
accepts-check_models seen (model ∷ models) =
    ground
      (arith, accepts-check_models (model.id ∷ seen) models, all-unseen-cons model.id seen models)

all-unseen : (models : List ModelConfig) → all (unseen []) models ≡ true
unfolding all any
all-unseen [] = refl
all-unseen (model ∷ models) = all-unseen models

accepts-bind :
    {A B : Type 0} (r : Fallible A) (f : A → B) → accepts (r >>= λ a. inr (f a)) ≡ accepts r
accepts-bind (inl e) f = refl
accepts-bind (inr a) f = refl

new_router_of-accepts :
    (default_id : Option Text) (models : List ModelConfig)
    → accepts (new_router_of default_id models) ≡ (all is_named models && is_distinct models)
unfolding all is_distinct
new_router_of-accepts default_id [] = refl
new_router_of-accepts default_id (first ∷ models) =
    accepts-bind (check_models [] (first ∷ models)) _
    ∙ accepts-check_models [] (first ∷ models)
    ∙ ap (λ b. all is_named (first ∷ models) && (b && is_distinct (first ∷ models)))
        (all-unseen (first ∷ models))

-- A router is made exactly when no model's identifier is blank and none stands twice; without models
-- it is made too.
new_router-accepts :
    (config : Config)
    → accepts (new_router config)
      ≡ (all is_named (unwrap_or [] config.models) && is_distinct (unwrap_or [] config.models))
unfolding new_router
new_router-accepts config =
    new_router_of-accepts config.default_model_id (unwrap_or [] config.models)

-- The model of the default identifier, else the first.
abbrev pub chosen : ModelConfig → List ModelConfig → Option Text → ModelConfig
chosen first models none = first
chosen first models (some id) = unwrap_or first (find (has_id id) (first ∷ models))

find-none :
    (id : Text) (models : List ModelConfig)
    → any (has_id id) models ≡ false
    → find (has_id id) models ≡ none
unfolding any find
find-none id [] h = refl
find-none id (model ∷ models) h = ground (arith, find-none id models)

model_of-first :
    (first : ModelConfig) (models : List ModelConfig)
    → model_of first (first ∷ models) (some first.id) ≡ first
unfolding find
model_of-first first models = rw (text_eq_refl first.id) refl

model_of-default :
    (first : ModelConfig) (models : List ModelConfig) (default_id : Option Text)
    → model_of first (first ∷ models) (some (default_of first (first ∷ models) default_id))
      ≡ chosen first models default_id
model_of-default first models none = model_of-first first models
model_of-default first models (some id) = elim (Bool-cases (any (has_id id) (first ∷ models))) [
  | inl e ↦ rw (e) refl
  | inr e ↦
      rw (e)
        (model_of-first first models ∙ sym (ap (unwrap_or first) (find-none id (first ∷ models) e)))
]

router_of :
    (default_id : Option Text) (first : ModelConfig) (models : List ModelConfig)
    (r : Fallible (Unit {0})) (router : ModelRouter)
    → (let made : ModelRouter = record {
      models = first ∷ models;
      default_id = some (default_of first (first ∷ models) default_id);
    } in
        (r >>= λ _. inr made) ≡ inr router → made ≡ router)
router_of default_id first models (inl e) router h = cc
router_of default_id first models (inr u) router h = cc

-- Of a router made of some models, the default agent is built of the model with the configured
-- default identifier, if there is one, else of the first model, with what the model leaves open
-- taken from the rest of the configuration and the number of turns from the caller.
build_default-chosen :
    (to_lowercase : Text → Text) (env : Text → Option Text) (max_turns : ℕ) (config : Config)
    (router : ModelRouter) (first : ModelConfig) (models : List ModelConfig)
    → config.models ≡ some (first ∷ models)
    → new_router config ≡ inr router
    → (let model = chosen first models config.default_model_id in
        build_default to_lowercase env max_turns config router ≡ (
          from_model_config to_lowercase model config
          >>= build_with_env env (unwrap_or max_turns model.max_turns)))
unfolding new_router build_default build_of
build_default-chosen to_lowercase env max_turns config router first models m h =
    let made =
      router_of config.default_model_id first models (check_models [] (first ∷ models)) router
        (subst (λ o. new_router_of config.default_model_id (unwrap_or [] o) ≡ inr router) m h) in
    subst
      (λ r. build_default to_lowercase env max_turns config r ≡ (
        from_model_config to_lowercase (chosen first models config.default_model_id) config
        >>= build_with_env env
            (unwrap_or max_turns (chosen first models config.default_model_id).max_turns)))
      made
      (ap
        (λ model.
          from_model_config to_lowercase model config
          >>= build_with_env env (unwrap_or max_turns model.max_turns))
        (model_of-default first models config.default_model_id))
