-- ===== src/Providers/Router.antt =====
-- src/providers/factory.rs: `ProviderKind`, `ProviderAgentBuilder` and `ModelRouter`: which provider,
-- model and key an agent is built with. Lower case and the environment are parameters, and what the
-- library of models builds is the choice that it is given.
pub mod Choice
use picobot.Base.{
  Text, codes, ℕ, Bool, true, false, List, [], ◌∷◌, ◌++◌, Option, none, some, text_eq, trim,
  is_empty, any, find, if◌then◌else◌, ◌⊎◌, inl, inr,
}
use picobot.Tools.Input.{unwrap_or}
use picobot.Tools.Identity.{or_else}

-- `ProviderKind`
pub data ProviderKind : Type 0 where
  open_ai open_router gemini : ProviderKind

-- An error's text, or a value: `anyhow::Result`
abbrev pub Fallible : Type 0 → Type 0
Fallible A = Text ⊎ A

infixl 5 ◌>>=◌
abbrev pub ◌>>=◌ : {A B : Type 0} → Fallible A → (A → Fallible B) → Fallible B
(inl e) >>= f = inl e
(inr a) >>= f = f a

-- `ProviderKind::from_str`
unfoldable pub from_str : (Text → Text) → Text → Fallible ProviderKind
unfolding text_eq trim
from_str to_lowercase value =
    let name = to_lowercase (trim value) in
    if text_eq name (codes "openai")
    then inr open_ai
    else if text_eq name (codes "openrouter")
    then inr open_router
    else if text_eq name (codes "gemini")
    then inr gemini
    else inl (codes "unsupported provider '" ++ (name ++ codes "'"))

-- `ModelConfig`
pub record ModelConfig : Type 0 where
  pub id : Text
  pub provider : Option Text
  pub model : Text
  pub system_prompt : Option Text
  pub base_url : Option Text
  pub api_key_env : Option Text
  pub max_turns : Option ℕ

-- What the builders read of the configuration, its defaults filled in
pub record Config : Type 0 where
  pub provider : Text
  pub model : Text
  pub system_prompt : Text
  pub base_url : Option Text
  pub api_key_env : Option Text
  pub models : Option (List ModelConfig)
  pub default_model_id : Option Text

-- `ProviderAgentBuilder`
pub record ProviderAgentBuilder : Type 0 where
  pub provider : ProviderKind
  pub model : Text
  pub system_prompt : Text
  pub base_url : Option Text
  pub api_key_env : Option Text

-- `ProviderAgentBuilder::new`
unfoldable new_builder : (Text → Text) → Config → Fallible ProviderAgentBuilder
unfolding from_str
new_builder to_lowercase config = from_str to_lowercase config.provider >>= λ provider.
    inr (record {
      provider = provider;
      model = config.model;
      system_prompt = config.system_prompt;
      base_url = config.base_url;
      api_key_env = config.api_key_env;
    })

-- `ProviderAgentBuilder::from_model_config`
unfoldable pub from_model_config :
    (Text → Text) → ModelConfig → Config → Fallible ProviderAgentBuilder
unfolding from_str
from_model_config to_lowercase model fallback =
    from_str to_lowercase (unwrap_or fallback.provider model.provider) >>= λ provider. inr (record {
      provider = provider;
      model = model.model;
      system_prompt = unwrap_or fallback.system_prompt model.system_prompt;
      base_url = or_else model.base_url fallback.base_url;
      api_key_env = or_else model.api_key_env fallback.api_key_env;
    })

abbrev default_key_env : ProviderKind → Text
default_key_env open_ai = codes "OPENAI_API_KEY"
default_key_env open_router = codes "OPENROUTER_API_KEY"
default_key_env gemini = codes "GEMINI_API_KEY"

abbrev key_or_missing : Text → Option Text → Fallible Text
key_or_missing name none = inl (codes "missing API key in env '" ++ (name ++ codes "'"))
key_or_missing name (some key) = inr key

-- The key that `build_with_env` and `build_without_tools_with_env` read
unfoldable api_key : (Text → Option Text) → ProviderAgentBuilder → Fallible Text
api_key env builder =
    let name = unwrap_or (default_key_env builder.provider) builder.api_key_env in
    key_or_missing name (env name)

-- What an agent is built of, by `build_with_env`: the builder, the key and the number of turns
pub record AgentSpec : Type 0 where
  pub builder : ProviderAgentBuilder
  pub key : Text
  pub max_turns : ℕ

unfoldable pub build_with_env : (Text → Option Text) → ℕ → ProviderAgentBuilder → Fallible AgentSpec
unfolding api_key
build_with_env env max_turns builder = api_key env builder >>= λ key.
    inr (record { builder = builder; key = key; max_turns = max_turns })

-- `ModelRouter`
pub record ModelRouter : Type 0 where
  pub models : List ModelConfig
  pub default_id : Option Text

abbrev pub has_id : Text → ModelConfig → Bool
has_id id model = text_eq model.id id

-- The loop of `ModelRouter::new`; the identifiers that were seen are a list
unfoldable pub check_models : List Text → List ModelConfig → Fallible (Unit {0})
unfolding trim is_empty any text_eq
check_models seen [] = inr tt
check_models seen (model ∷ models) =
    let rest = check_models (model.id ∷ seen) models in
    if is_empty (trim model.id)
    then inl (codes "model id cannot be empty")
    else if any (text_eq model.id) seen
    then inl (codes "duplicate model id '" ++ (model.id ++ codes "'"))
    else rest

abbrev default_of : ModelConfig → List ModelConfig → Option Text → Text
default_of first models none = first.id
default_of first models (some id) = if any (has_id id) models then id else first.id

abbrev new_router_of : Option Text → List ModelConfig → Fallible ModelRouter
new_router_of default_id [] = inr (record { models = []; default_id = none })
new_router_of default_id (first ∷ models) = check_models [] (first ∷ models) >>= λ _. inr (record {
  models = first ∷ models;
  default_id = some (default_of first (first ∷ models) default_id);
})

-- `ModelRouter::new`
unfoldable pub new_router : Config → Fallible ModelRouter
unfolding check_models any text_eq
new_router config = new_router_of config.default_model_id (unwrap_or [] config.models)

-- The model that `build_default` takes, of some
abbrev model_of : ModelConfig → List ModelConfig → Option Text → ModelConfig
model_of first models none = first
model_of first models (some id) = unwrap_or first (find (has_id id) models)

unfoldable pub build_of :
    (Text → Text)
    → (Text → Option Text)
    → ℕ
    → Config
    → Option Text
    → List ModelConfig
    → Fallible AgentSpec
unfolding new_builder from_model_config build_with_env find text_eq
build_of to_lowercase env max_turns fallback default_id [] =
    new_builder to_lowercase fallback >>= build_with_env env max_turns
build_of to_lowercase env max_turns fallback default_id (first ∷ models) =
    let model = model_of first (first ∷ models) default_id in
    from_model_config to_lowercase model fallback
    >>= build_with_env env (unwrap_or max_turns model.max_turns)

-- `ModelRouter::build_default`
unfoldable pub build_default :
    (Text → Text) → (Text → Option Text) → ℕ → Config → ModelRouter → Fallible AgentSpec
unfolding build_of
build_default to_lowercase env max_turns fallback router =
    build_of to_lowercase env max_turns fallback router.default_id router.models
