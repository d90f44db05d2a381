-- ===== src/Kernel/Tool/Registry.antt =====
-- src/tools/registry.rs.
use picobot.Base.{
  subst, Text, Bool, List, [], ◌∷◌, ◌++◌, Option, none, some, text_eq, text_eq_refl, eq_of_text_eq,
  find, ◌≡◌, refl, if◌then◌else◌, arith, Bool-cases, Option-cases, inl, inr,
}
use picobot.Kernel.Capability.{is_some}
use picobot.Kernel.Tool.{
  Tool, Result, ok, err, new_error, duplicate_tool, invalid_schema, missing_schema, invalid_input,
}

-- `ToolRegistry`: the tools in the order of registration, and the compiled schemas by name
pub record ToolRegistry (Schema Input Output World : Type 0) : Type 0 where
  pub tools : List (Tool Schema Input Output World)
  pub schemas : List (Text × (Input → Bool))

-- `HashMap::get`
unfoldable pub lookup {ℓ} : {V : Type ℓ} → Text → List (Text × V) → Option V
unfolding text_eq
lookup k [] = none
lookup k ((j, v) ∷ m) = if text_eq j k then some v else lookup k m

module _ {Schema Input Output World : Type 0} where
  -- `ToolRegistry::register`; `validator_for` is that of the crate `jsonschema`
  unfoldable pub register :
      (Schema → Option (Input → Bool))
      → Tool Schema Input Output World
      → ToolRegistry Schema Input Output World
      → Result (ToolRegistry Schema Input Output World)
  unfolding lookup
  register validator_for tool registry = elim (lookup tool.name registry.schemas) [
    | some v ↦ err (new_error (duplicate_tool tool.name))
    | none ↦ elim (validator_for tool.schema) [
      | none ↦ err (new_error (invalid_schema tool.name))
      | some validator ↦ ok (record {
        tools = registry.tools ++ tool ∷ [];
        schemas = (tool.name, validator) ∷ registry.schemas;
      })
    ]
  ]

  -- `ToolRegistry::new`
  abbrev pub empty : ToolRegistry Schema Input Output World
  empty = record { tools = []; schemas = [] }

  -- `ToolRegistry::get`
  unfoldable pub get :
      Text → ToolRegistry Schema Input Output World → Option (Tool Schema Input Output World)
  unfolding find text_eq
  get name registry = find (λ tool. text_eq tool.name name) registry.tools

  -- `ToolRegistry::validate_input`
  unfoldable pub validate_input :
      Tool Schema Input Output World
      → Input
      → ToolRegistry Schema Input Output World
      → Result (Unit {0})
  unfolding lookup
  validate_input tool input registry = elim (lookup tool.name registry.schemas) [
    | none ↦ err (new_error (missing_schema tool.name))
    | some is_valid ↦ if is_valid input then ok tt else err (new_error (invalid_input tool.name))
  ]

  -- A name has a schema exactly if it has a tool.
  pub record IsConsistent (registry : ToolRegistry Schema Input Output World) : Type 0 where
    pub agree : (name : Text) → is_some (get name registry) ≡ is_some (lookup name registry.schemas)

  find-append :
      (p : Tool Schema Input Output World → Bool) (xs : List (Tool Schema Input Output World))
      (x : Tool Schema Input Output World)
      → find p (xs ++ x ∷ [])
        ≡ elim (find p xs) [ none ↦ if p x then some x else none | some y ↦ some y ]
  unfolding find
  find-append p [] x = refl
  find-append p (y ∷ xs) x = ground (arith, find-append p xs x)

  abbrev added :
      Tool Schema Input Output World
      → (Input → Bool)
      → ToolRegistry Schema Input Output World
      → ToolRegistry Schema Input Output World
  added tool v registry = record {
    tools = registry.tools ++ tool ∷ [];
    schemas = (tool.name, v) ∷ registry.schemas;
  }

  register-eq-ok :
      (validator_for : Schema → Option (Input → Bool)) (tool : Tool Schema Input Output World)
      (registry next : ToolRegistry Schema Input Output World)
      → register validator_for tool registry ≡ ok next
      → (v : Input → Bool) × (lookup tool.name registry.schemas ≡ none)
        × (next ≡ added tool v registry)
  unfolding register
  register-eq-ok validator_for tool registry next h =
      elim (Option-cases (lookup tool.name registry.schemas)) [
        | inr (v, e) ↦ absurd (cc)
        | inl e ↦ elim (Option-cases (validator_for tool.schema)) [
          | inl f ↦ absurd (cc)
          | inr (v, f) ↦ (v, e, ground arith)
        ]
      ]

  module _ (tool : Tool Schema Input Output World) (v : Input → Bool)
      (registry : ToolRegistry Schema Input Output World)
      (fresh : lookup tool.name registry.schemas ≡ none) (c : IsConsistent registry) where
    get-absent : get tool.name registry ≡ none
    get-absent = ground (arith, c.agree tool.name)

    get-added :
        (name : Text)
        → get name (added tool v registry)
          ≡ (if text_eq tool.name name then some tool else get name registry)
    unfolding get
    get-added name = elim (Bool-cases (text_eq tool.name name)) [
      | inl e ↦
          let absent : get name registry ≡ none =
            subst (λ n. get n registry ≡ none) (eq_of_text_eq tool.name name e) get-absent in
          rw (e, find-append (λ t. text_eq t.name name) registry.tools tool, absent, e)
      | inr e ↦ ground (arith, find-append (λ t. text_eq t.name name) registry.tools tool, e)
    ]

    added-IsConsistent : IsConsistent (added tool v registry)
    unfolding lookup
    added-IsConsistent = record { agree = λ name. ground (arith, get-added name, c.agree name) }

    register-added :
        (validator_for : Schema → Option (Input → Bool))
        → register validator_for tool (added tool v registry)
          ≡ err (new_error (duplicate_tool tool.name))
    unfolding register lookup
    register-added validator_for = rw (text_eq_refl tool.name, register)

  -- A registration that succeeds in a consistent registry keeps it consistent; the new tool is found under its
  -- name, every other name finds what it found before; and a name that is taken is refused.
  pub register_lem :
      (validator_for : Schema → Option (Input → Bool)) (tool : Tool Schema Input Output World)
      (registry next : ToolRegistry Schema Input Output World)
      → IsConsistent registry
      → register validator_for tool registry ≡ ok next
      → IsConsistent next
        × ((name : Text)
            → get name next ≡ (if text_eq tool.name name then some tool else get name registry))
        × (register validator_for tool next ≡ err (new_error (duplicate_tool tool.name)))
  register_lem validator_for tool registry next c h =
      let (v, fresh, e) = register-eq-ok validator_for tool registry next h in
      rw e (
        added-IsConsistent tool v registry fresh c,
        get-added tool v registry fresh c,
        register-added tool v registry fresh c validator_for,
      )
