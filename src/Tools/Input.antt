-- ===== src/Tools/Input.antt =====
-- What the tools read of a JSON input (`serde_json::Value`), and the conversions of options and
-- foreign errors to the kernel's results.
use picobot.Base.{Text, ℕ, Bool, List, Option, none, some, ◌⊎◌, inl, inr}
use picobot.Kernel.Tool.{Result, ok, err, new_error, other}

-- The fields of an object, by name: `get(name).and_then(Value::as_str)`, the same with
-- `Value::as_array` (the elements by `Value::as_str`), with `Value::as_bool` and `Value::as_u64`;
-- and the text of any field that is there.
pub record Input : Type 0 where
  pub str : Text → Option Text
  pub array : Text → Option (List (Option Text))
  pub flag : Text → Option Bool
  pub number : Text → Option ℕ
  pub json : Text → Option Text

-- `map_err(|err| ToolError::new(err.to_string()))`
abbrev pub or_error {ℓ} : {A : Type ℓ} → Text ⊎ A → Result A
or_error (inl message) = err (new_error (other message))
or_error (inr a) = ok a

-- `ok_or_else(|| ToolError::new(message))`
abbrev pub ok_or {ℓ} : {A : Type ℓ} → Text → Option A → Result A
ok_or message none = err (new_error (other message))
ok_or message (some a) = ok a

abbrev pub unwrap_or {ℓ} : {A : Type ℓ} → A → Option A → A
unwrap_or d none = d
unwrap_or d (some a) = a

-- Rust's `()`
abbrev pub Done : Type 0
Done = Unit

-- `ToolError::new` on a constant message
abbrev pub fail {ℓ} : {A : Type ℓ} → Text → Result A
fail message = err (new_error (other message))

abbrev pub str_field : Input → Text → Text → Result Text
str_field input name message = ok_or message (input.str name)
