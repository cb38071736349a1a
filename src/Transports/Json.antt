-- ===== src/Transports/Json.antt =====
-- The JSON crate, as the transports use it: an argument.
use irc2torrent.Prelude.{Bool, Text, Option, none, some, List}
use irc2torrent.Auth.{ℤ}

pub record JsonLib : Type 1 where
  pub Value : Type 0
  pub null : Value
  pub from_str : Text → Option Value
  pub field : Text → Value → Option Value
  pub as_str : Value → Option Text
  pub as_i64 : Value → Option ℤ
  pub as_bool : Value → Option Bool
  pub as_array : Value → Option (List Value)

abbrev pub and_then {ℓ κ} : {A : Type ℓ} {B : Type κ} → Option A → (A → Option B) → Option B
and_then none f = none
and_then (some a) f = f a

module _ (json : JsonLib) where
  -- `value.get(name).and_then(Value::as_str)`
  abbrev pub text_at : Text → json.Value → Option Text
  text_at name v = and_then (json.field name v) json.as_str

  abbrev pub int_at : Text → json.Value → Option ℤ
  int_at name v = and_then (json.field name v) json.as_i64

  abbrev pub bool_at : Text → json.Value → Option Bool
  bool_at name v = and_then (json.field name v) json.as_bool
