-- ===== src/Forms/Inputs.antt =====
-- The inputs of the forms of web/src-web/src/views. An input shows the value of its field in the form
-- library, and a user who types into it sets that field, unless it is read only.
pub mod Views
pub mod Typing
use makoon.Prelude.{
  ℕ, ◌≡◌, Bool, true, false, not, ◌||◌, ◌&&◌, Option, List, [], ◌∷◌, Text, text_eq, ◌==◌,
}
use makoon.Forms.{FieldValue}

pub data InputKind : Type 0 where
  -- InputText, InputTextarea, Password and Dropdown
  line area secret choice : InputKind
  -- InputNumber, with `min` and `step`
  counter : Option ℕ → Option ℕ → InputKind

pub record Input : Type 0 where
  pub field : Text
  pub label : Text
  -- the label has the sign of a required field
  pub marked : Bool
  pub kind : InputKind
  pub read_only : Bool
  -- the error of the field is shown under the input
  pub shows_error : Bool

-- Whether some input of a form sets the field.
abbrev pub is_editable : Text → List Input → Bool
is_editable n [] = false
is_editable n (i ∷ is) = (i.field == n && not i.read_only) || is_editable n is

-- What a user can make of the values of a form by typing, where `set_field_value` is the form library's.
pub data Typed (set_field_value : Text → FieldValue → (Text → FieldValue) → Text → FieldValue)
    (inputs : List Input) (a : Text → FieldValue) : (Text → FieldValue) → Type 0 where
  opened : Typed set_field_value inputs a a
  types :
      {b : Text → FieldValue} {n : Text} (v : FieldValue)
      → Typed set_field_value inputs a b
      → is_editable n inputs ≡ true
      → Typed set_field_value inputs a (set_field_value n v b)
