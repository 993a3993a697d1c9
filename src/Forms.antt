-- ===== src/Forms.antt =====
-- The validation schemas of the forms, as values: what the program tells the library Yup. The library
-- itself is a parameter, with the part of its documentation that the forms rely on.
pub mod Schemas
pub mod Nodes
pub mod Proposals
pub mod Clusters
pub mod Releases
pub mod Inputs
pub mod Values
use makoon.Prelude.{
  ℕ, Bool, true, false, not, ◌&&◌, ◌||◌, ◌≡◌, List, [], ◌∷◌, String, Text, units, length, is_empty,
  leb, text_eq, ◌==◌, if◌then◌else◌,
}
use makoon.Prelude.Int.{ℤ, pos, negsuc, is_positive}
use makoon.Js.Text.{trim}
use makoon.Js.Regex
use makoon.Js.Regex.{Part}

-- A value of a form's field.
pub data FieldValue : Type 0 where
  -- undefined or null
  undefined : FieldValue
  text : Text → FieldValue
  numeric : ℤ → FieldValue

-- The methods that the schemas call on `Yup.string()` and `Yup.number()`.
pub data Rule : Type 0 where
  required strict trims positive : Rule
  min max : ℕ → Rule
  matches : List Part → Rule
  -- `test` with a function of the program
  passes : (Text → Bool) → Rule

pub data Kind : Type 0 where
  string number : Kind

-- A field of an object's shape, with the message of each rule, which is empty where none is given.
-- A field of an inner object has its path as its name.
pub record FieldSchema : Type 0 where
  pub name : Text
  pub kind : Kind
  pub rules : List (Rule × Text)

abbrev pub says : Rule → String → Rule × Text
says r message = (r, units message)

-- How a text is read: as it is, as it is and checked strictly, or without the blanks around it.
pub data Mode : Type 0 where
  plain strictly trimmed : Mode

abbrev has_rule : (Rule → Bool) → List (Rule × Text) → Bool
has_rule p [] = false
has_rule p ((r, _) ∷ rs) = p r || has_rule p rs

abbrev is_strict : Rule → Bool
is_strict strict = true
is_strict _ = false

abbrev is_trim : Rule → Bool
is_trim trims = true
is_trim _ = false

abbrev pub mode_of : List (Rule × Text) → Mode
mode_of rs =
    if has_rule is_strict rs then strictly else if has_rule is_trim rs then trimmed else plain

abbrev pub seen : Mode → Text → Text
seen trimmed t = trim t
seen _ t = t

-- What the program uses of the library: whether a value keeps one rule of a field, and whether the
-- values of a form keep a schema.
pub record Yup : Type 0 where
  pub holds : Kind → Mode → Rule → FieldValue → Bool
  pub is_valid : List FieldSchema → (Text → FieldValue) → Bool

module _ (holds : Kind → Mode → Rule → FieldValue → Bool) where
  abbrev pub keeps_rules : Kind → Mode → List (Rule × Text) → FieldValue → Bool
  keeps_rules k m [] v = true
  keeps_rules k m ((r, _) ∷ rs) v = holds k m r v && keeps_rules k m rs v

  abbrev pub keeps_fields : List FieldSchema → (Text → FieldValue) → Bool
  keeps_fields [] values = true
  keeps_fields (f ∷ fs) values =
      keeps_rules f.kind (mode_of f.rules) f.rules (values f.name) && keeps_fields fs values

abbrev pub at_least : ℕ → ℤ → Bool
at_least n (pos a) = leb n a
at_least n (negsuc a) = false

abbrev pub at_most : ℕ → ℤ → Bool
at_most n (pos a) = leb a n
at_most n (negsuc a) = true

-- What the documentation of Yup says of these methods: an object is valid if each rule of each field
-- holds, a required text is not empty, a number is compared with a bound, of a text the length is, a
-- strict `trim` tests and any other one changes the value first. Of a missing value `trim` asks nothing.
pub record IsDocumented (y : Yup) : Type 0 where
  pub is_valid-keeps :
      (shape : List FieldSchema) (values : Text → FieldValue)
      → y.is_valid shape values ≡ keeps_fields y.holds shape values
  pub is_strict : (k : Kind) (m : Mode) (v : FieldValue) → y.holds k m strict v ≡ true
  pub required_missing : (k : Kind) (m : Mode) → y.holds k m required undefined ≡ false
  pub required_text :
      (m : Mode) (t : Text) → y.holds string m required (text t) ≡ not (is_empty (seen m t))
  pub required_number : (m : Mode) (n : ℤ) → y.holds number m required (numeric n) ≡ true
  pub trims_strictly : (t : Text) → y.holds string strictly trims (text t) ≡ (trim t == t)
  pub trims_first : (t : Text) → y.holds string trimmed trims (text t) ≡ true
  pub trims_missing : y.holds string trimmed trims undefined ≡ true
  pub min_text :
      (m : Mode) (n : ℕ) (t : Text) → y.holds string m (min n) (text t) ≡ leb n (length (seen m t))
  pub max_text :
      (m : Mode) (n : ℕ) (t : Text) → y.holds string m (max n) (text t) ≡ leb (length (seen m t)) n
  pub matches_text :
      (m : Mode) (p : List Part) (t : Text)
      → y.holds string m (matches p) (text t) ≡ Regex.test p (seen m t)
  pub passes_text :
      (m : Mode) (p : Text → Bool) (t : Text) → y.holds string m (passes p) (text t) ≡ p (seen m t)
  pub min_number : (m : Mode) (n : ℕ) (z : ℤ) → y.holds number m (min n) (numeric z) ≡ at_least n z
  pub max_number : (m : Mode) (n : ℕ) (z : ℤ) → y.holds number m (max n) (numeric z) ≡ at_most n z
  pub positive_number : (m : Mode) (z : ℤ) → y.holds number m positive (numeric z) ≡ is_positive z
