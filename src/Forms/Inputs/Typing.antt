-- ===== src/Forms/Inputs/Typing.antt =====
-- What typing can change.
use makoon.Prelude.{
  ◌≡◌, ◌∙◌, refl, sym, ap, arith, Bool, true, false, ◌||◌, Bool-cases, inl, inr, List, [], ◌∷◌, All,
  Text, nat_eq, units, text_eq, ◌==◌, ==_iff, if◌then◌else◌,
}
use makoon.Model.{ClusterNode}
use makoon.Forms.{FieldValue}
use makoon.Forms.Values.{node_values}
use makoon.Dialogs.NodeDialogs.{NodeFormModel, changed}
use makoon.Wizard.Initials.{shown_of}
use makoon.Management.Actions.{is_blank}
use makoon.Forms.Inputs.{Input, is_editable, Typed, opened, types}
use makoon.Forms.Inputs.Views.{edit_node_inputs, installed_app_inputs}

-- What the form library is taken to do: it sets the field that it is told to, and no other.
abbrev pub Sets : (Text → FieldValue → (Text → FieldValue) → Text → FieldValue) → Type 0
Sets set_field_value =
    (n m : Text) (v : FieldValue) (values : Text → FieldValue)
    → set_field_value n v values m ≡ (if n == m then v else values m)

read_only-is_editable :
    (n : Text) (inputs : List Input)
    → All (λ (i : Input). i.read_only ≡ true) inputs
    → is_editable n inputs ≡ false
read_only-is_editable n [] _ = refl
read_only-is_editable n (i ∷ is) (h, hs) = rw h (elim (Bool-cases (i.field == n)) [
  | inl e ↦ rw e (read_only-is_editable n is hs)
  | inr e ↦ rw e (read_only-is_editable n is hs)
])

module _ (set_field_value : Text → FieldValue → (Text → FieldValue) → Text → FieldValue)
    (sets : Sets set_field_value) where
  -- A field that no input sets keeps its value, whatever is typed.
  pub Typed-fixed :
      {inputs : List Input} {a b : Text → FieldValue} (n : Text)
      → Typed set_field_value inputs a b
      → is_editable n inputs ≡ false
      → b n ≡ a n
  Typed-fixed n opened h = refl
  Typed-fixed {inputs} n (types {b} {n = m} v t e) h = sets m n v b ∙ elim (Bool-cases (m == n)) [
    | inl same ↦
        let as_n = ap (λ (k : Text). is_editable k inputs) ((==_iff m n).0 same) in
        absurd (cc (as_n, e, h))
    | inr other ↦ rw other (Typed-fixed n t h)
  ]

  -- In the dialog for a node of the open cluster only cores and memory can be changed, which are what
  -- its submit sends: name, id, address and storage stay those of the node.
  pub Typed-edit_node_inputs :
      {a b : Text → FieldValue}
      → Typed set_field_value edit_node_inputs a b
      → (b (units "name") ≡ a (units "name"))
        × (b (units "vmId") ≡ a (units "vmId"))
        × (b (units "ipAddress") ≡ a (units "ipAddress"))
        × (b (units "storagePool") ≡ a (units "storagePool"))
  Typed-edit_node_inputs t = (
    Typed-fixed (units "name") t refl,
    Typed-fixed (units "vmId") t refl,
    Typed-fixed (units "ipAddress") t refl,
    Typed-fixed (units "storagePool") t refl,
  )

  -- While the form of a Helm app of the open cluster is submitted, and where the app is installed, no
  -- value can be changed.
  pub Typed-installed_app_inputs :
      (is_submitting is_to_uninstall : Bool) {a b : Text → FieldValue} (n : Text)
      → (is_submitting || is_to_uninstall) ≡ true
      → Typed set_field_value (installed_app_inputs is_submitting is_to_uninstall) a b
      → b n ≡ a n
  Typed-installed_app_inputs is_submitting is_to_uninstall n locked t = Typed-fixed n t (
      read_only-is_editable n (installed_app_inputs is_submitting is_to_uninstall)
        (locked, (locked, (locked, (locked, (locked, (locked, tt)))))))

  -- Where the submit of the dialog for a node of the open cluster sends nothing, although the node has a
  -- name, the values in the form are those of the node: no change that a user can type is lost.
  pub unchanged-Typed :
      (stored : ClusterNode) (values : NodeFormModel) {b : Text → FieldValue}
      → Typed set_field_value edit_node_inputs (node_values (shown_of stored)) b
      → ((n : Text) → b n ≡ node_values values n)
      → is_blank stored.name ≡ false
      → changed values stored ≡ false
      → values ≡ shown_of stored
  unchanged-Typed stored values t shows named same =
      let fixed = Typed-edit_node_inputs t in
      let f0 = sym (shows (units "name")) ∙ fixed.0 in
      let f1 = sym (shows (units "vmId")) ∙ fixed.1 in
      let f2 = sym (shows (units "ipAddress")) ∙ fixed.2 in
      let f3 = sym (shows (units "storagePool")) ∙ fixed.3 in
      ground (arith, ==_iff values.cores stored.cores, ==_iff values.memory stored.memory)
