-- ===== src/Forms/Nodes.antt =====
-- What `schemaAddNode`, the schema of the three forms for a node, accepts.
use makoon.Prelude.{
  ℕ, ◌≤◌, ◌≡◌, ◌↔◌, ◌≢◌, refl, arith, Bool, true, false, not, ◌&&◌, [], ◌∷◌, length, is_empty, leb,
  ltb, Text, nat_eq, text_eq, ◌==◌, ==_refl, Bool-cases, inl, inr,
}
use makoon.Prelude.Int.{pos, ◌≤ℤ◌}
use makoon.Js.Text.{trim, trim_start, trim_end, is_space, all_units}
use makoon.Js.Regex.{test}
use makoon.Patterns.{alphanumeric, name_unit, hostname_main, hostname_start, hostname_end}
use makoon.Patterns.Names.{goes_on, is_name, patterns-is_name}
use makoon.Dialogs.NodeDialogs.{NodeFormModel}
use makoon.Forms.{Yup, IsDocumented, at_least, at_most, plain, strictly, string, text}
use makoon.Forms.Schemas.{schema_add_node}
use makoon.Forms.Values.{node_values}

trim_start_none : (s : Text) → all_units (λ c. not (is_space c)) s ≡ true → trim_start s ≡ s
unfolding trim_start
trim_start_none [] h = refl
trim_start_none (c ∷ s) h = ground arith

trim_end_none : (s : Text) → all_units (λ c. not (is_space c)) s ≡ true → trim_end s ≡ s
unfolding trim_end
trim_end_none [] h = refl
trim_end_none (c ∷ s) h = ground (arith, trim_end_none s)

-- Letters, digits, dashes and bars are no blanks.
name_unit-is_space : (c : ℕ) → name_unit c ≡ true → is_space c ≡ false
unfolding is_space
name_unit-is_space c h = ground arith

goes_on-no_space :
    (c : ℕ) (s : Text)
    → goes_on alphanumeric name_unit c s ≡ true
    → all_units (λ e. not (is_space e)) s ≡ true
goes_on-no_space c [] h = refl
goes_on-no_space c (e ∷ s) h = ground (arith, name_unit-is_space e, goes_on-no_space e s)

-- A name has no blanks around it.
pub is_name-trim : (s : Text) → is_name s ≡ true → trim s ≡ s
unfolding trim
is_name-trim [] h = cc
is_name-trim (c ∷ s) h =
    let clean : all_units (λ e. not (is_space e)) (c ∷ s) ≡ true =
      ground (arith, name_unit-is_space c, goes_on-no_space c s) in
    rw (trim_end_none (c ∷ s) clean) (trim_start_none (c ∷ s) clean)

-- A name that the form takes.
abbrev pub is_node_name : Text → Bool
is_node_name s = is_name s && leb (length s) 128

-- The rules of the field of the name, one by one, are together the test for a name.
pub name_tests :
    (s : Text)
    → (not (is_empty s)
        && true
        && (trim s == s)
        && leb (length s) 128
        && test hostname_start s
        && test hostname_main s
        && test hostname_end s
        && true)
      ≡ is_node_name s
name_tests s = elim (Bool-cases (is_name s)) [
  | inl h ↦ let e = is_name-trim s h in rw (h, e) (ground (arith, patterns-is_name s, ==_refl s))
  | inr h ↦ ground (arith, patterns-is_name s)
]

long_is_full : (s : Text) → (leb 7 (length s) && not (is_empty s)) ≡ leb 7 (length s)
long_is_full [] = refl
long_is_full (c ∷ s) = ground arith

pub is_full_iff : (s : Text) → (not (is_empty s) ≡ true) ↔ (s ≢ [])
is_full_iff [] = (λ h. cc, λ h. absurd (h refl))
is_full_iff (c ∷ s) = ((λ _ e. cc), λ _. refl)

-- What the form asks of its values, as one test.
abbrev is_node_form : NodeFormModel → Bool
is_node_form v =
    is_node_name v.name
    && at_least 100 v.vm_id
    && at_most 4294967296 v.vm_id
    && leb 1 v.cores
    && leb v.cores 4096
    && ltb 0 v.memory
    && leb 7 (length v.ip_address)
    && not (is_empty v.storage_pool)

-- What the form asks of its values, as a statement.
abbrev pub IsNodeForm : NodeFormModel → Type 0
IsNodeForm v =
    (is_name v.name ≡ true)
    × (length v.name ≤ 128)
    × (pos 100 ≤ℤ v.vm_id)
    × (v.vm_id ≤ℤ pos 4294967296)
    × (1 ≤ v.cores)
    × (v.cores ≤ 4096)
    × (1 ≤ v.memory)
    × (7 ≤ length v.ip_address)
    × (v.storage_pool ≢ [])

IsNodeForm-iff : (v : NodeFormModel) → (is_node_form v ≡ true) ↔ IsNodeForm v
IsNodeForm-iff v = (
  λ h. ground (arith, is_full_iff v.storage_pool),
  λ h. ground (arith, is_full_iff v.storage_pool),
)

module _ (y : Yup) (doc : IsDocumented y) (v : NodeFormModel) where
  is_valid-is_node_form : y.is_valid schema_add_node (node_values v) ≡ is_node_form v
  is_valid-is_node_form =
      rw
        (
          doc.is_valid-keeps schema_add_node (node_values v),
          doc.required_text strictly v.name,
          doc.is_strict string strictly (text v.name),
          doc.trims_strictly v.name,
          doc.max_text strictly 128 v.name,
          doc.matches_text strictly hostname_start v.name,
          doc.matches_text strictly hostname_main v.name,
          doc.matches_text strictly hostname_end v.name,
          doc.min_number plain 100 v.vm_id,
          doc.max_number plain 4294967296 v.vm_id,
          doc.required_number plain v.vm_id,
          doc.min_number plain 1 (pos v.cores),
          doc.max_number plain 4096 (pos v.cores),
          doc.required_number plain (pos v.cores),
          doc.positive_number plain (pos v.memory),
          doc.required_number plain (pos v.memory),
          doc.min_text plain 7 v.ip_address,
          doc.required_text plain v.ip_address,
          doc.required_text plain v.storage_pool,
        )
        (ground (arith, name_tests v.name, long_is_full v.ip_address))

  -- The form for a node is valid exactly where the name is a name of at most 128 units, the id is from
  -- 100 to 4294967296, there are 1 to 4096 cores and some memory, the address has at least 7 units and
  -- there is a storage pool; here `y` is what the documentation of the library Yup says.
  pub is_valid-schema_add_node : (y.is_valid schema_add_node (node_values v) ≡ true) ↔ IsNodeForm v
  is_valid-schema_add_node = rw is_valid-is_node_form (IsNodeForm-iff v)
