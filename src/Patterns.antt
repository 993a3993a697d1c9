-- ===== src/Patterns.antt =====
-- web/src-web/src/utils/patterns.ts: the patterns that the forms test the names of clusters and nodes
-- with.
pub mod Names
use makoon.Prelude.{ℕ, Bool, ◌||◌, List, [], ◌∷◌, nat_eq, ◌==◌}
use makoon.Js.Regex.{Part, one_or_more, any_number, between, dot}

-- `[a-zA-Z0-9]`
abbrev pub alphanumeric : ℕ → Bool
alphanumeric c = between b'a' b'z' c || between b'A' b'Z' c || between b'0' b'9' c

-- `[a-zA-Z0-9|-]`
abbrev pub name_unit : ℕ → Bool
name_unit c = alphanumeric c || c == b'|' || c == b'-'

abbrev pub hostname_main : List Part
hostname_main = one_or_more name_unit ∷ []

abbrev pub hostname_start : List Part
hostname_start = one_or_more alphanumeric ∷ any_number dot ∷ []

abbrev pub hostname_end : List Part
hostname_end = any_number dot ∷ one_or_more alphanumeric ∷ []
