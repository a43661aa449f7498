-- ===== src/Rules/Schema.antt =====
-- internal/rules/validate.go: a pack is checked against its JSON schema, as a tree without nulls,
-- and the errors of the schema library, which are a tree, become a list.
pub mod Pointers
use promptshield_beta.Base.{
  List, ℕ, Bool, true, false, [], ◌∷◌, ◌++◌, ◌==◌, map, if◌then◌else◌, ◌||◌,
}
use promptshield_beta.Scanner.Verifiers.{split}
use promptshield_beta.Base.Text.{Str, bytes, same}

-- A value that yaml.Unmarshal makes; a scalar stands by its text.
mutual
  pub data Generic : Type 0 where
    null : Generic
    scalar : Str → Generic
    array : Generics → Generic
    object : Entries → Generic

  pub data Generics : Type 0 where
    nil : Generics
    cons : Generic → Generics → Generics

  pub data Entries : Type 0 where
    none : Entries
    entry : Str → Generic → Entries → Entries

unfoldable pub is_null : Generic → Bool
is_null null = true
is_null (scalar s) = false
is_null (array vs) = false
is_null (object es) = false

-- pruneNulls, for the value of an entry that is kept or not.
unfoldable mutual
  unfolding is_null

  pub prune_nulls : Generic → Generic
  prune_nulls null = null
  prune_nulls (scalar s) = scalar s
  prune_nulls (array vs) = array (prune_elements vs)
  prune_nulls (object es) = object (prune_entries es)

  pub prune_elements : Generics → Generics
  prune_elements nil = nil
  prune_elements (cons v vs) = cons (prune_nulls v) (prune_elements vs)

  pub prune_entries : Entries → Entries
  prune_entries none = none
  prune_entries (entry k v es) =
      let rest = prune_entries es in if is_null v then rest else entry k (prune_nulls v) rest

-- jsonschema.ValidationError: its location, its message, its whole text and its causes.
mutual
  pub data ValidationError : Type 0 where
    validation_error : (location message text : Str) → Causes → ValidationError

  pub data Causes : Type 0 where
    no_cause : Causes
    cause : ValidationError → Causes → Causes

-- strings.ReplaceAll of `~` and a byte by another byte; the flag says that a `~` was read.
unfoldable pub replace_tilde : ℕ → ℕ → Bool → Str → Str
replace_tilde from to false [] = []
replace_tilde from to true [] = b'~' ∷ []
replace_tilde from to false (c ∷ s) = elim (c == b'~') [
  | true ↦ replace_tilde from to true s
  | false ↦ c ∷ replace_tilde from to false s
]
replace_tilde from to true (c ∷ s) = elim (c == from) [
  | true ↦ to ∷ replace_tilde from to false s
  | false ↦ elim (c == b'~') [
    | true ↦ b'~' ∷ replace_tilde from to true s
    | false ↦ b'~' ∷ c ∷ replace_tilde from to false s
  ]
]

-- The two replacements of a part of the pointer.
unfoldable pub unescape : Str → Str
unfolding replace_tilde
unescape p = replace_tilde b'0' b'~' false (replace_tilde b'1' b'/' false p)

-- strings.Join with a dot.
unfoldable pub join_dots : List Str → Str
join_dots [] = []
join_dots (p ∷ ps) = elim ps [ [] ↦ p | q ∷ qs ↦ p ++ b'.' ∷ join_dots ps ]

-- strings.TrimPrefix of one byte.
unfoldable pub trim_byte : ℕ → Str → Str
trim_byte b [] = []
trim_byte b (c ∷ s) = if c == b then s else c ∷ s

unfoldable pub normalize_location : Str → Str
unfolding unescape join_dots trim_byte split
normalize_location ptr =
    let rest = trim_byte b'/' (trim_byte b'#' ptr) in
    if same ptr [] || same ptr (bytes "#")
    then bytes "#"
    else if same rest []
    then bytes "#"
    else join_dots (map unescape (split b'/' rest))

unfoldable pub leaf_message : Str → Str → Str
leaf_message message text = if same message [] then text else message

-- The closure `walk` of flattenValidationError: the leaves, with their locations.
unfoldable mutual
  unfolding normalize_location leaf_message

  pub flatten : ValidationError → List (Str × Str)
  flatten (validation_error location message text no_cause) =
      (normalize_location location, leaf_message message text) ∷ []
  flatten (validation_error location message text (cause e es)) = flatten e ++ flatten_causes es

  pub flatten_causes : Causes → List (Str × Str)
  flatten_causes no_cause = []
  flatten_causes (cause e es) = flatten e ++ flatten_causes es
