-- ===== src/Schema/Checks.antt =====
-- internal/schema/validate.go: the value of one field.
use datum.Prelude.{
  ◌==◌, ℕ, ◌/◌, ◌%◌, Bool, true, false, not, ◌&&◌, ◌||◌, none, some, is_some, List, [], ◌∷◌, ◌++◌,
  any, length, contains, ltb, eqb, if◌then◌else◌,
}
use datum.Prelude.Int.{ℤ, pos, negsuc}
use datum.Text.{Text, text_eq, bytes, starts_with, split}
use datum.Text.Paths.{clean}
use datum.Text.Numbers.{parse_int, int32_bound, int64_bound}
use datum.Document.Value
use datum.Document.Value.{Value, Values, nil, cons, is_scalar, scalar_text}
use datum.Document.Names.{valid_name}
use datum.Document.SafeText.{TextError, safe_text}
use datum.Schema.Table.{
  Kind, free_text, enumeration, boolean, integer, abs_path, repo_path, file_mode, name_list,
  text_list, FieldSpec,
}

-- What can be wrong with a value.
pub data Wrong : Type 0 where
  not_list not_scalar entry_not_scalar : Wrong
  entry_not_name : Text → Wrong
  bad_text : TextError → Wrong
  bad_name not_option not_boolean not_integer : Wrong
  empty_path relative_path long_path absolute_path outside_layer empty_component : Wrong
  dot_component : Text → Wrong
  unquoted_mode mode_length not_octal privileged_mode world_writable : Wrong

-- MaxPathLength
abbrev pub max_path_length : ℕ
max_path_length = 4096

-- The loop of checkPathComponents: it ends at the first component that is wrong.
unfoldable pub check_components : Text → List Text → List Wrong
check_components value [] = []
check_components value (component ∷ rest) =
    let more = check_components value rest in
    if component == []
    then (if value == bytes "/" then more else empty_component ∷ [])
    else if component == bytes ".." || component == bytes "."
    then dot_component component ∷ []
    else more

-- strings.TrimPrefix(value, "/")
unfoldable pub trim_slash : Text → Text
trim_slash [] = []
trim_slash (c ∷ s) = if eqb c b'/' then s else c ∷ s

-- checkPathComponents
unfoldable pub check_path_components : Text → List Wrong
unfolding check_components trim_slash safe_text split
check_path_components value = elim (safe_text value) [
  | some err ↦ bad_text err ∷ []
  | none ↦ check_components value (split b'/' (trim_slash value))
]

-- checkAbsPath
unfoldable pub check_abs_path : Text → List Wrong
unfolding check_path_components starts_with
check_abs_path value =
    if value == []
    then empty_path ∷ []
    else if not (starts_with value (bytes "/"))
    then relative_path ∷ []
    else if ltb max_path_length (length value)
    then long_path ∷ []
    else check_path_components value

-- checkRepoPath
unfoldable pub check_repo_path : Text → List Wrong
unfolding check_path_components starts_with clean
check_repo_path value =
    if value == []
    then empty_path ∷ []
    else if starts_with value (bytes "/")
    then absolute_path ∷ []
    else check_path_components value
      ++ (if clean value == bytes ".." || starts_with (clean value) (bytes "../")
          then outside_layer ∷ []
          else [])

-- bits&flag != 0 for a power of two, in two's complement
unfoldable pub has_bit : ℤ → ℕ → Bool
has_bit (pos n) flag = eqb (n / flag % 2) 1
has_bit (negsuc n) flag = eqb (n / flag % 2) 0

-- allowed
unfoldable pub allowed : Value → Bool
unfolding Value.lookup scalar_text
allowed desired = elim (Value.lookup (bytes "allowPrivileged") desired) [
  | none ↦ false
  | some v ↦ scalar_text v == bytes "true"
]

-- The prefixes in systemPath.
abbrev pub system_prefixes : List Text
system_prefixes =
    bytes "/etc/"
    ∷ bytes "/usr/"
    ∷ bytes "/bin/"
    ∷ bytes "/sbin/"
    ∷ bytes "/lib/"
    ∷ bytes "/boot/"
    ∷ []

-- systemPath
unfoldable pub system_path : Value → Bool
unfolding Value.lookup scalar_text starts_with
system_path desired = elim (Value.lookup (bytes "path") desired) [
  | none ↦ false
  | some v ↦ any (starts_with (scalar_text v)) system_prefixes
]

-- privileged and worldWritable
unfoldable pub is_privileged : ℤ → Bool
unfolding has_bit
is_privileged bits = has_bit bits 2048 || has_bit bits 1024

unfoldable pub is_world_writable : ℤ → Bool
unfolding has_bit
is_world_writable bits = has_bit bits 2

-- The end of checkMode, from the bits.
unfoldable pub check_bits : Value → ℤ → List Wrong
unfolding is_privileged is_world_writable allowed system_path
check_bits desired bits =
    if not (is_privileged bits) && not (is_world_writable bits)
    then []
    else if allowed desired
    then []
    else if is_privileged bits
    then privileged_mode ∷ []
    else if is_world_writable bits && system_path desired
    then world_writable ∷ []
    else []

-- checkMode
unfoldable pub check_mode : Value → Text → Bool → List Wrong
unfolding check_bits parse_int
check_mode desired digits quoted =
    if not quoted
    then unquoted_mode ∷ []
    else if not (eqb (length digits) 3) && not (eqb (length digits) 4)
    then mode_length ∷ []
    else elim (parse_int 8 int32_bound digits) [
      | none ↦ not_octal ∷ []
      | some bits ↦ check_bits desired bits
    ]

-- The loop of checkValue over a list; `names` tells a nameList.
unfoldable pub check_entries : Bool → Values → List Wrong
unfolding is_scalar scalar_text valid_name
check_entries names nil = []
check_entries names (cons item rest) =
    let more = check_entries names rest in
    if not (is_scalar item)
    then entry_not_scalar ∷ more
    else if names && not (valid_name (scalar_text item))
    then entry_not_name (scalar_text item) ∷ more
    else more

abbrev pub check_list : Bool → Value → List Wrong
check_list names (Value.list items p) = check_entries names items
check_list names _ = not_list ∷ []

-- The second switch of checkValue. What the first one takes does not come here.
unfoldable pub check_scalar : Value → FieldSpec → Text → Bool → List Wrong
unfolding safe_text valid_name contains parse_int check_abs_path check_repo_path check_mode
check_scalar desired f value quoted = elim f.kind [
  | free_text ↦ elim (safe_text value) [ none ↦ [] | some err ↦ bad_text err ∷ [] ]
  | Kind.name ↦ if valid_name value then [] else bad_name ∷ []
  | enumeration ↦ if contains f.options value then [] else not_option ∷ []
  | boolean ↦ if value == bytes "true" || value == bytes "false" then [] else not_boolean ∷ []
  | integer ↦ if is_some (parse_int 10 int64_bound value) then [] else not_integer ∷ []
  | abs_path ↦ check_abs_path value
  | repo_path ↦ check_repo_path value
  | file_mode ↦ check_mode desired value quoted
  | name_list ↦ []
  | text_list ↦ []
]

abbrev pub check_single : Value → FieldSpec → Value → List Wrong
check_single desired f (Value.scalar value quoted p) = check_scalar desired f value quoted
check_single desired f _ = not_scalar ∷ []

-- checkValue
unfoldable pub check_value : Value → FieldSpec → Value → List Wrong
unfolding check_entries check_scalar
check_value desired f v = elim f.kind [
  | name_list ↦ check_list true v
  | text_list ↦ check_list false v
  | _ ↦ check_single desired f v
]
