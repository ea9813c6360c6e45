-- ===== src/Schema/Table.antt =====
-- internal/schema/schema.go: the fields that each type has.
use datum.Prelude.{◌==◌, Bool, true, false, Option, none, some, List, [], ◌∷◌, if◌then◌else◌}
use datum.Map.{Map, lookup}
use datum.Text.{Text, text_eq, bytes}

pub data Kind : Type 0 where
  free_text name enumeration boolean integer abs_path repo_path file_mode name_list text_list : Kind

pub record FieldSpec : Type 0 where
  pub name : Text
  pub kind : Kind
  pub required : Bool
  pub options : List Text

pub record TypeSpec : Type 0 where
  pub fields : List FieldSpec
  pub at_most_one : List (List Text)
  pub required_when_present : List Text

abbrev pub optional : Text → Kind → FieldSpec
optional field_name kind = record { name = field_name; kind = kind; required = false; options = [] }

abbrev pub needed : Text → Kind → FieldSpec
needed field_name kind = record { name = field_name; kind = kind; required = true; options = [] }

abbrev pub choice : Text → Text → List Text
choice a b = a ∷ b ∷ []

-- presence
abbrev pub presence : FieldSpec
presence = record {
  name = bytes "state";
  kind = enumeration;
  required = false;
  options = choice (bytes "present") (bytes "absent");
}

abbrev pub needed_state : Text → Text → FieldSpec
needed_state a b = record {
  name = bytes "state";
  kind = enumeration;
  required = true;
  options = choice a b;
}

abbrev pub fields_only : List FieldSpec → TypeSpec
fields_only fields = record { fields = fields; at_most_one = []; required_when_present = [] }

abbrev pub file_fields : List FieldSpec
file_fields =
    needed (bytes "path") abs_path
    ∷ presence
    ∷ optional (bytes "content") free_text
    ∷ optional (bytes "source") repo_path
    ∷ optional (bytes "template") repo_path
    ∷ optional (bytes "secretRef") Kind.name
    ∷ optional (bytes "owner") Kind.name
    ∷ optional (bytes "group") Kind.name
    ∷ optional (bytes "mode") file_mode
    ∷ optional (bytes "sensitive") boolean
    ∷ optional (bytes "validate") Kind.name
    ∷ optional (bytes "allowPrivileged") boolean
    ∷ []

abbrev pub directory_fields : List FieldSpec
directory_fields =
    needed (bytes "path") abs_path
    ∷ presence
    ∷ optional (bytes "owner") Kind.name
    ∷ optional (bytes "group") Kind.name
    ∷ optional (bytes "mode") file_mode
    ∷ optional (bytes "allowPrivileged") boolean
    ∷ []

abbrev pub symlink_fields : List FieldSpec
symlink_fields =
    needed (bytes "path") abs_path
    ∷ presence
    ∷ optional (bytes "target") free_text
    ∷ optional (bytes "owner") Kind.name
    ∷ optional (bytes "group") Kind.name
    ∷ []

abbrev pub user_fields : List FieldSpec
user_fields =
    needed_state (bytes "present") (bytes "absent")
    ∷ optional (bytes "uid") integer
    ∷ optional (bytes "primaryGroup") Kind.name
    ∷ optional (bytes "groups") name_list
    ∷ optional (bytes "home") abs_path
    ∷ optional (bytes "shell") abs_path
    ∷ optional (bytes "comment") free_text
    ∷ optional (bytes "system") boolean
    ∷ optional (bytes "passwordRef") Kind.name
    ∷ []

abbrev pub repository_fields : List FieldSpec
repository_fields =
    needed (bytes "id") Kind.name
    ∷ presence
    ∷ optional (bytes "url") free_text
    ∷ optional (bytes "signingKey") free_text
    ∷ optional (bytes "unsigned") boolean
    ∷ optional (bytes "enabled") boolean
    ∷ optional (bytes "priority") integer
    ∷ optional (bytes "suite") Kind.name
    ∷ optional (bytes "components") name_list
    ∷ []

-- types
abbrev pub types : Map Text TypeSpec
types =
    (
      bytes "Package",
      fields_only (
          needed_state (bytes "present") (bytes "absent")
          ∷ optional (bytes "version") free_text
          ∷ []),
    )
    ∷ (
      bytes "File",
      record {
        fields = file_fields;
        at_most_one =
            (bytes "content" ∷ bytes "source" ∷ bytes "template" ∷ bytes "secretRef" ∷ []) ∷ [];
        required_when_present = [];
      },
    )
    ∷ (bytes "Directory", fields_only directory_fields)
    ∷ (
      bytes "Symlink",
      record {
        fields = symlink_fields;
        at_most_one = [];
        required_when_present = bytes "target" ∷ [];
      },
    )
    ∷ (
      bytes "Service",
      fields_only (
          needed_state (bytes "running") (bytes "stopped") ∷ needed (bytes "enabled") boolean ∷ []),
    )
    ∷ (bytes "User", fields_only user_fields)
    ∷ (
      bytes "Group",
      fields_only (
          needed_state (bytes "present") (bytes "absent")
          ∷ optional (bytes "gid") integer
          ∷ optional (bytes "system") boolean
          ∷ []),
    )
    ∷ (bytes "Sysctl", fields_only (needed (bytes "value") free_text ∷ presence ∷ []))
    ∷ (
      bytes "Repository",
      record {
        fields = repository_fields;
        at_most_one = [];
        required_when_present = bytes "url" ∷ [];
      },
    )
    ∷ []

-- types[typeName]
unfoldable pub spec_of : Text → Option TypeSpec
unfolding lookup
spec_of type_name = lookup type_name types

-- resourceType.field
unfoldable pub field_spec : List FieldSpec → Text → Option FieldSpec
field_spec [] field_name = none
field_spec (f ∷ fs) field_name = if f.name == field_name then some f else field_spec fs field_name
