-- ===== src/Document/Reference.antt =====
-- internal/document/document.go and names.go: references to resources.
use datum.Prelude.{Eq, ◌==◌, ==_iff, ◌≡◌, ◌↔◌, Bool, true, ◌&&◌, ◌++◌, arith}
use datum.Text.{Text, text_eq, bytes, text_lt}

pub record Reference : Type 0 where
  pub type : Text
  pub name : Text

unfoldable pub ref_beq : Reference → Reference → Bool
ref_beq a b = a.type == b.type && a.name == b.name

pub ref_beq_iff : (a b : Reference) → (ref_beq a b ≡ true) ↔ (a ≡ b)
unfolding ref_beq
ref_beq_iff a b = ground (arith, ==_iff a.type b.type, ==_iff a.name b.name)

instance abbrev pub ref_eq : Eq Reference
ref_eq = record { beq = ref_beq; beq_iff = ref_beq_iff }

-- Reference.String: Type[name]
unfoldable pub ref_string : Reference → Text
ref_string r = r.type ++ bytes "[" ++ r.name ++ bytes "]"

-- The `less` of sortRefs.
unfoldable pub ref_less : Reference → Reference → Bool
ref_less a b = text_lt (ref_string a) (ref_string b)
