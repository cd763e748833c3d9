-- ===== src/Entity/Types.antt =====
-- `ObjectTypeMatchesID` of data-service/backend/internal/biz/entity/biz.go: the type of an identity.
use tidewise_ai.Prelude.{
  ◌≡◌, refl, sym, ap, ◌∙◌, String, Bool, true, false, inl, inr, str_eq, str_eq_to, Bool-cases,
  if◌then◌else◌,
}
use tidewise_ai.Identity.{UuidPackage, is}
use tidewise_ai.Identity.Laws.{UuidLaws, kind_unique}
use tidewise_ai.Entity.{object_type_matches_id}

-- The type of the identities of a kind.
abbrev type_of : String → String
type_of kind =
    if str_eq kind "COU"
    then "country"
    else if str_eq kind "REG"
    then "region"
    else if str_eq kind "ORG"
    then "organization"
    else if str_eq kind "IND"
    then "industry"
    else if str_eq kind "CON"
    then "concept"
    else if str_eq kind "CND"
    then "chain_node"
    else "industry_chain"

module _ (uuid : UuidPackage) where
  Typed : String → String → Type 0
  Typed t value = (kind : String) × (type_of kind ≡ t) × (is uuid value kind ≡ true)

  -- One case of the switch.
  case_of :
      (t name kind value : String) (rest : Bool)
      → type_of kind ≡ name
      → (rest ≡ true → Typed t value)
      → (if str_eq t name then is uuid value kind else rest) ≡ true
      → Typed t value
  unfolding Typed
  case_of t name kind value rest n more h = elim (Bool-cases (str_eq t name)) [
    | inl e ↦ (kind, n ∙ sym (str_eq_to e), rw e at h)
    | inr e ↦ more (rw e at h)
  ]

  matches-Typed : (t value : String) → object_type_matches_id uuid t value ≡ true → Typed t value
  unfolding object_type_matches_id
  matches-Typed t value h =
      case_of t "country" "COU" value _ refl
        (case_of t "region" "REG" value _ refl (
          case_of t "organization" "ORG" value _ refl (
            case_of t "industry" "IND" value _ refl (
              case_of t "concept" "CON" value _ refl (
                case_of t "chain_node" "CND" value _ refl
                  (case_of t "industry_chain" "ICH" value false refl (λ bad. absurd (cc))))))))
        h

  -- Where UUIDs are written and read as documented, an identity matches one object type at most.
  pub object_type_matches_id_unique :
      UuidLaws uuid
      → (s t value : String) → object_type_matches_id uuid s value ≡ true
      → object_type_matches_id uuid t value ≡ true
      → s ≡ t
  unfolding Typed
  object_type_matches_id_unique laws s t value h k =
      let (a, named, is_a) = matches-Typed s value h in
      let (b, other, is_b) = matches-Typed t value k in
      sym named ∙ ap type_of (kind_unique uuid laws value a b is_a is_b) ∙ other
