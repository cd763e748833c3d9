-- ===== src/Identity.antt =====
-- data-service/backend/internal/core/id/id.go: identities of domain objects, a registered prefix
-- and a UUID behind it. The package google/uuid is a parameter.
pub mod Laws
use Prim.Native.Char.{nul}
use Prim.Native.String.{len, ◌++◌}
use tidewise_ai.Prelude.{
  ℕ, String, Bool, true, false, ◌&&◌, ◌||◌, ◌≡◌, refl, Option, none, some, List, [], ◌∷◌, Result,
  ok, err, ◌>>=◌, ltb, leb, ◌==◌, str_eq, if◌then◌else◌, not,
}
use tidewise_ai.Prelude.Text.{trim_space, is_blank, all_chars, str_mem, strip_prefix}

-- What the code uses of google/uuid. A UUID is its 128 bits as a number; uuid.Nil is 0.
pub record UuidPackage : Type 0 where
  pub to_string : ℕ → String  -- UUID.String
  pub parse : String → Option ℕ  -- uuid.Parse
  pub new_sha1 : String → ℕ  -- uuid.NewSHA1 in the name space OID

pub data IdError : Type 0 where
  invalid_prefix invalid_identity invalid_seed : IdError

-- The kinds that are listed in `registered`; a `Kind` is its prefix.
abbrev pub registered_kinds : List String
registered_kinds =
    "SDQ" ∷ "SIND" ∷ "SCON" ∷ "SICH" ∷ "SIL" ∷ "SCL" ∷ "SICL" ∷ "STK" ∷ "GRD" ∷ "MED" ∷ "ENT"
    ∷ "IND" ∷ "CON" ∷ "CND" ∷ "ICH" ∷ "ERL" ∷ "COU" ∷ "SUB" ∷ "MIN" ∷ "INS" ∷ "GPD" ∷ "GPR" ∷ "MEC"
    ∷ "MCD" ∷ "COM" ∷ "CIL" ∷ "REG" ∷ "ORG" ∷ "OCA" ∷ "OFN" ∷ "ODT" ∷ "ODL" ∷ "RAW" ∷ "EVD" ∷ "EVC"
    ∷ "RCL" ∷ "CRL" ∷ "EEL" ∷ "EAC" ∷ "EAS" ∷ "EVT" ∷ "EPR" ∷ "IGE" ∷ "OMB" ∷ "SRC" ∷ "RPT" ∷ "RPE"
    ∷ "RPA" ∷ []

unfoldable pub registered : String → Bool
registered kind = str_mem kind registered_kinds

abbrev pub min_prefix_length : ℕ
min_prefix_length = 2

abbrev pub max_prefix_length : ℕ
max_prefix_length = 8

unfoldable pub is_upper : ℕ → Bool
is_upper c = leb b'A' c && leb c b'Z'

unfoldable pub well_formed : String → Bool
well_formed kind =
    not (ltb (len kind) min_prefix_length || ltb max_prefix_length (len kind))
    && all_chars is_upper kind

unfoldable pub prefix : String → Result IdError String
prefix kind =
    if registered kind
    then (if well_formed kind then ok kind else err invalid_prefix)
    else err invalid_prefix

-- strings.Join(parts, "\x00"), for a nonempty list
abbrev pub separator : String
separator = String.◌∷◌ nul String.[]

unfoldable pub join : String → List String → String
join first [] = first
join first (part ∷ parts) = first ++ (separator ++ join part parts)

-- The loop over the parts: each is trimmed, and a blank one is an error.
unfoldable pub trimmed_parts : List String → Result IdError (List String)
trimmed_parts [] = ok []
trimmed_parts (part ∷ parts) =
    let rest = trimmed_parts parts in
    if str_eq (trim_space part) ""
    then err invalid_seed
    else (rest >>= λ ps. ok (trim_space part ∷ ps))

abbrev pub no_parts : List String → Bool
no_parts [] = true
no_parts (part ∷ parts) = false

module _ (uuid : UuidPackage) where
  -- New, with the random UUID that uuid.New draws.
  unfoldable pub new : String → ℕ → Result IdError String
  new kind random = prefix kind >>= λ p. ok (p ++ uuid.to_string random)

  -- Derive behind its test of the kind.
  unfoldable pub seeded : String → String → List String → Result IdError String
  seeded p namespace parts =
      if is_blank namespace || no_parts parts
      then err invalid_seed
      else (trimmed_parts parts >>= λ seeds.
          ok (p ++ uuid.to_string (uuid.new_sha1 (join p (trim_space namespace ∷ seeds)))))

  unfoldable pub derive : String → String → List String → Result IdError String
  derive kind namespace parts = prefix kind >>= λ p. seeded p namespace parts

  unfoldable pub from_uuid : String → ℕ → Result IdError String
  from_uuid kind suffix = prefix kind >>= λ p.
      if suffix == 0 then err invalid_identity else ok (p ++ uuid.to_string suffix)

  unfoldable pub canonical : String → Option ℕ → Result IdError ℕ
  canonical suffix none = err invalid_identity
  canonical suffix (some parsed) =
      if parsed == 0 || not (str_eq (uuid.to_string parsed) suffix)
      then err invalid_identity
      else ok parsed

  unfoldable pub parse_suffix : Option String → Result IdError ℕ
  parse_suffix none = err invalid_identity
  parse_suffix (some suffix) = canonical suffix (uuid.parse suffix)

  unfoldable pub parse : String → String → Result IdError ℕ
  parse value kind = prefix kind >>= λ p. parse_suffix (strip_prefix p value)

  abbrev pub is_ok : Result IdError ℕ → Bool
  is_ok (ok parsed) = true
  is_ok (err e) = false

  unfoldable pub is : String → String → Bool
  is value kind = is_ok (parse value kind)
