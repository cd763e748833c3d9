-- ===== src/Examples/Identities.antt =====
-- Identities of a Source, computed.
use tidewise_ai.Prelude.{String, ◌≡◌, refl, true, List, [], ◌∷◌, Result, ok}
use tidewise_ai.Identity.{derive, prefix, is}
use tidewise_ai.Identity.Laws.{kind_unique, is-derive, prefix-registered}
use tidewise_ai.Examples.Uuid.{uuid, uuid_laws}

abbrev people_id : String
people_id = "SRC610000000000000000000000000000000000"

-- What the calls below run through.
unfoldable pub identity_code : Unit {0}
unfolding tidewise_ai.Identity.registered tidewise_ai.Identity.is_upper
    tidewise_ai.Identity.well_formed tidewise_ai.Identity.prefix tidewise_ai.Identity.join
    tidewise_ai.Identity.trimmed_parts tidewise_ai.Identity.new tidewise_ai.Identity.seeded
    tidewise_ai.Identity.derive tidewise_ai.Identity.from_uuid tidewise_ai.Identity.canonical
    tidewise_ai.Identity.parse_suffix tidewise_ai.Identity.parse tidewise_ai.Identity.is
    tidewise_ai.Prelude.Text.trim_left tidewise_ai.Prelude.Text.trim_right
    tidewise_ai.Prelude.Text.trim_space tidewise_ai.Prelude.Text.has_char
    tidewise_ai.Prelude.Text.all_chars tidewise_ai.Prelude.Text.str_mem
    tidewise_ai.Prelude.Text.strip_prefix tidewise_ai.Examples.Uuid.hex_char
    tidewise_ai.Examples.Uuid.hex_value tidewise_ai.Examples.Uuid.hex_text
    tidewise_ai.Examples.Uuid.hex_number tidewise_ai.Examples.Uuid.parse_hex
identity_code = tt

people_derived : derive uuid "SRC" "source" ("people-rss" ∷ []) ≡ ok people_id
unfolding identity_code
people_derived = refl

people_is : is uuid people_id "SRC" ≡ true
unfolding identity_code
people_is = refl

is-derive_example : is uuid people_id "SRC" ≡ true
is-derive_example = is-derive uuid uuid_laws "SRC" "source" ("people-rss" ∷ []) people_derived

abbrev source_kind : String
source_kind = "SRC"

kind_unique_example : source_kind ≡ source_kind
kind_unique_example =
    kind_unique uuid uuid_laws people_id source_kind source_kind people_is people_is

prefix-registered_example : prefix "SRC" ≡ ok "SRC"
unfolding tidewise_ai.Identity.registered tidewise_ai.Prelude.Text.str_mem
prefix-registered_example = prefix-registered "SRC" refl
