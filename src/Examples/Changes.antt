-- ===== src/Examples/Changes.antt =====
-- Changes of a small catalogue, computed.
use tidewise_ai.Prelude.{
  ℕ, ◌≡◌, refl, none, true, false, Result, ok, arith, List, [], ◌∷◌, ◌^◌, ◌*◌,
}
use tidewise_ai.Prelude.Int.{pos}
use tidewise_ai.Json.{document, obj, end, field, num}
use tidewise_ai.Identity
use tidewise_ai.Source.{Source, MutableSource, ownership_dynamic, channel_rss, adapter_generic_rss}
use tidewise_ai.Source.Database.{Database, store}
use tidewise_ai.Source.UseCase.{create_dynamic, update, delete, clashes}
use tidewise_ai.Source.Read.{active_snapshot}
use tidewise_ai.Source.Capacity.{KeepsDocuments}
use tidewise_ai.Source.Outcome.{create_dynamic-row}
use tidewise_ai.Source.Publish.{publish_fixed}
use tidewise_ai.Source.Published.{Published, publish_fixed-Published}
use tidewise_ai.Source.{ownership_fixed}
use tidewise_ai.Source.Removal.{delete-fixed_of, fixed_of}
use tidewise_ai.Source.Frame.{listed}
use tidewise_ai.Source.Table.{IsTable}
use tidewise_ai.Source.Database.{rows_without, row_with_id}
use tidewise_ai.Examples.Uuid.{uuid_laws}
use tidewise_ai.Examples.Sources.{env, people, empty_db}

abbrev people_row : Source
people_row = record {
  id = "SRC610000000000000000000000000000000000";
  code = "people-rss";
  name = "People";
  ownership_type = "dynamic";
  channel_type = "rss";
  adapter_key = "generic_rss";
  enabled = true;
  endpoint = "https://example.test/people.xml";
  app_key = none;
  config =
      document "{'max_bytes':5000000}" "{'max_bytes':5000000}"
        (obj (field "max_bytes" (num "5000000") end));
  priority = pos 2;
  timeout_seconds = pos 30;
  max_results = pos 10;
  default_source_level = "L1_OFFICIAL";
  created_at = 63_900_000_000 * 10 ^ 9;
  updated_at = 63_900_000_000 * 10 ^ 9;
}

-- What the calls below run through.
unfoldable catalogue_code : Unit {0}
unfolding tidewise_ai.Identity.registered tidewise_ai.Identity.is_upper
    tidewise_ai.Identity.well_formed tidewise_ai.Identity.prefix tidewise_ai.Identity.join
    tidewise_ai.Identity.trimmed_parts tidewise_ai.Identity.new tidewise_ai.Identity.seeded
    tidewise_ai.Identity.derive tidewise_ai.Identity.from_uuid tidewise_ai.Identity.canonical
    tidewise_ai.Identity.parse_suffix tidewise_ai.Identity.parse tidewise_ai.Identity.is
    tidewise_ai.Json.put_field tidewise_ai.Json.merge tidewise_ai.Json.entries
    tidewise_ai.Json.find_field tidewise_ai.Source.Prepare.source_from_mutable
    tidewise_ai.Source.Prepare.dynamic_candidate tidewise_ai.Source.Prepare.derived_id
    tidewise_ai.Source.Prepare.as_fixed tidewise_ai.Source.Prepare.is_dynamic_rss
    tidewise_ai.Source.Prepare.as_dynamic tidewise_ai.Source.Prepare.as_given
    tidewise_ai.Source.Prepare.prepare_dynamic tidewise_ai.Source.Prepare.prepare_source
    tidewise_ai.Source.Prepare.prepare_all tidewise_ai.Source.UseCase.find_id
    tidewise_ai.Source.UseCase.by_code tidewise_ai.Source.UseCase.replace_id
    tidewise_ai.Source.UseCase.clashes tidewise_ai.Source.UseCase.update_candidate
    tidewise_ai.Source.UseCase.create_in_tx tidewise_ai.Source.UseCase.create_dynamic
    tidewise_ai.Source.UseCase.update_in_tx tidewise_ai.Source.UseCase.update
    tidewise_ai.Source.UseCase.delete_in_tx tidewise_ai.Source.UseCase.delete
    tidewise_ai.Source.Config.compact_config tidewise_ai.Source.Config.valid_source_level
    tidewise_ai.Source.Config.valid_max_bytes tidewise_ai.Source.Config.decodes_to_levels
    tidewise_ai.Source.Config.valid_levels tidewise_ai.Source.Config.validate_levels
    tidewise_ai.Source.Config.validate_max_bytes tidewise_ai.Source.Config.validate_object
    tidewise_ai.Source.Config.validate_config tidewise_ai.Source.Read.list_less
    tidewise_ai.Source.Read.snapshot_less tidewise_ai.Source.Read.list
    tidewise_ai.Source.Read.active_snapshot tidewise_ai.Source.Tx.in_transaction
    tidewise_ai.Source.Validation.is_code_start tidewise_ai.Source.Validation.is_code_char
    tidewise_ai.Source.Validation.matches_code_pattern tidewise_ai.Source.Validation.valid_adapter
    tidewise_ai.Source.Validation.bad_url tidewise_ai.Source.Validation.bad_app_key
    tidewise_ai.Source.Validation.validate_labels tidewise_ai.Source.Validation.validate_access
    tidewise_ai.Source.Validation.validate_limits tidewise_ai.Source.Validation.validate_timestamps
    tidewise_ai.Source.Validation.validate_source tidewise_ai.Source.Database.inserted_row
    tidewise_ai.Source.Database.updated_row tidewise_ai.Source.Database.collides
    tidewise_ai.Source.Database.collides_any tidewise_ai.Source.Database.row_error
    tidewise_ai.Source.Database.row_with_id tidewise_ai.Source.Database.rows_without
    tidewise_ai.Source.Database.insert tidewise_ai.Source.Database.update
    tidewise_ai.Source.Database.delete tidewise_ai.Source.Database.select
    tidewise_ai.Source.Envelope.escaped_size tidewise_ai.Source.Envelope.text_bytes
    tidewise_ai.Source.Envelope.string_size tidewise_ai.Source.Envelope.html_size
    tidewise_ai.Source.Envelope.compact_size tidewise_ai.Source.Envelope.decimal_size
    tidewise_ai.Source.Envelope.int_size tidewise_ai.Source.Envelope.fraction_digits
    tidewise_ai.Source.Envelope.timestamp_size tidewise_ai.Source.Envelope.measured_time
    tidewise_ai.Source.Envelope.app_key_size tidewise_ai.Source.Envelope.config_size
    tidewise_ai.Source.Envelope.source_text_size tidewise_ai.Source.Envelope.source_size
    tidewise_ai.Source.Envelope.can_marshal tidewise_ai.Source.Envelope.all_marshal
    tidewise_ai.Source.Envelope.snapshot_envelope_size tidewise_ai.Source.Envelope.active_of
    tidewise_ai.Source.Envelope.is_active_web tidewise_ai.Source.Envelope.active_web
    tidewise_ai.Source.Envelope.validate_each tidewise_ai.Source.Envelope.validate_projected_set
    tidewise_ai.Prelude.Decimal.decimal tidewise_ai.Prelude.Decimal.digit
    tidewise_ai.Prelude.Decimal.decimal_text tidewise_ai.Prelude.Decimal.parse_int
    tidewise_ai.Prelude.Decimal.format_int tidewise_ai.Prelude.Decimal.format_06
    tidewise_ai.Prelude.Text.trim_left tidewise_ai.Prelude.Text.trim_right
    tidewise_ai.Prelude.Text.trim_space tidewise_ai.Prelude.Text.has_char
    tidewise_ai.Prelude.Text.all_chars tidewise_ai.Prelude.Text.str_mem
    tidewise_ai.Prelude.Text.strip_prefix tidewise_ai.Prelude.Sorting.insert_sorted
    tidewise_ai.Prelude.Sorting.sort_slice tidewise_ai.Examples.Uuid.hex_char
    tidewise_ai.Examples.Uuid.hex_value tidewise_ai.Examples.Uuid.hex_text
    tidewise_ai.Examples.Uuid.hex_number tidewise_ai.Examples.Uuid.parse_hex
catalogue_code = tt

created_people : (create_dynamic env store people empty_db).0 ≡ ok people_row
unfolding catalogue_code
created_people = refl

abbrev documents : KeepsDocuments empty_db.jsonb
documents = record { small = λ m. omega arith; well_formed = λ m h. h }

create_dynamic-row_example :
    let db = (create_dynamic env store people empty_db).1 in
    (db.rows ≡ people_row ∷ [])
    × (clashes people_row (listed empty_db) ≡ false)
    × ("people-rss" ≡ people.code)
    × (people_row.ownership_type ≡ ownership_dynamic)
    × (people_row.channel_type ≡ channel_rss)
    × (people_row.adapter_key ≡ adapter_generic_rss)
    × (Identity.derive env.uuid "SRC" "source" ("people-rss" ∷ []) ≡ ok people_row.id)
    × (Identity.is env.uuid people_row.id "SRC" ≡ true)
create_dynamic-row_example = create_dynamic-row env uuid_laws people empty_db created_people

abbrev one_row : Database
one_row = record empty_db { rows = people_row ∷ [] }

abbrev folk : MutableSource
folk = record people { name = "Folk"; adapter_key = "generic_rss" }

abbrev folk_row : Source
folk_row = record people_row { name = "Folk" }

deleted_people : (delete env store people_row.id one_row).0 ≡ ok tt
unfolding catalogue_code
deleted_people = refl

one_row-IsTable : IsTable one_row
one_row-IsTable = record { apart = (tt, tt); ordered = (omega arith, tt) }

delete-fixed_of_example :
    ((delete env store people_row.id one_row).1.rows ≡ rows_without people_row.id one_row.rows)
    × (fixed_of (delete env store people_row.id one_row).1.rows ≡ fixed_of one_row.rows)
delete-fixed_of_example = delete-fixed_of env people_row.id one_row one_row-IsTable deleted_people

abbrev planned : Source
planned = record people_row { created_at = 0; updated_at = 0 }

abbrev fixed_row : Source
fixed_row = record people_row { ownership_type = ownership_fixed }

published_people : (publish_fixed env store (planned ∷ []) empty_db).0 ≡ ok (fixed_row ∷ [])
unfolding catalogue_code tidewise_ai.Source.Publish.publish_fixed
    tidewise_ai.Source.Publish.publish_fixed_in_tx tidewise_ai.Source.Publish.publish_fixed_loop
    tidewise_ai.Source.Publish.missing_of tidewise_ai.Source.Publish.same_fixed
published_people = refl

publish_fixed-Published_example :
    Published
      (planned ∷ [])
      empty_db
      (fixed_row ∷ [], (publish_fixed env store (planned ∷ []) empty_db).1)
publish_fixed-Published_example =
    publish_fixed-Published env (planned ∷ []) empty_db published_people
