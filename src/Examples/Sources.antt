-- ===== src/Examples/Sources.antt =====
-- Sources, databases and calls for the examples of the catalogue.
use tidewise_ai.Prelude.{String, true, Option, none, some, [], ◌^◌, ◌*◌}
use tidewise_ai.Prelude.Int.{pos}
use tidewise_ai.Prelude.Text.{strip_prefix}
use tidewise_ai.Json.{document, obj, end, field, num}
use tidewise_ai.Source.{MutableSource}
use tidewise_ai.Source.Validation.{Environment, Url}
use tidewise_ai.Source.Database.{Database}
use tidewise_ai.Examples.Uuid.{uuid}

abbrev pub https_url : Option String → Option Url
https_url none = none
https_url (some host) = some (record { scheme = "https"; host = host })

abbrev pub env : Environment
env = record { uuid = uuid; parse_url = λ s. https_url (strip_prefix "https://" s) }

abbrev pub people : MutableSource
people = record {
  code = "people-rss";
  name = "People";
  adapter_key = "";
  enabled = true;
  endpoint = "https://example.test/people.xml";
  app_key = none;
  config =
      document "{'max_bytes': 5000000}" "{'max_bytes':5000000}"
        (obj (field "max_bytes" (num "5000000") end));
  priority = pos 2;
  timeout_seconds = pos 30;
  max_results = pos 10;
  default_source_level = "L1_OFFICIAL";
}

-- An empty table at some moment, no statement of which fails.
abbrev pub empty_db : Database
empty_db = record { rows = []; now = 63_900_000_000 * 10 ^ 9; jsonb = λ m. m; fails = λ st. none }
