-- ===== src/Examples/Catalogue.antt =====
-- The theorems on the catalogue of Sources at concrete inputs.
use tidewise_ai.Source.Database.{Database, store}
use tidewise_ai.Source.UseCase.{create_dynamic}
use tidewise_ai.Source.Changes.{Reach, here, next, created}
use tidewise_ai.Examples.Sources.{env, people, empty_db}

abbrev after_create : Database
after_create = (create_dynamic env store people empty_db).1

-- Two creations with one code: the second changes nothing.
abbrev twice : Reach env empty_db (create_dynamic env store people after_create).1
twice = next (next here (created people empty_db)) (created people after_create)
