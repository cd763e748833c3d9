-- ===== src/Migration/Files/Laws.antt =====
-- What `FileSource.ListMigrations` returns.
use tidewise_ai.Prelude.{◌≡◌, String, some}
use tidewise_ai.Migration.{Migration}
use tidewise_ai.Migration.Files.{version_of_name}

abbrev pub version_in : Migration → String
version_in m = m.version

-- The version of a migration is the one that its file name has.
abbrev pub Named : Migration → Type 0
Named m = version_of_name m.name ≡ some m.version
