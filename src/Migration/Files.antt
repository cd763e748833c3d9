-- ===== src/Migration/Files.antt =====
-- `FileSource.ListMigrations` of source.go. The paths that filepath.Glob found are an argument.
pub mod Laws
use Prim.Native.Char.{code}
use Prim.Native.String.{String, ◌++◌}
use tidewise_ai.Prelude.{
  ℕ, zero, suc, Bool, true, false, ◌&&◌, ◌||◌, Option, none, some, List, [], ◌∷◌, Result, ok, err,
  leb, ◌==◌, str_eq, if◌then◌else◌, ◌≡◌, refl,
}
use tidewise_ai.Prelude.Text.{str_lt}
use tidewise_ai.Prelude.Sorting.{sort_slice}
use tidewise_ai.Migration.{Migration, Failure, bad_name, duplicated, find_files}

-- filepath.Base, for a path that does not end in a slash: what stands behind the last slash.
unfoldable pub base_from : String → String → String
base_from name String.[] = name
base_from name (String.◌∷◌ c s) = elim (code c == b'/') [
  | true ↦ base_from s s
  | false ↦ base_from name s
]

abbrev pub base : String → String
base path = base_from path path

abbrev pub is_digit : ℕ → Bool
is_digit c = leb b'0' c && leb c b'9'

abbrev pub is_name_char : ℕ → Bool
is_name_char c = leb b'a' c && leb c b'z' || is_digit c || c == b'_'

abbrev put_digit : Option (String × String) → Bool → String → Option (String × String)
put_digit (some (digits, rest)) true d = some (d ++ digits, rest)
put_digit _ _ d = none

-- `(\d{n})` at the head of a text, and the rest.
unfoldable pub take_digits : ℕ → String → Option (String × String)
take_digits zero s = some ("", s)
take_digits (suc n) String.[] = none
take_digits (suc n) (String.◌∷◌ c s) =
    let rest = take_digits n s in put_digit rest (is_digit (code c)) (String.◌∷◌ c String.[])

-- `[a-z0-9_]*\.sql$`: the class has no full stop, so the suffix starts at the first other character.
unfoldable pub ends_in_sql : String → Bool
ends_in_sql String.[] = false
ends_in_sql (String.◌∷◌ c s) =
    let rest = ends_in_sql s in
    if is_name_char (code c) then rest else str_eq (String.◌∷◌ c s) ".sql"

abbrev pub named : String → Bool
named String.[] = false
named (String.◌∷◌ c s) = is_name_char (code c) && ends_in_sql s

abbrev pub behind_digits : Option (String × String) → Option String
behind_digits none = none
behind_digits (some (digits, String.[])) = none
behind_digits (some (digits, String.◌∷◌ c s)) =
    if code c == b'_' && named s then some digits else none

-- `^(\d{6})_[a-z0-9_]+\.sql$`
unfoldable pub version_of_name : String → Option String
unfolding take_digits ends_in_sql
version_of_name name = behind_digits (take_digits 6 name)

-- `seenVersions[version]`, in the migrations gathered so far
unfoldable pub seen_version : String → List Migration → Option String
seen_version version [] = none
seen_version version (m ∷ ms) =
    if str_eq m.version version then some m.name else seen_version version ms

abbrev pub admit : List Migration → String → Option String → Result Failure (List Migration)
admit gathered path none = err (bad_name (base path))
admit gathered path (some version) = elim (seen_version version gathered) [
  | some previous ↦ err (duplicated version previous (base path))
  | none ↦ ok (record { version = version; name = base path; path = path } ∷ gathered)
]

-- The loop over the paths; the last one gathered stands first.
unfoldable pub gather : List Migration → List String → Result Failure (List Migration)
unfolding base_from version_of_name seen_version
gather gathered [] = ok gathered
gather gathered (path ∷ paths) = elim (admit gathered path (version_of_name (base path))) [
  | err e ↦ err e
  | ok more ↦ gather more paths
]

abbrev pub version_less : Migration → Migration → Bool
version_less m n = str_lt m.version n.version

abbrev pub sorted : Result Failure (List Migration) → Result Failure (List Migration)
sorted (err e) = err e
sorted (ok gathered) = ok (sort_slice version_less gathered)

unfoldable pub list_migrations : Result Failure (List String) → Result Failure (List Migration)
unfolding gather sort_slice
list_migrations (err e) = err (find_files e)
list_migrations (ok paths) = sorted (gather [] paths)

version_test : version_of_name "000058_data_only.sql" ≡ some "000058"
unfolding version_of_name
version_test = refl
