-- ===== src/Migration/Readiness/Ledger.antt =====
-- The map of the applied versions against the rows that it was made of.
use mathlib.Core.Path.{subst}
use tidewise_ai.Prelude.{
  ℕ, ◌≡◌, refl, sym, String, Bool, true, false, ◌&&◌, not, none, some, List, [], ◌∷◌, Result, ok,
  err, inl, inr, Bool-cases, if◌then◌else◌, All, ◌==◌, str_eq, arith, str_eq_to, str_eq_self,
  str_eq_ne, ◌∙◌,
}
use tidewise_ai.Prelude.Int.{pos, negsuc}
use tidewise_ai.Prelude.Text.{str_mem}
use tidewise_ai.Prelude.Decimal.{format_06}
use tidewise_ai.Migration.{Migration, Failure}
use tidewise_ai.Migration.Readiness.{
  Row, Applied, put_applied, is_applied, record_row, record_rows, pending_of, first_unknown,
}

-- What the last row of a version says, read from the rows without the map of the code.
unfoldable pub latest : String → Bool → List (Result Failure Row) → Bool
latest version before [] = before
latest version before (err e ∷ rows) = latest version before rows
latest version before (ok (negsuc n, b) ∷ rows) = latest version before rows
latest version before (ok (pos n, b) ∷ rows) =
    latest version (if not (n == 0) && str_eq (format_06 n) version then b else before) rows

pub other_key :
    (k v version : String) → str_eq k v ≡ false → str_eq k version ≡ true → str_eq v version ≡ false
other_key k v version e f = elim (Bool-cases (str_eq v version)) [
  | inr g ↦ g
  | inl g ↦ let same : k ≡ v = str_eq_to f ∙ sym (str_eq_to g) in absurd (str_eq_ne e same)
]

pub is_applied-put :
    (version v : String) (b : Bool) (applied : Applied)
    → is_applied version (put_applied v b applied)
      ≡ (if str_eq v version then b else is_applied version applied)
unfolding is_applied put_applied
is_applied-put version v b [] = refl
is_applied-put version v b ((k, a) ∷ applied) = elim (Bool-cases (str_eq k v)) [
  | inl e ↦ rw (← str_eq_to e, str_eq_self k) (ground arith)
  | inr e ↦ elim (Bool-cases (str_eq k version)) [
    | inl f ↦ rw (e, f, other_key k v version e f) refl
    | inr f ↦ rw (e, f) (is_applied-put version v b applied)
  ]
]

pub is_applied-record :
    (version : String) (n : ℕ) (b : Bool) (applied : Applied)
    → is_applied version (record_row (pos n, b) applied)
      ≡ (if not (n == 0) && str_eq (format_06 n) version then b else is_applied version applied)
is_applied-record version n b applied = elim (Bool-cases (n == 0)) [
  | inl e ↦ rw e refl
  | inr e ↦ rw e (is_applied-put version (format_06 n) b applied)
]

pub record_rows-latest :
    (version : String) (rows : List (Result Failure Row)) (before after : Applied)
    → record_rows before rows ≡ ok after
    → is_applied version after ≡ latest version (is_applied version before) rows
unfolding record_rows latest
record_rows-latest version [] before after h = ground arith
record_rows-latest version (err e ∷ rows) before after h = absurd (cc)
record_rows-latest version (ok (negsuc n, b) ∷ rows) before after h = absurd (cc)
record_rows-latest version (ok (pos n, b) ∷ rows) before after h =
    subst (λ x. is_applied version after ≡ latest version x rows)
      (is_applied-record version n b before)
      (record_rows-latest version rows (record_row (pos n, b) before) after h)

pub nothing_pending :
    (applied : Applied) (migrations : List Migration)
    → pending_of applied migrations ≡ []
    → All (λ m. is_applied m.version applied ≡ true) migrations
unfolding pending_of
nothing_pending applied [] h = tt
nothing_pending applied (m ∷ ms) h = elim (Bool-cases (is_applied m.version applied)) [
  | inl e ↦ (e, nothing_pending applied ms (rw e at h))
  | inr e ↦ absurd (let bad : m ∷ pending_of applied ms ≡ [] = rw e at h in cc)
]

-- An entry of the map that is applied belongs to a file.
abbrev pub Known : List String → String × Bool → Type 0
Known known r = (r.1 && not (str_mem r.0 known)) ≡ false

pub none_unknown :
    (known : List String) (applied : Applied)
    → first_unknown known applied ≡ none
    → All (Known known) applied
unfolding first_unknown
none_unknown known [] h = tt
none_unknown known ((v, a) ∷ applied) h = elim (Bool-cases (a && not (str_mem v known))) [
  | inl e ↦ absurd (let bad : some v ≡ none = rw e at h in cc)
  | inr e ↦ (e, none_unknown known applied (rw e at h))
]

pub Known-version :
    (known : List String) (version : String) (applied : Applied)
    → All (Known known) applied
    → is_applied version applied ≡ true
    → str_mem version known ≡ true
unfolding is_applied
Known-version known version [] h k = absurd (cc)
Known-version known version ((v, a) ∷ applied) h k = elim (Bool-cases (str_eq v version)) [
  | inl e ↦ rw (← str_eq_to e) (ground arith)
  | inr e ↦ Known-version known version applied h.1 (rw e at k)
]
