-- ===== src/Stock/Search/Laws.antt =====
-- What a search asks of the repository.
use tidewise_ai.Prelude.{
  ◌≡◌, refl, String, Bool, true, false, List, [], ◌∷◌, str_eq, arith, Bool-cases, inl, inr,
  str_eq_to, str_eq_self,
}
use tidewise_ai.Prelude.Int.{pos, ◌≤ℤ◌}
use tidewise_ai.Prelude.Text.{str_mem, Distinct}
use tidewise_ai.Identity
use tidewise_ai.Stock.Search.{Query, valid_ids}

-- What was seen does not come again.
valid_ids-unseen :
    (test : String → Bool) (k : String) (seen ids : List String)
    → valid_ids test seen ids ≡ true
    → str_mem k seen ≡ true
    → str_mem k ids ≡ false
unfolding valid_ids str_mem
valid_ids-unseen test k seen [] h m = refl
valid_ids-unseen test k seen (id ∷ ids) h m = elim (Bool-cases (str_eq id k)) [
  | inl e ↦ let n : str_mem id seen ≡ true = rw (str_eq_to e) m in absurd (ground arith)
  | inr e ↦ rw e (valid_ids-unseen test k (id ∷ seen) ids (ground arith) (ground arith))
]

pub valid_ids-Distinct :
    (test : String → Bool) (seen ids : List String) → valid_ids test seen ids ≡ true → Distinct ids
unfolding valid_ids str_mem
valid_ids-Distinct test seen [] h = tt
valid_ids-Distinct test seen (id ∷ ids) h =
    let rest : valid_ids test (id ∷ seen) ids ≡ true = ground arith in
    (
      valid_ids-unseen test id (id ∷ seen) ids rest (rw (str_eq_self id) refl),
      valid_ids-Distinct test (id ∷ seen) ids rest,
    )

-- The bounds of a page.
abbrev pub Bounded : Query → Type 0
Bounded q =
    (pos 1 ≤ℤ q.limit) × (q.limit ≤ℤ pos 100) × (pos 0 ≤ℤ q.offset) × (q.offset ≤ℤ pos 10_000)
