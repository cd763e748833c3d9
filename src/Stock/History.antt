-- ===== src/Stock/History.antt =====
-- What the accepted replacements of a stock keep, one after another.
use tidewise_ai.Prelude.{
  suc, ◌≤◌, ◌≡◌, refl, ◌∙◌, String, false, not, ok, ◌⊎◌, inl, inr, arith, ◌==◌, str_eq, str_eq_to,
  Bool-cases,
}
use tidewise_ai.Stock.{Stock, validate_replacement}

-- The stocks that stood in the catalogue one after another, each accepted in place of the last.
pub data History (first : Stock) : Stock → Type 0 where
  stored : History first first
  replaced :
      (previous next : Stock)
      → History first previous
      → validate_replacement previous next ≡ ok tt
      → History first next

abbrev pub Succeeds : Stock → Stock → Type 0
Succeeds a b =
    (a.id ≡ b.id)
    × ((suc a.as_of ≤ b.as_of) ⊎ ((a.as_of ≡ b.as_of) × (a.name ≡ b.name) × (a.board ≡ b.board)))

not_same : (s t : String) → not (str_eq s t) ≡ false → s ≡ t
not_same s t h = str_eq_to (ground arith)

validate_replacement-Succeeds :
    (previous next : Stock) → validate_replacement previous next ≡ ok tt → Succeeds previous next
unfolding validate_replacement
validate_replacement-Succeeds previous next h = elim (Bool-cases (previous.as_of == next.as_of)) [
  | inl e ↦ (
    not_same previous.id next.id (ground arith),
    inr (
      ground arith,
      not_same previous.name next.name (ground arith),
      not_same previous.board next.board (ground arith),
    ),
  )
  | inr e ↦ (not_same previous.id next.id (ground arith), inl (ground arith))
]

Succeeds-trans : (a b c : Stock) → Succeeds a b → Succeeds b c → Succeeds a c
Succeeds-trans a b c (i, inl h) (j, inl k) = (i ∙ j, inl (omega arith))
Succeeds-trans a b c (i, inl h) (j, inr k) = (i ∙ j, inl (omega (arith, k.0)))
Succeeds-trans a b c (i, inr h) (j, inl k) = (i ∙ j, inl (omega (arith, h.0)))
Succeeds-trans a b c (i, inr h) (j, inr k) = (i ∙ j, inr (h.0 ∙ k.0, h.1 ∙ k.1, h.2 ∙ k.2))

-- Over any sequence of accepted replacements a stock keeps its id, and its date goes on or it is of the
-- same date with the same name and board.
pub History-Succeeds : (first last : Stock) → History first last → Succeeds first last
History-Succeeds first last stored = (refl, inr (refl, refl, refl))
History-Succeeds first last (replaced previous next before accepted) =
    Succeeds-trans first previous next (History-Succeeds first previous before)
      (validate_replacement-Succeeds previous next accepted)
