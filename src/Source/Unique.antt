-- ===== src/Source/Unique.antt =====
-- What the constraints of the table say of a catalogue that was built by the use case.
use tidewise_ai.Prelude.{
  ◌≤◌, ◌≡◌, refl, String, true, false, List, [], ◌∷◌, All, Bool-cases, inl, inr, arith,
}
use tidewise_ai.Source.{Source}
use tidewise_ai.Source.Envelope.{is_active_web, active_web}
use tidewise_ai.Source.Database.{Database, collides}
use tidewise_ai.Source.Table.{Apart}

abbrev pub id_of : Source → String
id_of s = s.id

abbrev pub code_of : Source → String
code_of s = s.code

no_web :
    (r : Source) (rows : List Source)
    → is_active_web r ≡ true
    → All (λ s. collides r s ≡ false) rows
    → active_web rows ≡ 0
unfolding collides active_web
no_web r [] web h = refl
no_web r (s ∷ rows) web h = ground (arith, no_web r rows web h.1)

pub active_web-le : (rows : List Source) → Apart rows → active_web rows ≤ 1
unfolding active_web
active_web-le [] h = omega arith
active_web-le (r ∷ rows) h = elim (Bool-cases (is_active_web r)) [
  | inl e ↦ rw e (omega (arith, no_web r rows e h.0))
  | inr e ↦ rw e (omega (arith, active_web-le rows h.1))
]
