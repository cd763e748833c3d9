-- ===== src/Reports/Order.antt =====
-- The pages that miniapp/backend/internal/biz/report/biz.go, `validateSummaryOrder`, accepts.
use tidewise_ai.Prelude.{
  ℕ, ◌≤◌, ◌≡◌, refl, String, Bool, true, false, ◌||◌, ◌&&◌, Option, none, some, List, [], ◌∷◌,
  arith, Bool-cases, inl, inr, if◌then◌else◌, str_eq, ltb, ◌==◌, All, str_eq_to, str_eq_self, sym,
  ◌∙◌,
}
use tidewise_ai.Prelude.Text.{str_mem, str_lt, Distinct}
use tidewise_ai.Reports.{Summary, validate_summary_order, ordered_from, bad_summary, out_of_order}

abbrev pub ids_of : List Summary → List String
ids_of [] = []
ids_of (s ∷ items) = s.id ∷ ids_of items

-- Each entry is not later than the one before, and at the same time its identity is not smaller.
abbrev pub NewestFirst : Option Summary → List Summary → Type 0
NewestFirst p [] = Unit
NewestFirst none (s ∷ items) = NewestFirst (some s) items
NewestFirst (some p) (s ∷ items) =
    (s.published_at ≤ p.published_at)
    × (s.published_at ≡ p.published_at → str_lt s.id p.id ≡ false)
    × NewestFirst (some s) items

head_good :
    (bad dup out rest : Bool)
    → (if bad || dup || out then false else rest) ≡ true
    → (bad ≡ false) × (dup ≡ false) × (out ≡ false) × (rest ≡ true)
head_good bad dup out rest h = ground arith

weaken :
    (a : String) (xs ks : List String)
    → All (λ k. str_mem k (a ∷ xs) ≡ false) ks
    → All (λ k. str_mem k xs ≡ false) ks
unfolding str_mem
weaken a xs [] h = tt
weaken a xs (k ∷ ks) h =
    let p : (str_eq a k || str_mem k xs) ≡ false = h.0 in (ground (arith, p), weaken a xs ks h.1)

unseen_ids :
    (seen : List String) (p : Option Summary) (items : List Summary)
    → ordered_from seen p items ≡ true
    → All (λ k. str_mem k seen ≡ false) (ids_of items)
unfolding ordered_from
unseen_ids seen p [] h = tt
unseen_ids seen p (s ∷ items) h =
    let (_, dup, _, rest) =
      head_good (bad_summary s) (str_mem s.id seen) (out_of_order p s)
        (ordered_from (s.id ∷ seen) (some s) items) h in
    (dup, weaken s.id seen (ids_of items) (unseen_ids (s.id ∷ seen) (some s) items rest))

str_eq_swap : (a b : String) → str_eq a b ≡ false → str_eq b a ≡ false
str_eq_swap a b h = elim (Bool-cases (str_eq b a)) [
  | inl e ↦
      let same : b ≡ a = str_eq_to e in
      let bad : true ≡ false = sym (str_eq_self b) ∙ (rw (← same) at h) in cc
  | inr e ↦ e
]

not_among :
    (a : String) (xs ks : List String)
    → All (λ k. str_mem k (a ∷ xs) ≡ false) ks
    → str_mem a ks ≡ false
unfolding str_mem
not_among a xs [] h = refl
not_among a xs (k ∷ ks) h =
    let p : (str_eq a k || str_mem k xs) ≡ false = h.0 in
    rw (str_eq_swap a k (ground (arith, p)), not_among a xs ks h.1)

Distinct-ids :
    (seen : List String) (p : Option Summary) (items : List Summary)
    → ordered_from seen p items ≡ true
    → Distinct (ids_of items)
unfolding ordered_from
Distinct-ids seen p [] h = tt
Distinct-ids seen p (s ∷ items) h =
    let (_, _, _, rest) =
      head_good (bad_summary s) (str_mem s.id seen) (out_of_order p s)
        (ordered_from (s.id ∷ seen) (some s) items) h in
    (
      not_among s.id seen (ids_of items) (unseen_ids (s.id ∷ seen) (some s) items rest),
      Distinct-ids (s.id ∷ seen) (some s) items rest,
    )

not_later : (a b : ℕ) (x : Bool) → (ltb b a || a == b && x) ≡ false → (a ≤ b) × (a ≡ b → x ≡ false)
not_later a b x h = (ground arith, λ e. ground arith)

newest_first :
    (seen : List String) (p : Option Summary) (items : List Summary)
    → ordered_from seen p items ≡ true
    → NewestFirst p items
unfolding ordered_from
newest_first seen p [] h = tt
newest_first seen none (s ∷ items) h =
    let (_, _, _, rest) =
      head_good (bad_summary s) (str_mem s.id seen) false
        (ordered_from (s.id ∷ seen) (some s) items) h in
    newest_first (s.id ∷ seen) (some s) items rest
newest_first seen (some p) (s ∷ items) h =
    let (_, _, out, rest) =
      head_good (bad_summary s) (str_mem s.id seen) (out_of_order (some p) s)
        (ordered_from (s.id ∷ seen) (some s) items) h in
    let (a, b) = not_later s.published_at p.published_at _ out in
    (a, b, newest_first (s.id ∷ seen) (some s) items rest)

-- A page that is accepted has no report twice, and is in the order of publication, the newest first and
-- reports of one time by their identities.
pub validate_summary_order-NewestFirst :
    (items : List Summary)
    → validate_summary_order items ≡ true
    → Distinct (ids_of items) × NewestFirst none items
validate_summary_order-NewestFirst items h =
    (Distinct-ids [] none items h, newest_first [] none items h)
