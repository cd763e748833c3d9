-- ===== src/Reports/Publication.antt =====
-- The loop of miniapp/backend/internal/biz/report/biz.go, `reportPublication`: it ends, and it finds a
-- report that is on the pages.
use Prim.Native.String.{len}
use mathlib.Core.Path.{subst}
use tidewise_ai.Prelude.{
  ℕ, zero, suc, ◌+◌, ◌≤◌, ◌<◌, ◌≡◌, refl, ap, ◌∙◌, String, true, false, not, ◌||◌, Option, none,
  some, List, [], ◌∷◌, ◌++◌, Result, ok, err, arith, Bool-cases, Option-cases, inl, inr,
  if◌then◌else◌, length, ltb, str_eq, str_eq_to, str_eq_self,
}
use tidewise_ai.Prelude.Text.{str_mem}
use tidewise_ai.Account.{Time}
use tidewise_ai.Reports.{
  Error, data_unavailable, Summary, Page, ListQuery, Repository, validate_summary_order,
}
use tidewise_ai.Reports.UseCase.{
  report_publication, published_in, Turn, returns, goes_on, turn, turn_of, look, behind, bad_cursor,
}

-- How many of the cursors have not been seen.
unseen : List String → List String → ℕ
unseen seen [] = 0
unseen seen (c ∷ cs) = (if str_mem c seen then 0 else 1) + unseen seen cs

unseen-grows : (c : String) (seen cs : List String) → unseen (c ∷ seen) cs ≤ unseen seen cs
unfolding unseen str_mem
unseen-grows c seen [] = omega arith
unseen-grows c seen (d ∷ cs) = ground (arith, unseen-grows c seen cs)

unseen-drops :
    (c : String) (seen cs : List String)
    → str_mem c cs ≡ true
    → str_mem c seen ≡ false
    → unseen (c ∷ seen) cs < unseen seen cs
unfolding unseen str_mem
unseen-drops c seen [] h k = absurd (cc)
unseen-drops c seen (d ∷ cs) h k = elim (Bool-cases (str_eq d c)) [
  | inl e ↦
      let same : d ≡ c = str_eq_to e in
      rw (same, str_eq_self c, k) (omega (arith, unseen-grows c seen cs))
  | inr e ↦ let more = unseen-drops c seen cs (ground arith) k in ground (arith, more)
]

unseen-none : (cs : List String) → unseen [] cs ≡ length cs
unfolding unseen str_mem
unseen-none [] = refl
unseen-none (c ∷ cs) = omega (arith, unseen-none cs)

-- A turn that goes on has read a page whose cursor is new.
behind-goes_on :
    (seen : List String) (page : Page Summary) (n : Option String) (next : String)
    → behind seen page n ≡ goes_on next
    → (n ≡ some next) × (str_mem next seen ≡ false) × (ltb 2048 (len next) ≡ false)
behind-goes_on seen page none next h = absurd (cc)
behind-goes_on seen page (some c) next h = elim (Bool-cases (bad_cursor seen page c)) [
  | inl e ↦ absurd (let bad : returns (err data_unavailable) ≡ goes_on next = rw e at h in cc)
  | inr e ↦
      let f : goes_on c ≡ goes_on next = rw e at h in
      let same : c ≡ next = cc in
      (
        ap some same,
        subst (λ x. str_mem x seen ≡ false) same (ground arith),
        subst (λ x. ltb 2048 (len x) ≡ false) same (ground arith),
      )
]

look-goes_on :
    (seen : List String) (page : Page Summary) (o : Option Time) (next : String)
    → look seen page o ≡ goes_on next
    → (page.next_cursor ≡ some next) × (str_mem next seen ≡ false) × (ltb 2048 (len next) ≡ false)
look-goes_on seen page none next h = behind-goes_on seen page page.next_cursor next h
look-goes_on seen page (some t) next h = absurd (cc)

turn_of-goes_on :
    (id : String) (seen : List String) (r : Result Error (Page Summary)) (next : String)
    → turn_of id seen r ≡ goes_on next
    → (page : Page Summary) × (r ≡ ok page)
      × (page.next_cursor ≡ some next)
      × (str_mem next seen ≡ false)
      × (ltb 2048 (len next) ≡ false)
turn_of-goes_on id seen (err e) next h = absurd (cc)
turn_of-goes_on id seen (ok page) next h =
    elim (Bool-cases (ltb 100 (length page.items) || not (validate_summary_order page.items))) [
      | inl e ↦ absurd (let bad : returns (err data_unavailable) ≡ goes_on next = rw e at h in cc)
      | inr e ↦
          let (p, q, l) = look-goes_on seen page (published_in id page.items) next (rw e at h) in
          (page, refl, p, q, l)
    ]

module _ {C : Type 0} (repository : Repository C) where
  -- Every cursor of at most 2048 bytes that the repository gives out is one of the list.
  abbrev pub CursorsIn : List String → Type 0
  CursorsIn cs =
      (call : ℕ) (query : ListQuery) (page : Page Summary) (cursor : String)
      → repository.list_reports call query ≡ ok page
      → page.next_cursor ≡ some cursor
      → ltb 2048 (len cursor) ≡ false
      → str_mem cursor cs ≡ true

  turn-new :
      (cs : List String) (id : String) (seen : List String) (call : ℕ) (cursor : String)
      (o : Option Error) (next : String)
      → CursorsIn cs
      → turn repository id seen call cursor o ≡ goes_on next
      → (str_mem next cs ≡ true) × (str_mem next seen ≡ false)
  turn-new cs id seen call cursor (some e) next all h = absurd (cc)
  turn-new cs id seen call cursor none next all h =
      let (page, p, q, r, l) = turn_of-goes_on id seen _ next h in (all call _ page next p q l, r)

  -- The loop returns, with fuel for the cursors that were not seen.
  abbrev Returns : Option (Result Error Time) → Type 0
  Returns o = (r : Result Error Time) × (o ≡ some r)

  after_turn :
      (fuel : ℕ) (id : String) (seen : List String) (call : ℕ) (t : Turn)
      → ((next : String)
          → t ≡ goes_on next
          → Returns (report_publication repository fuel id (next ∷ seen) (suc call) next))
      → Returns (elim t [
        | returns r ↦ some r
        | goes_on next ↦ report_publication repository fuel id (next ∷ seen) (suc call) next
      ])
  after_turn fuel id seen call (returns r) k = (r, refl)
  after_turn fuel id seen call (goes_on next) k = k next refl

  loop-Returns :
      (cs : List String) (fuel : ℕ) (id : String) (seen : List String) (call : ℕ) (cursor : String)
      → CursorsIn cs
      → unseen seen cs < fuel
      → Returns (report_publication repository fuel id seen call cursor)
  unfolding report_publication
  loop-Returns cs zero id seen call cursor all h = absurd (omega arith)
  loop-Returns cs (suc fuel) id seen call cursor all h =
      after_turn fuel id seen call
        (turn repository id seen call cursor (repository.context_error call))
        λ next e.
          let (p, q) = turn-new cs id seen call cursor _ next all e in
          loop-Returns cs fuel id (next ∷ seen) (suc call) next all
            (omega (arith, unseen-drops next seen cs p q, h))

  -- The loop ends, whatever the repository answers: with a list of all cursors of at most 2048 bytes
  -- that it may give out, one page more than there are cursors is enough.
  pub report_publication-Returns :
      (cs : List String) (id : String)
      → CursorsIn cs
      → (r : Result Error Time) × (report_publication repository (suc (length cs)) id [] 0 ""
          ≡ some r)
  report_publication-Returns cs id all =
      loop-Returns cs (suc (length cs)) id [] 0 "" all (omega (arith, unseen-none cs))

  -- The pages of a repository, from a cursor on: each is valid, and leads to a cursor that is new until
  -- the last one has none. The entries are those of all pages.
  pub data Pages : ℕ → String → List String → List Summary → Type 0 where
    last :
        {call : ℕ} {cursor : String} {seen : List String} (page : Page Summary)
        → repository.context_error call ≡ none
        → repository.list_reports call (record { published = none; limit = 100; cursor = cursor })
          ≡ ok page
        → (ltb 100 (length page.items) || not (validate_summary_order page.items)) ≡ false
        → page.next_cursor ≡ none
        → Pages call cursor seen page.items
    leads :
        {call : ℕ} {cursor : String} {seen : List String} (page : Page Summary) (next : String)
        {rest : List Summary}
        → repository.context_error call ≡ none
        → repository.list_reports call (record { published = none; limit = 100; cursor = cursor })
          ≡ ok page
        → (ltb 100 (length page.items) || not (validate_summary_order page.items)) ≡ false
        → page.next_cursor ≡ some next
        → bad_cursor seen page next ≡ false
        → Pages (suc call) next (next ∷ seen) rest
        → Pages call cursor seen (page.items ++ rest)

  abbrev pub count_pages :
      {call : ℕ} {cursor : String} {seen : List String} {items : List Summary}
      → Pages call cursor seen items
      → ℕ
  count_pages (last page a b c d) = 1
  count_pages (leads page next a b c d e rest) = suc (count_pages rest)

  -- The answer for a report, by its entry among all of them.
  abbrev pub answer : Option Time → Result Error Time
  answer none = err data_unavailable
  answer (some t) = ok t

published_in-append :
    (id : String) (xs ys : List Summary)
    → published_in id (xs ++ ys)
      ≡ (elim (published_in id xs) [ none ↦ published_in id ys | some t ↦ some t ])
unfolding published_in
published_in-append id [] ys = refl
published_in-append id (x ∷ xs) ys = elim (Bool-cases (str_eq x.id id)) [
  | inl e ↦ rw e
  | inr e ↦ rw e (published_in-append id xs ys)
]

module _ {C : Type 0} (repository : Repository C) (id : String) where
  -- A turn on a valid page.
  turn-page :
      (call : ℕ) (cursor : String) (seen : List String) (page : Page Summary)
      → repository.context_error call ≡ none
      → repository.list_reports call (record { published = none; limit = 100; cursor = cursor })
        ≡ ok page
      → (ltb 100 (length page.items) || not (validate_summary_order page.items)) ≡ false
      → turn repository id seen call cursor (repository.context_error call)
        ≡ look seen page (published_in id page.items)
  turn-page call cursor seen page a b c = rw (a, b, c)

  stops :
      (fuel call : ℕ) (cursor : String) (seen : List String) {r : Result Error Time}
      → turn repository id seen call cursor (repository.context_error call) ≡ returns r
      → report_publication repository (suc fuel) id seen call cursor ≡ some r
  unfolding report_publication
  stops fuel call cursor seen e =
      ap
        (λ t. elim t [
          | returns r ↦ some r
          | goes_on next ↦ report_publication repository fuel id (next ∷ seen) (suc call) next
        ])
        e

  continues :
      (fuel call : ℕ) (cursor : String) (seen : List String) {next : String}
      → turn repository id seen call cursor (repository.context_error call) ≡ goes_on next
      → report_publication repository (suc fuel) id seen call cursor
        ≡ report_publication repository fuel id (next ∷ seen) (suc call) next
  unfolding report_publication
  continues fuel call cursor seen e =
      ap
        (λ t. elim t [
          | returns r ↦ some r
          | goes_on next ↦ report_publication repository fuel id (next ∷ seen) (suc call) next
        ])
        e

  -- On pages that lead to one another the loop ends, at the latest behind the last one, with the time of
  -- the first entry of the report among all of them, or with an error where it has none.
  pub Pages-answer :
      (call : ℕ) (cursor : String) (seen : List String) (items : List Summary)
      (p : Pages repository call cursor seen items)
      → report_publication repository (count_pages repository p) id seen call cursor
        ≡ some (answer repository (published_in id items))
  Pages-answer call cursor seen items (last page a b c d) =
      let step = turn-page call cursor seen page a b c in
      elim (Option-cases (published_in id page.items)) [
        | inl e ↦ rw e (stops zero call cursor seen (step ∙ rw (e, d)))
        | inr (t, e) ↦ rw e (stops zero call cursor seen (step ∙ rw e))
      ]
  Pages-answer call cursor seen items (leads page next {rest} a b c d e more) =
      let step = turn-page call cursor seen page a b c in
      let both = published_in-append id page.items rest in
      elim (Option-cases (published_in id page.items)) [
        | inl f ↦
            rw (both, f)
              (continues (count_pages repository more) call cursor seen (step ∙ rw (f, d, e))
                ∙ Pages-answer (suc call) next (next ∷ seen) rest more)
        | inr (t, f) ↦
            rw (both, f) (stops (count_pages repository more) call cursor seen (step ∙ rw f))
      ]
