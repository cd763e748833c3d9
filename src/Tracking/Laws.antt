-- ===== src/Tracking/Laws.antt =====
-- What `List` and `Change` of miniapp/backend/internal/biz/tracking/biz.go do.
use mathlib.Core.Path.{subst}
use Prim.Native.String.{len}
use tidewise_ai.Prelude.{
  ℕ, ◌≡◌, refl, sym, ap, ◌∙◌, String, Bool, true, false, ◌||◌, none, some, List, [], ◌∷◌, ok, err,
  ◌>>=◌, reject_if, bind-ok, Bool-cases, Option-cases, inl, inr, All, str_eq, str_eq_to, ltb,
}
use tidewise_ai.Prelude.Int.{ℤ, pos, ltb_ℤ}
use tidewise_ai.Tracking.{
  invalid, unauthenticated, unavailable, Stock, Company, Relations, Page, Repository, valid_id,
  company, by_id, followed_items, page_of, listed, list,
}

by_id-id : (id : String) (stocks : List Stock) {s : Stock} → by_id id stocks ≡ some s → s.id ≡ id
unfolding by_id
by_id-id id [] h = absurd (cc)
by_id-id id (t ∷ stocks) {s} h = elim (Option-cases (by_id id stocks)) [
  | inr (u, e) ↦ let f : some u ≡ some s = rw e at h in by_id-id id stocks (e ∙ f)
  | inl e ↦ elim (Bool-cases (str_eq t.id id)) [
    | inl m ↦
        let f : some t ≡ some s = rw (e, m) at h in
        let g : t ≡ s = cc in ap (λ x. x.id) (sym g) ∙ str_eq_to m
    | inr m ↦ absurd (let bad : none ≡ some s = rw (e, m) at h in cc)
  ]
]

abbrev pub ids_in : List Company → List String
ids_in [] = []
ids_in (c ∷ cs) = c.id ∷ ids_in cs

-- The items of a list: one for each identity, in its order, and followed.
abbrev pub Follows : List String → List Company → Type 0
Follows ids items = (ids_in items ≡ ids) × All (λ c. c.is_followed ≡ true) items

followed_items-Follows :
    (stocks : List Stock) (ids : List String) {items : List Company}
    → followed_items stocks ids ≡ ok items
    → Follows ids items
unfolding followed_items company
followed_items-Follows stocks [] {items} h =
    let e : [] ≡ items = cc in subst (Follows []) e (refl, tt)
followed_items-Follows stocks (id ∷ ids) {items} h = elim (Option-cases (by_id id stocks)) [
  | inl e ↦ absurd (let bad : err unavailable ≡ ok items = rw e at h in cc)
  | inr (s, e) ↦
      let k : (followed_items stocks ids >>= λ rest. ok (company s true ∷ rest)) ≡ ok items =
        rw e at h in
      let (rest, p, q) = bind-ok (followed_items stocks ids) _ k in
      let (a, b) = followed_items-Follows stocks ids p in
      let f : company s true ∷ rest ≡ items = cc in
      let head : (company s true).id ≡ id = by_id-id id stocks e in
      subst (Follows (id ∷ ids)) f (rw head (ap (λ x. id ∷ x) a), (refl, b))
]

module _ {S : Type 0} (repo : Repository S) where
  abbrev pub Lists : Relations → Page → Type 0
  Lists r page =
      Follows r.ids page.items × (page.total ≡ r.total) × (page.next_cursor ≡ r.next_cursor)

  listed-Lists :
      (ids : List String) (total : ℕ) (next : String) (s : S) {page : Page}
      → listed repo (record { ids = ids; total = total; next_cursor = next }) s ≡ ok page
      → Lists (record { ids = ids; total = total; next_cursor = next }) page
  listed-Lists [] total next s {page} h =
      let e : page_of (record { ids = []; total = total; next_cursor = next }) [] ≡ page = cc in
      subst (Lists (record { ids = []; total = total; next_cursor = next })) e
        ((refl, tt), refl, refl)
  listed-Lists (id ∷ ids) total next s {page} h =
      let (stocks, p, k) = bind-ok (repo.stocks (id ∷ ids) s) _ h in
      let (items, q, l) = bind-ok (followed_items stocks (id ∷ ids)) _ k in
      let e : page_of (record { ids = id ∷ ids; total = total; next_cursor = next }) items ≡ page =
        cc in
      subst (Lists (record { ids = id ∷ ids; total = total; next_cursor = next })) e
        (followed_items-Follows stocks (id ∷ ids) q, refl, refl)

  -- A list that succeeds shows the identities of the user service in their order, each as a followed
  -- company of that identity, with the total and the cursor of the user service.
  pub list-Lists :
      (token cursor : String) (limit : ℤ) (s : S) (page : Page)
      → list repo token cursor limit s ≡ ok page
      → (r : Relations) × (repo.list token cursor limit s ≡ ok r) × Lists r page
  unfolding list
  list-Lists token cursor limit s page h =
      let (_, _, k) = bind-ok (reject_if (str_eq token "") unauthenticated) _ h in
      let (_, _, l) =
        bind-ok
          (reject_if (ltb_ℤ limit (pos 1) || ltb_ℤ (pos 100) limit || ltb 512 (len cursor)) invalid)
          (λ _. repo.list token cursor limit s >>= λ r. listed repo r s) k in
      let (r, p, m) = bind-ok (repo.list token cursor limit s) (λ r. listed repo r s) l in
      (r, p, listed-Lists r.ids r.total r.next_cursor s m)

  -- The stock that is added is the only answer for its identity, and the session was checked before.
  abbrev pub IsAllowed : String → String → Bool → S → Type 0
  IsAllowed token id add s =
      (str_eq token "" ≡ false)
      × (valid_id id ≡ true)
      × (add ≡ true
          → (found : List String) × (t : Stock) × (repo.check token [] s ≡ ok found)
            × (repo.stocks (id ∷ []) s ≡ ok (t ∷ []))
            × (t.id ≡ id))
