-- ===== src/Tracking/Hierarchy.antt =====
-- `FilterOptions` of miniapp/backend/internal/biz/tracking/biz.go: no industry is lost, and each stands
-- under its parent.
use mathlib.Core.Path.{subst}
use tidewise_ai.Prelude.{
  ℕ, ◌+◌, ◌≡◌, refl, sym, ap, ◌∙◌, String, Option, none, some, List, [], ◌∷◌, ok, err, bind-ok,
  Bool-cases, Option-cases, inl, inr, All, All-append, sum_by, sum_by-append, str_eq, str_eq_to,
  arith,
}
use tidewise_ai.Tracking.{
  unavailable, Entry, Catalog, IndustryOption, FilterOptions, Repository, roots_of, with_child,
  add_child, place, place_all, options_of, filter_options,
}

-- The industries of a hierarchy, measured: the roots, and the children under them.
abbrev root_entry : IndustryOption → Entry
root_entry r = record { id = r.id; name = r.name; parent_id = none }

abbrev pub measure : (Entry → ℕ) → List IndustryOption → ℕ
measure f [] = 0
measure f (r ∷ rs) =
    f (record { id = r.id; name = r.name; parent_id = none }) + sum_by f r.children + measure f rs

abbrev pub IsUnder : IndustryOption → Type 0
IsUnder r = All (λ x. x.parent_id ≡ some r.id) r.children

-- The children alone of a catalogue.
abbrev if_child : ℕ → Option String → ℕ
if_child n none = 0
if_child n (some p) = n

abbrev children_by : (Entry → ℕ) → List Entry → ℕ
children_by f [] = 0
children_by f (x ∷ xs) = if_child (f x) x.parent_id + children_by f xs

add_child-measure :
    (f : Entry → ℕ) (p : String) (x : Entry) (rs : List IndustryOption) {out : List IndustryOption}
    → add_child p x rs ≡ some out
    → measure f out ≡ measure f rs + f x
unfolding add_child
add_child-measure f p x [] h = absurd (cc)
add_child-measure f p x (r ∷ rs) {out} h = elim (Option-cases (add_child p x rs)) [
  | inr (more, e) ↦
      let k : some (r ∷ more) ≡ some out = rw e at h in
      let g : r ∷ more ≡ out = cc in rw (← g) (omega (arith, add_child-measure f p x rs e))
  | inl e ↦ elim (Bool-cases (str_eq r.id p)) [
    | inl m ↦
        let k : some (with_child x r ∷ rs) ≡ some out = rw (e, m) at h in
        let g : with_child x r ∷ rs ≡ out = cc in
        rw (← g) (omega (arith, sum_by-append f r.children (x ∷ [])))
    | inr m ↦ absurd (let bad : none ≡ some out = rw (e, m) at h in cc)
  ]
]

add_child-IsUnder :
    (p : String) (x : Entry) (rs : List IndustryOption) {out : List IndustryOption}
    → add_child p x rs ≡ some out
    → x.parent_id ≡ some p
    → All IsUnder rs
    → All IsUnder out
unfolding add_child
add_child-IsUnder p x [] h i u = absurd (cc)
add_child-IsUnder p x (r ∷ rs) {out} h i u = elim (Option-cases (add_child p x rs)) [
  | inr (more, e) ↦
      let k : some (r ∷ more) ≡ some out = rw e at h in
      let g : r ∷ more ≡ out = cc in subst (All IsUnder) g (u.0, add_child-IsUnder p x rs e i u.1)
  | inl e ↦ elim (Bool-cases (str_eq r.id p)) [
    | inl m ↦
        let k : some (with_child x r ∷ rs) ≡ some out = rw (e, m) at h in
        let g : with_child x r ∷ rs ≡ out = cc in
        let child : x.parent_id ≡ some r.id = i ∙ ap some (sym (str_eq_to m)) in
        subst (All IsUnder) g
          (All-append (λ y. y.parent_id ≡ some r.id) r.children (x ∷ []) u.0 (child, tt), u.1)
    | inr m ↦ absurd (let bad : none ≡ some out = rw (e, m) at h in cc)
  ]
]

-- What a step of the second loop leaves.
abbrev Placed : (Entry → ℕ) → ℕ → List IndustryOption → List IndustryOption → Type 0
Placed f n rs out = (measure f out ≡ measure f rs + n) × (All IsUnder rs → All IsUnder out)

place-Placed :
    (f : Entry → ℕ) (x : Entry) (rs : List IndustryOption) (o : Option String)
    {out : List IndustryOption}
    → x.parent_id ≡ o
    → place x rs o ≡ ok out
    → Placed f (if_child (f x) o) rs out
place-Placed f x rs none {out} e h =
    let g : rs ≡ out = cc in subst (Placed f 0 rs) g (omega arith, λ u. u)
place-Placed f x rs (some p) {out} e h = elim (Option-cases (add_child p x rs)) [
  | inl k ↦ absurd (let bad : err unavailable ≡ ok out = rw (place, k) at h in cc)
  | inr (more, k) ↦
      let l : ok more ≡ ok out = rw (place, k) at h in
      let g : more ≡ out = cc in
      subst (Placed f (f x) rs) g (add_child-measure f p x rs k, add_child-IsUnder p x rs k e)
]

place_all-Placed :
    (f : Entry → ℕ) (xs : List Entry) (rs : List IndustryOption) {out : List IndustryOption}
    → place_all xs rs ≡ ok out
    → Placed f (children_by f xs) rs out
unfolding place_all
place_all-Placed f [] rs {out} h =
    let g : rs ≡ out = cc in subst (Placed f 0 rs) g (omega arith, λ u. u)
place_all-Placed f (x ∷ xs) rs {out} h =
    let (mid, p, k) = bind-ok (place x rs x.parent_id) (place_all xs) h in
    let (a, b) = place-Placed f x rs x.parent_id refl p in
    let (c, d) = place_all-Placed f xs mid k in (omega (arith, a, c), λ u. d (b u))

by_parent :
    (f : Entry → ℕ) (id name : String) (o : Option String) (roots : List IndustryOption) (n m : ℕ)
    → measure f roots + n ≡ m
    → measure f (elim o [
      | none ↦ record { id = id; name = name; children = [] } ∷ roots
      | some p ↦ roots
    ])
        + (if_child (f (record { id = id; name = name; parent_id = o })) o + n)
      ≡ f (record { id = id; name = name; parent_id = o }) + m
by_parent f id name none roots n m h = omega (arith, h)
by_parent f id name (some p) roots n m h = omega (arith, h)

roots_measure :
    (f : Entry → ℕ) (xs : List Entry) → measure f (roots_of xs) + children_by f xs ≡ sum_by f xs
roots_measure f [] = omega arith
roots_measure f (x ∷ xs) =
    by_parent f x.id x.name x.parent_id (roots_of xs) (children_by f xs) (sum_by f xs)
      (roots_measure f xs)

by_root :
    (id name : String) (o : Option String) (roots : List IndustryOption)
    → All IsUnder roots
    → All IsUnder
        (elim o [ none ↦ record { id = id; name = name; children = [] } ∷ roots | some p ↦ roots ])
by_root id name none roots h = (tt, h)
by_root id name (some p) roots h = h

roots-IsUnder : (xs : List Entry) → All IsUnder (roots_of xs)
roots-IsUnder [] = tt
roots-IsUnder (x ∷ xs) = by_root x.id x.name x.parent_id (roots_of xs) (roots-IsUnder xs)

-- The options of a catalogue: every measure of its industries is that of the hierarchy, in which each
-- child names the root it stands under, and the concepts and chains are those of the catalogue.
abbrev pub Classifies : Catalog → FilterOptions → Type 0
Classifies c o =
    ((f : Entry → ℕ) → measure f o.industries ≡ sum_by f c.industries)
    × All IsUnder o.industries
    × (o.concepts ≡ c.concepts)
    × (o.chains ≡ c.chains)

options_of-Classifies : (c : Catalog) {o : FilterOptions} → options_of c ≡ ok o → Classifies c o
options_of-Classifies c {o} h =
    let (out, p, k) = bind-ok (place_all c.industries (roots_of c.industries)) _ h in
    let g : record { industries = out; concepts = c.concepts; chains = c.chains } ≡ o = cc in
    subst (Classifies c) g (
      λ f.
          (place_all-Placed f c.industries (roots_of c.industries) p).0
          ∙ roots_measure f c.industries,
      (place_all-Placed (λ _. 0) c.industries (roots_of c.industries) p).1
          (roots-IsUnder c.industries),
      refl,
      refl,
    )

-- Filter options that are returned are those of the catalogue of the data service: whatever number is
-- given to each industry, the numbers of the roots and the children add up to those of the catalogue, so
-- that none is lost and none stands twice; each child names the root it stands under as its parent; the
-- concepts and the chains are unchanged.
pub filter_options-Classifies :
    {S : Type 0} (repo : Repository S) (s : S) (o : FilterOptions)
    → filter_options repo s ≡ ok o
    → (c : Catalog) × (repo.classifications s ≡ ok c) × Classifies c o
filter_options-Classifies repo s o h =
    let (c, p, k) = bind-ok (repo.classifications s) options_of h in
    (c, p, options_of-Classifies c k)
