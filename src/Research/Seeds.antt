-- ===== src/Research/Seeds.antt =====
-- What `validateGraphSearchRequest` of data-service/backend/internal/biz/research/biz.go makes of seeds.
use mathlib.Core.Path.{subst}
use tidewise_ai.Prelude.{
  ◌≡◌, refl, sym, ap, ◌∙◌, String, Bool, true, false, not, List, [], ◌∷◌, ok, reject_if, bind-ok,
  reject_if-ok, inl, inr, All, str_eq, str_eq_to, str_eq_self, Bool-cases, arith, length,
}
use tidewise_ai.Prelude.Text.{str_mem, str_lt, Distinct}
use tidewise_ai.Prelude.Sorting.{sort_slice, length-sort_slice, All-sort_slice}
use tidewise_ai.Identity.{UuidPackage}
use tidewise_ai.Entity.{is_object_id}
use tidewise_ai.Research.{
  seed_invalid, seed_repeated, seed_count, Request, bad_count, valid_seeds, sorted_seeds,
  sorted_filters, valid_limits, validate_request,
}
use tidewise_ai.Research.Order.{
  Ascending, str_mem-sort_slice, Ascending-sort_slice, Ascending-unique,
}

module _ (uuid : UuidPackage) where
  -- The seeds of a loop that goes to its end: valid, unseen, and none twice.
  abbrev pub Accepted : List String → List String → Type 0
  Accepted seen ids =
      All (λ id. is_object_id uuid id ≡ true) ids
      × All (λ id. str_mem id seen ≡ false) ids
      × Distinct ids

  not-false : (b : Bool) → not b ≡ false → b ≡ true
  not-false b h = ground arith

  -- What is not in a longer list of texts is not in the shorter one, and is not the text in front.
  unseen :
      (x : String) (seen ids : List String)
      → All (λ id. str_mem id (x ∷ seen) ≡ false) ids
      → All (λ id. str_mem id seen ≡ false) ids × (str_mem x ids ≡ false)
  unfolding str_mem
  unseen x seen [] h = (tt, refl)
  unseen x seen (id ∷ ids) h =
      let (a, b) = unseen x seen ids h.1 in
      elim (Bool-cases (str_eq x id)) [
        | inl e ↦ absurd (let bad : true ≡ false = rw e at (h.0) in cc)
        | inr e ↦
            let rest : str_mem id seen ≡ false = rw e at (h.0) in
            (
              (rest, a),
              elim (Bool-cases (str_eq id x)) [
                | inl f ↦ absurd (
                    let bad : true ≡ false =
                      sym (str_eq_self x) ∙ ap (str_eq x) (sym (str_eq_to f)) ∙ e in
                    cc)
                | inr f ↦ rw f b
              ],
            )
      ]

  valid_seeds-Accepted :
      (seen ids : List String) {u : Unit {0}} → valid_seeds uuid seen ids ≡ ok u → Accepted seen ids
  unfolding valid_seeds
  valid_seeds-Accepted seen [] h = (tt, tt, tt)
  valid_seeds-Accepted seen (id ∷ ids) h =
      let (_, p, k) = bind-ok (reject_if (not (is_object_id uuid id)) seed_invalid) _ h in
      let (_, q, l) = bind-ok (reject_if (str_mem id seen) seed_repeated) _ k in
      let (valid, above, distinct) = valid_seeds-Accepted (id ∷ seen) ids l in
      let (fresh, absent) = unseen id seen ids above in
      (
        (not-false _ (reject_if-ok _ seed_invalid p), valid),
        (reject_if-ok _ seed_repeated q, fresh),
        (absent, distinct),
      )

  -- The seeds of a validated request against those that were asked for.
  abbrev pub SeedsOf : List String → List String → Type 0
  SeedsOf ids seeds =
      (bad_count (length seeds) ≡ false)
      × All (λ id. is_object_id uuid id ≡ true) seeds
      × Ascending seeds
      × ((k : String) → str_mem k seeds ≡ str_mem k ids)

  sorted_seeds-SeedsOf :
      (ids : List String) {seeds : List String}
      → sorted_seeds uuid ids ≡ ok seeds
      → SeedsOf ids seeds
  sorted_seeds-SeedsOf ids {seeds} h =
      let (_, p, k) = bind-ok (reject_if (bad_count (length ids)) seed_count) _ h in
      let (_, q, l) = bind-ok (valid_seeds uuid [] ids) (λ _. ok (sort_slice str_lt ids)) k in
      let (valid, fresh, distinct) = valid_seeds-Accepted [] ids q in
      let e : sort_slice str_lt ids ≡ seeds = cc in
      subst (SeedsOf ids) e (
        ap bad_count (length-sort_slice str_lt ids) ∙ reject_if-ok _ seed_count p,
        All-sort_slice str_lt (λ id. is_object_id uuid id ≡ true) ids valid,
        Ascending-sort_slice ids distinct,
        λ k. str_mem-sort_slice k ids,
      )

  request-seeds :
      (r q : Request)
      → validate_request uuid r ≡ ok q
      → sorted_seeds uuid r.seed_entity_ids ≡ ok q.seed_entity_ids
  unfolding validate_request
  request-seeds r q h =
      let (seeds, p, k) = bind-ok (sorted_seeds uuid r.seed_entity_ids) _ h in
      let (filters, _, l) = bind-ok (sorted_filters r.relation_filters) _ k in
      let (_, _, m) =
        bind-ok (valid_limits uuid r)
          (λ _. ok (record r { seed_entity_ids = seeds; relation_filters = filters })) l in
      let e : record r { seed_entity_ids = seeds; relation_filters = filters } ≡ q = cc in
      p ∙ ap (λ x. ok x.seed_entity_ids) e

  -- The seeds of a request that passes the validation are 1 to 20 identities of entities in ascending
  -- order, none twice, and those that were asked for.
  pub validate_request-SeedsOf :
      (r q : Request) → validate_request uuid r ≡ ok q → SeedsOf r.seed_entity_ids q.seed_entity_ids
  validate_request-SeedsOf r q h = sorted_seeds-SeedsOf r.seed_entity_ids (request-seeds r q h)

  -- Two requests that pass the validation and ask for the same seeds, in whatever order, are normalized to
  -- the same list of 1 to 20 identities of entities, in ascending order and none twice.
  pub validate_request-order :
      (r s q p : Request)
      → validate_request uuid r ≡ ok q
      → validate_request uuid s ≡ ok p
      → ((k : String) → str_mem k r.seed_entity_ids ≡ str_mem k s.seed_entity_ids)
      → (q.seed_entity_ids ≡ p.seed_entity_ids) × SeedsOf r.seed_entity_ids q.seed_entity_ids
  validate_request-order r s q p h k same =
      let (a, b, c, d) = validate_request-SeedsOf r q h in
      let (e, f, g, i) = validate_request-SeedsOf s p k in
      (
        Ascending-unique q.seed_entity_ids p.seed_entity_ids c g (λ x. d x ∙ same x ∙ sym (i x)),
        (a, b, c, d),
      )
