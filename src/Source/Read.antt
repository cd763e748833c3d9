-- ===== src/Source/Read.antt =====
-- `List` and `ActiveSnapshot` of biz/source/biz.go with their orders, over any store.
use tidewise_ai.Prelude.{
  Bool, true, false, ◌||◌, not, List, Result, ok, err, ltb, str_eq, if◌then◌else◌, length,
}
use tidewise_ai.Prelude.Int.{ltb_ℤ, eqb_ℤ}
use tidewise_ai.Prelude.Text.{str_lt}
use tidewise_ai.Prelude.Sorting.{sort_slice}
use tidewise_ai.Source.{
  Error, capacity_exceeded, persistence, Source, Store, max_sources, max_snapshot_envelope_size,
}
use tidewise_ai.Source.Prepare.{}
use tidewise_ai.Source.Validation.{Environment}
use tidewise_ai.Source.Envelope.{validate_each, active_of, snapshot_envelope_size}

-- The order of `List`.
unfoldable pub list_less : Source → Source → Bool
list_less a b =
    if not (eqb_ℤ a.priority b.priority)
    then ltb_ℤ a.priority b.priority
    else if not (str_eq a.code b.code)
    then str_lt a.code b.code
    else str_lt a.id b.id

-- The order of `sortSnapshot`.
unfoldable pub snapshot_less : Source → Source → Bool
snapshot_less a b =
    if not (str_eq a.channel_type b.channel_type)
    then str_lt a.channel_type b.channel_type
    else list_less a b

module _ (env : Environment) {S : Type 0} (store : Store S) where
  -- A stored Source that does not validate is a persistence error.
  abbrev pub as_persistence : Result Error Unit → Result Error Unit
  as_persistence (ok _) = ok tt
  as_persistence (err _) = err persistence

  abbrev pub listed_sorted : Result Error Unit → List Source → Result Error (List Source)
  listed_sorted (err e) items = err e
  listed_sorted (ok _) items = ok (sort_slice list_less items)

  abbrev pub list_from : Result Error (List Source) → Result Error (List Source)
  list_from (err e) = err e
  list_from (ok items) = listed_sorted (as_persistence (validate_each env true items)) items

  unfoldable pub list : S → Result Error (List Source)
  list s = list_from (store.list false s)

  abbrev pub snapshot_of : Result Error Unit → List Source → Result Error (List Source)
  snapshot_of (err e) items = err e
  snapshot_of (ok _) items =
      let active = sort_slice snapshot_less (active_of items) in
      if ltb max_sources (length active)
        || ltb max_snapshot_envelope_size (snapshot_envelope_size active)
      then err capacity_exceeded
      else ok active

  abbrev pub snapshot_from : Result Error (List Source) → Result Error (List Source)
  snapshot_from (err e) = err e
  snapshot_from (ok items) = snapshot_of (as_persistence (validate_each env true items)) items

  unfoldable pub active_snapshot : S → Result Error (List Source)
  active_snapshot s = snapshot_from (store.list true s)
