-- ===== src/Source/Envelope/Laws.antt =====
-- What passes `validateProjectedSet`, and how the size of a snapshot depends on its Sources.
use tidewise_ai.Prelude.{
  ℕ, suc, zero, ◌+◌, ◌-◌, ◌%◌, ◌/◌, ◌^◌, ◌≤◌, ◌≡◌, refl, sym, ap, ◌∙◌, Bool, true, false, not, ◌&&◌,
  List, [], ◌∷◌, ok, arith, length, sum_by, if◌then◌else◌, ◌==◌,
}
use tidewise_ai.Prelude.Sorting.{sort_slice, insert_sorted, sum_by-sort_slice, length-sort_slice}
use tidewise_ai.Source.{Source, Time, max_sources, max_snapshot_envelope_size}
use tidewise_ai.Source.Validation.{Environment}
use tidewise_ai.Source.Envelope.{
  validate_each, validate_projected_set, active_web, active_of, snapshot_envelope_size, all_marshal,
  can_marshal, source_size, envelope_frame, bit, fraction_digits, timestamp_size, measured_time,
}

-- What a set that passes has: room, valid Sources, one web search at most, and a small snapshot.
pub projected-ok :
    (env : Environment) (items : List Source)
    → validate_projected_set env items ≡ ok tt
    → (length items ≤ max_sources)
      × (validate_each env false items ≡ ok tt)
      × (active_web items ≤ 1)
      × (snapshot_envelope_size (active_of items) ≤ max_snapshot_envelope_size)
unfolding validate_projected_set
projected-ok env items h = (ground arith, ground arith, ground arith, ground arith)

-- What a Source adds to the snapshot, and whether it cannot be written.
unfoldable pub weight : Source → ℕ
weight s = if s.enabled then source_size s else 0

unfoldable pub blocks : Source → ℕ
blocks s = if s.enabled then bit (not (can_marshal s)) else 0

unfoldable pub counts : Source → ℕ
counts s = bit s.enabled

sum_by-active : (items : List Source) → sum_by source_size (active_of items) ≡ sum_by weight items
unfolding active_of weight
sum_by-active [] = refl
sum_by-active (s ∷ items) = ground (arith, sum_by-active items)

pub length-active : (items : List Source) → length (active_of items) ≡ sum_by counts items
unfolding active_of counts
length-active [] = refl
length-active (s ∷ items) = ground (arith, length-active items)

all_marshal-active :
    (items : List Source)
    → all_marshal (active_of items) ≡ (if sum_by blocks items == 0 then true else false)
unfolding active_of blocks all_marshal
all_marshal-active [] = refl
all_marshal-active (s ∷ items) = ground (arith, all_marshal-active items)

-- The size of the active snapshot by three sums over all Sources, whatever their order.
pub envelope_by_sums :
    (items : List Source)
    → snapshot_envelope_size (active_of items) ≡ (
        if sum_by blocks items == 0
        then envelope_frame + sum_by weight items + (sum_by counts items - 1) + 1
        else max_snapshot_envelope_size + 1)
unfolding snapshot_envelope_size
envelope_by_sums items =
    rw (all_marshal-active items, sum_by-active items, length-active items) (ground arith)

-- A snapshot grows with no sum that shrinks.
pub envelope_mono :
    (items others : List Source)
    → sum_by blocks items ≤ sum_by blocks others
    → sum_by weight items ≤ sum_by weight others
    → sum_by counts items ≤ sum_by counts others
    → snapshot_envelope_size (active_of others) ≤ max_snapshot_envelope_size
    → snapshot_envelope_size (active_of items) ≤ max_snapshot_envelope_size
envelope_mono items others b w c h = rw envelope_by_sums (ground (arith, envelope_by_sums others))

-- The sums over the active Sources are those over all.
sum_by-weight-active : (items : List Source) → sum_by weight (active_of items) ≡ sum_by weight items
unfolding active_of weight
sum_by-weight-active [] = refl
sum_by-weight-active (s ∷ items) = ground (arith, sum_by-weight-active items)

sum_by-blocks-active : (items : List Source) → sum_by blocks (active_of items) ≡ sum_by blocks items
unfolding active_of blocks
sum_by-blocks-active [] = refl
sum_by-blocks-active (s ∷ items) = ground (arith, sum_by-blocks-active items)

sum_by-counts-active : (items : List Source) → sum_by counts (active_of items) ≡ sum_by counts items
unfolding active_of counts
sum_by-counts-active [] = refl
sum_by-counts-active (s ∷ items) = ground (arith, sum_by-counts-active items)

all_marshal-insert :
    (less : Source → Source → Bool) (x : Source) (xs : List Source)
    → all_marshal (insert_sorted less x xs) ≡ (can_marshal x && all_marshal xs)
unfolding all_marshal insert_sorted
all_marshal-insert less x [] = refl
all_marshal-insert less x (y ∷ ys) = ground (arith, all_marshal-insert less x ys)

all_marshal-sort :
    (less : Source → Source → Bool) (xs : List Source)
    → all_marshal (sort_slice less xs) ≡ all_marshal xs
unfolding all_marshal sort_slice
all_marshal-sort less [] = refl
all_marshal-sort less (x ∷ xs) =
    all_marshal-insert less x (sort_slice less xs)
    ∙ ap (λ b. can_marshal x && b) (all_marshal-sort less xs)

envelope-sort :
    (less : Source → Source → Bool) (xs : List Source)
    → snapshot_envelope_size (sort_slice less xs) ≡ snapshot_envelope_size xs
unfolding snapshot_envelope_size
envelope-sort less xs =
    rw (all_marshal-sort less xs, sum_by-sort_slice less source_size xs, length-sort_slice less xs)

-- What ActiveSnapshot measures is as large as the active Sources of the table.
pub snapshot_sizes :
    (less : Source → Source → Bool) (rows : List Source)
    → let active = sort_slice less (active_of (sort_slice less (active_of rows))) in
      (length active ≡ length (active_of rows))
      × (snapshot_envelope_size (active_of rows) ≤ max_snapshot_envelope_size
          → snapshot_envelope_size active ≤ max_snapshot_envelope_size)
snapshot_sizes less rows =
    let again = sort_slice less (active_of rows) in
    (
      length-sort_slice less (active_of again)
          ∙ length-active again
          ∙ sum_by-sort_slice less counts (active_of rows)
          ∙ sum_by-counts-active rows
          ∙ sym (length-active rows),
      λ h. rw envelope-sort (
          envelope_mono again rows
            (omega
              (arith, sum_by-sort_slice less blocks (active_of rows), sum_by-blocks-active rows))
            (omega
              (arith, sum_by-sort_slice less weight (active_of rows), sum_by-weight-active rows))
            (omega
              (arith, sum_by-sort_slice less counts (active_of rows), sum_by-counts-active rows))
            h),
    )

fraction_digits-le : (width n : ℕ) → fraction_digits width n ≤ width
unfolding fraction_digits
fraction_digits-le zero n = omega arith
fraction_digits-le (suc width) n = ground (arith, fraction_digits-le width (n / 10))

-- No timestamp is longer than that of the last nanosecond of the year 9999.
pub timestamp_size-le : (t : Time) → timestamp_size t ≤ 32
unfolding timestamp_size
timestamp_size-le t = ground (arith, fraction_digits-le 9 (t % 10 ^ 9))

pub worst_timestamp : timestamp_size (measured_time 0) ≡ 32
unfolding timestamp_size measured_time
worst_timestamp = refl
