-- ===== src/Prelude/Sorting.antt =====
-- sort.Slice, as a sort by insertion. Where the order leaves no ties every sort returns this list.
use Prim.Native.Nat.{ℕ, ◌+◌}
use mathlib.Core.Path.{◌≡◌, refl}
use mathlib.Core.Bool.{Bool}
use mathlib.Core.List.{List, [], ◌∷◌, Perm}
use mathlib.Core.List.Perm
use native.Mathlib.Omega.{arith}
use tidewise_ai.Prelude.Tests.{if◌then◌else◌, Bool-cases}
use tidewise_ai.Prelude.Lists.{sum_by, length, All}
use mathlib.Core.Logic.{inl, inr}

module _ {ℓ} {A : Type ℓ} (less : A → A → Bool) where
  unfoldable pub insert_sorted : A → List A → List A
  insert_sorted x [] = x ∷ []
  insert_sorted x (y ∷ ys) =
      let rest = insert_sorted x ys in if less y x then y ∷ rest else x ∷ y ∷ ys

  unfoldable pub sort_slice : List A → List A
  unfolding insert_sorted
  sort_slice [] = []
  sort_slice (x ∷ xs) = insert_sorted x (sort_slice xs)

  insert_sorted-perm : (x : A) (xs : List A) → Perm (insert_sorted x xs) (x ∷ xs)
  unfolding insert_sorted
  insert_sorted-perm x [] = Perm.refl (x ∷ [])
  insert_sorted-perm x (y ∷ ys) = elim (Bool-cases (less y x)) [
    | inl e ↦ rw e (Perm.trans (Perm.cons y (insert_sorted-perm x ys)) (Perm.swap x y ys))
    | inr e ↦ rw e (Perm.refl (x ∷ y ∷ ys))
  ]

  -- What is returned holds the same items, as often.
  pub sort_slice-perm : (xs : List A) → Perm (sort_slice xs) xs
  unfolding sort_slice
  sort_slice-perm [] = Perm.refl []
  sort_slice-perm (x ∷ xs) =
      Perm.trans (insert_sorted-perm x (sort_slice xs)) (Perm.cons x (sort_slice-perm xs))

  sum_by-insert_sorted :
      (f : A → ℕ) (x : A) (xs : List A) → sum_by f (insert_sorted x xs) ≡ f x + sum_by f xs
  unfolding insert_sorted
  sum_by-insert_sorted f x [] = refl
  sum_by-insert_sorted f x (y ∷ ys) = elim (Bool-cases (less y x)) [
    | inl e ↦ rw e (omega (arith, sum_by-insert_sorted f x ys))
    | inr e ↦ rw e refl
  ]

  pub sum_by-sort_slice : (f : A → ℕ) (xs : List A) → sum_by f (sort_slice xs) ≡ sum_by f xs
  unfolding sort_slice
  sum_by-sort_slice f [] = refl
  sum_by-sort_slice f (x ∷ xs) =
      omega (arith, sum_by-insert_sorted f x (sort_slice xs), sum_by-sort_slice f xs)

  length-insert_sorted : (x : A) (xs : List A) → length (insert_sorted x xs) ≡ 1 + length xs
  unfolding insert_sorted
  length-insert_sorted x [] = refl
  length-insert_sorted x (y ∷ ys) = elim (Bool-cases (less y x)) [
    | inl e ↦ rw e (omega (arith, length-insert_sorted x ys))
    | inr e ↦ rw e (omega arith)
  ]

  pub length-sort_slice : (xs : List A) → length (sort_slice xs) ≡ length xs
  unfolding sort_slice
  length-sort_slice [] = refl
  length-sort_slice (x ∷ xs) =
      omega (arith, length-insert_sorted x (sort_slice xs), length-sort_slice xs)

  module _ (P : A → Type ℓ) where
    pub All-insert_sorted : (x : A) (xs : List A) → P x → All P xs → All P (insert_sorted x xs)
    unfolding insert_sorted
    All-insert_sorted x [] h k = (h, tt)
    All-insert_sorted x (y ∷ ys) h k = elim (Bool-cases (less y x)) [
      | inl e ↦ rw e (k.0, All-insert_sorted x ys h k.1)
      | inr e ↦ rw e (h, k)
    ]

    pub All-sort_slice : (xs : List A) → All P xs → All P (sort_slice xs)
    unfolding sort_slice
    All-sort_slice [] h = tt
    All-sort_slice (x ∷ xs) h = All-insert_sorted x (sort_slice xs) h.0 (All-sort_slice xs h.1)

    All-un_insert : (x : A) (xs : List A) → All P (insert_sorted x xs) → P x × All P xs
    unfolding insert_sorted
    All-un_insert x [] h = h
    All-un_insert x (y ∷ ys) h = elim (Bool-cases (less y x)) [
      | inl e ↦
          let k : P y × All P (insert_sorted x ys) = rw e at h in
          let r : P x × All P ys = All-un_insert x ys k.1 in (r.0, (k.0, r.1))
      | inr e ↦ rw e at h
    ]

    pub All-of_sort_slice : (xs : List A) → All P (sort_slice xs) → All P xs
    unfolding sort_slice
    All-of_sort_slice [] h = tt
    All-of_sort_slice (x ∷ xs) h =
        let r : P x × All P (sort_slice xs) = All-un_insert x (sort_slice xs) h in
        (r.0, All-of_sort_slice xs r.1)
