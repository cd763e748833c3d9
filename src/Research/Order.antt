-- ===== src/Research/Order.antt =====
-- The seeds of a validated request of data-service/backend/internal/biz/research/biz.go: in order, and
-- the same for every order in which they were asked for.
use mathlib.Core.Path.{ap₂, subst}
use tidewise_ai.Prelude.{
  ◌≡◌, refl, sym, ap, ◌∙◌, String, Bool, true, false, ◌||◌, List, [], ◌∷◌, inl, inr, All, All-map,
  str_eq, str_eq_to, str_eq_self, Bool-cases, arith,
}
use tidewise_ai.Prelude.Text.{str_mem, str_lt, Distinct}
use tidewise_ai.Prelude.TextOrder.{str_lt_trans, str_lt_total, str_lt_irrefl}
use tidewise_ai.Prelude.Sorting.{insert_sorted, sort_slice, All-insert_sorted}

abbrev pub Ascending : List String → Type 0
Ascending [] = Unit
Ascending (x ∷ xs) = All (λ y. str_lt x y ≡ true) xs × Ascending xs

str_mem-insert_sorted :
    (k x : String) (xs : List String)
    → str_mem k (insert_sorted str_lt x xs) ≡ (str_eq x k || str_mem k xs)
unfolding str_mem insert_sorted
str_mem-insert_sorted k x [] = refl
str_mem-insert_sorted k x (y ∷ ys) = elim (Bool-cases (str_lt y x)) [
  | inl e ↦ rw e (swap (str_eq x k) (str_eq y k) _ _ (str_mem-insert_sorted k x ys))
  | inr e ↦ rw e refl
]
  where
    swap : (a b m n : Bool) → m ≡ (a || n) → (b || m) ≡ (a || (b || n))
    swap a b m n h = ground arith

pub str_mem-sort_slice :
    (k : String) (xs : List String) → str_mem k (sort_slice str_lt xs) ≡ str_mem k xs
unfolding str_mem sort_slice
str_mem-sort_slice k [] = refl
str_mem-sort_slice k (x ∷ xs) =
    str_mem-insert_sorted k x (sort_slice str_lt xs)
    ∙ ap (λ b. str_eq x k || b) (str_mem-sort_slice k xs)

Ascending-insert_sorted :
    (x : String) (xs : List String)
    → str_mem x xs ≡ false
    → Ascending xs
    → Ascending (insert_sorted str_lt x xs)
unfolding insert_sorted str_mem
Ascending-insert_sorted x [] h a = (tt, tt)
Ascending-insert_sorted x (y ∷ ys) h a =
    let (differ, unseen) = neither (str_eq y x) (str_mem x ys) h in
    elim (Bool-cases (str_lt y x)) [
      | inl e ↦ rw e (
        All-insert_sorted str_lt (λ z. str_lt y z ≡ true) x ys e a.0,
        Ascending-insert_sorted x ys unseen a.1,
      )
      | inr e ↦ elim (Bool-cases (str_lt x y)) [
        | inl f ↦ rw e (
          (
            f,
            All-map (λ z. str_lt y z ≡ true) (λ z. str_lt x z ≡ true) ys
                (λ z g. str_lt_trans x y z f g) a.0,
          ),
          a,
        )
        | inr f ↦
            let same : y ≡ x = str_lt_total y x e f in
            absurd
              (let bad : true ≡ false = sym (str_eq_self y) ∙ ap (str_eq y) same ∙ differ in cc)
      ]
    ]
  where
    neither : (a b : Bool) → (a || b) ≡ false → (a ≡ false) × (b ≡ false)
    neither true b h = absurd (cc)
    neither false b h = (refl, h)

pub Ascending-sort_slice : (xs : List String) → Distinct xs → Ascending (sort_slice str_lt xs)
unfolding sort_slice
Ascending-sort_slice [] d = tt
Ascending-sort_slice (x ∷ xs) d =
    Ascending-insert_sorted x (sort_slice str_lt xs) (str_mem-sort_slice x xs ∙ d.0)
      (Ascending-sort_slice xs d.1)

-- What stands below a whole list is not in it.
below-absent :
    (x : String) (xs : List String) → All (λ y. str_lt x y ≡ true) xs → str_mem x xs ≡ false
unfolding str_mem
below-absent x [] h = refl
below-absent x (y ∷ ys) h = elim (Bool-cases (str_eq y x)) [
  | inl e ↦
      absurd
        (let bad : true ≡ false = sym h.0 ∙ ap (str_lt x) (str_eq_to e) ∙ str_lt_irrefl x in cc)
  | inr e ↦ rw e (below-absent x ys h.1)
]

member-above :
    (x k : String) (xs : List String)
    → All (λ y. str_lt x y ≡ true) xs
    → str_mem k xs ≡ true
    → str_lt x k ≡ true
unfolding str_mem
member-above x k [] h m = absurd (cc)
member-above x k (y ∷ ys) h m = elim (Bool-cases (str_eq y k)) [
  | inl e ↦ rw (← str_eq_to e) h.0
  | inr e ↦ member-above x k ys h.1 (rw e at m)
]

-- The heads of two ascending lists of the same texts are the same.
heads :
    (x y : String) (xs ys : List String)
    → All (λ z. str_lt x z ≡ true) xs
    → All (λ z. str_lt y z ≡ true) ys
    → (str_eq y x || str_mem x ys) ≡ true
    → (str_eq x y || str_mem y xs) ≡ true
    → x ≡ y
heads x y xs ys a b h k = elim (Bool-cases (str_eq y x)) [
  | inl e ↦ sym (str_eq_to e)
  | inr e ↦ elim (Bool-cases (str_eq x y)) [
    | inl f ↦ str_eq_to f
    | inr f ↦
        let p : str_lt y x ≡ true = member-above y x ys b (rw e at h) in
        let q : str_lt x y ≡ true = member-above x y xs a (rw f at k) in
        absurd (let bad : true ≡ false = sym (str_lt_trans x y x q p) ∙ str_lt_irrefl x in cc)
  ]
]

same_tail :
    (x k : String) (xs ys : List String)
    → All (λ z. str_lt x z ≡ true) xs
    → All (λ z. str_lt x z ≡ true) ys
    → (str_eq x k || str_mem k xs) ≡ (str_eq x k || str_mem k ys)
    → str_mem k xs ≡ str_mem k ys
same_tail x k xs ys a b h = elim (Bool-cases (str_eq x k)) [
  | inl e ↦
      subst (λ z. str_mem z xs ≡ str_mem z ys) (str_eq_to e)
        (below-absent x xs a ∙ sym (below-absent x ys b))
  | inr e ↦ rw e at h
]

-- Two ascending lists of the same texts are the same list.
pub Ascending-unique :
    (xs ys : List String)
    → Ascending xs
    → Ascending ys
    → ((k : String) → str_mem k xs ≡ str_mem k ys)
    → xs ≡ ys
unfolding str_mem
Ascending-unique [] [] a b h = refl
Ascending-unique [] (y ∷ ys) a b h =
    absurd (let bad : false ≡ true = h y ∙ ap (λ e. e || str_mem y ys) (str_eq_self y) in cc)
Ascending-unique (x ∷ xs) [] a b h =
    absurd (let bad : true ≡ false = sym (ap (λ e. e || str_mem x xs) (str_eq_self x)) ∙ h x in cc)
Ascending-unique (x ∷ xs) (y ∷ ys) a b h =
    let same : x ≡ y =
      heads x y xs ys a.0 b.0 (sym (h x) ∙ ap (λ e. e || str_mem x xs) (str_eq_self x))
        (h y ∙ ap (λ e. e || str_mem y ys) (str_eq_self y)) in
    ap₂ ◌∷◌ same (
      Ascending-unique xs ys a.1 b.1 (λ k.
        same_tail x k xs ys a.0 (subst (λ z. All (λ w. str_lt z w ≡ true) ys) (sym same) b.0)
          (h k ∙ ap (λ z. str_eq z k || str_mem k ys) (sym same))))
