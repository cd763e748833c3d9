-- ===== src/Watchlist/Pages.antt =====
-- Lists cut into pages, for user-service/backend/internal/biz/watchlist/biz.go, `List`.
use tidewise_ai.Prelude.{
  ℕ, zero, suc, ◌≤◌, ◌<◌, ◌≡◌, refl, sym, ap, ◌∙◌, Bool, true, false, some, List, [], ◌∷◌, ◌++◌,
  All, length, arith, Bool-cases, inl, inr,
}
use tidewise_ai.Watchlist.{Entry}
use tidewise_ai.Watchlist.Calls.{take, select, last_of, entry_less}
use tidewise_ai.Watchlist.Order.{Ordered, entry_less_trans, entry_less_irrefl}

module _ {A : Type 0} where
  pub take-all : (n : ℕ) (xs : List A) → length xs ≤ n → take n xs ≡ xs
  unfolding take
  take-all zero [] h = refl
  take-all zero (x ∷ xs) h = absurd (omega arith)
  take-all (suc n) [] h = refl
  take-all (suc n) (x ∷ xs) h = ap (λ r. x ∷ r) (take-all n xs (omega (arith, h)))

  pub length-take : (n : ℕ) (xs : List A) → n ≤ length xs → length (take n xs) ≡ n
  unfolding take
  length-take zero xs h = refl
  length-take (suc n) [] h = absurd (omega arith)
  length-take (suc n) (x ∷ xs) h = ap suc (length-take n xs (omega (arith, h)))

  pub take-take : (n m : ℕ) (xs : List A) → n ≤ m → take n (take m xs) ≡ take n xs
  unfolding take
  take-take zero m xs h = refl
  take-take (suc n) zero xs h = absurd (omega arith)
  take-take (suc n) (suc m) [] h = refl
  take-take (suc n) (suc m) (x ∷ xs) h = ap (λ r. x ∷ r) (take-take n m xs (omega (arith, h)))

  -- A list that is longer than a page: the page, its last entry, and what is left.
  pub split :
      (n : ℕ) (xs : List A)
      → n < length xs
      → 1 ≤ n
      → (ys : List A) × (x : A) × (zs : List A) × (xs ≡ ys ++ x ∷ zs)
        × (take n xs ≡ ys ++ x ∷ [])
        × (length zs < length xs)
  unfolding take
  split zero xs h k = absurd (omega arith)
  split (suc n) [] h k = absurd (omega arith)
  split (suc zero) (x ∷ xs) h k = ([], x, xs, refl, refl, omega arith)
  split (suc (suc n)) (x ∷ xs) h k =
      let (ys, y, zs, p, q, r) = split (suc n) xs (omega (arith, h)) (omega arith) in
      (x ∷ ys, y, zs, ap (λ l. x ∷ l) p, ap (λ l. x ∷ l) q, omega arith)

  select-none :
      (p : A → Bool) (xs ys : List A)
      → All (λ x. p x ≡ false) xs
      → select p (xs ++ ys) ≡ select p ys
  unfolding select
  select-none p [] ys h = refl
  select-none p (x ∷ xs) ys h = rw h.0 (select-none p xs ys h.1)

  pub select-every : (p : A → Bool) (xs : List A) → All (λ x. p x ≡ true) xs → select p xs ≡ xs
  unfolding select
  select-every p [] h = refl
  select-every p (x ∷ xs) h = rw h.0 (ap (λ r. x ∷ r) (select-every p xs h.1))

  pub select-behind :
      (p : A → Bool) (xs : List A) (x : A) (ys : List A)
      → All (λ a. p a ≡ false) xs
      → p x ≡ false
      → All (λ a. p a ≡ true) ys
      → select p (xs ++ x ∷ ys) ≡ ys
  unfolding select
  select-behind p xs x ys h k l = select-none p xs (x ∷ ys) h ∙ (rw k (select-every p ys l))

-- An entry that comes before another does not come behind it.
not-behind : (a b : Entry) → entry_less a b ≡ true → entry_less b a ≡ false
not-behind a b h = elim (Bool-cases (entry_less b a)) [
  | inl e ↦ let c : true ≡ false = sym (entry_less_trans a b a h e) ∙ entry_less_irrefl a in cc
  | inr e ↦ e
]

-- Around an entry of an ordered list: those before it and those behind it.
pub Ordered-around :
    (xs : List Entry) (x : Entry) (ys : List Entry)
    → Ordered (xs ++ x ∷ ys)
    → All (λ a. entry_less x a ≡ false) xs × All (λ a. entry_less x a ≡ true) ys
Ordered-around [] x ys o = (tt, o.0)
Ordered-around (a ∷ xs) x ys o =
    let (p, q) = Ordered-around xs x ys o.1 in ((not-behind a x (at xs o.0), p), q)
  where
    at : (ls : List Entry) → All (λ y. entry_less a y ≡ true) (ls ++ x ∷ ys) → entry_less a x ≡ true
    at [] h = h.0
    at (l ∷ ls) h = at ls h.1

pub last_of-append : (ys : List Entry) (x : Entry) → last_of (ys ++ x ∷ []) ≡ some x
unfolding last_of
last_of-append [] x = refl
last_of-append (y ∷ []) x = refl
last_of-append (y ∷ z ∷ ys) x = last_of-append (z ∷ ys) x
