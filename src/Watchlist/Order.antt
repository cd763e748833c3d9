-- ===== src/Watchlist/Order.antt =====
-- The order of the pages of user-service/backend/internal/data/watchlist/transaction.go is strict and
-- total, so that a page starts where the one before it ended.
use tidewise_ai.Prelude.{
  ℕ, ◌≡◌, ◌≢◌, sym, Bool, true, false, ◌&&◌, ◌||◌, String, List, [], ◌∷◌, ltb, ◌==◌, All,
  Bool-cases, inl, inr, arith, All-map,
}
use tidewise_ai.Prelude.Text.{str_lt}
use tidewise_ai.Prelude.TextOrder.{str_lt_trans, str_lt_total, str_lt_irrefl}
use tidewise_ai.Prelude.Sorting.{insert_sorted, sort_slice, All-sort_slice, All-insert_sorted}
use tidewise_ai.Watchlist.{Entry}
use tidewise_ai.Watchlist.Calls.{entry_less}

-- A list in the order of the pages, no two entries at one place.
abbrev pub Ordered : List Entry → Type 0
Ordered [] = Unit
Ordered (x ∷ xs) = All (λ y. entry_less x y ≡ true) xs × Ordered xs

lex_trans :
    (a b c : ℕ) (x y z : Bool)
    → (x ≡ true → y ≡ true → z ≡ true)
    → (ltb b a || a == b && x) ≡ true
    → (ltb c b || b == c && y) ≡ true
    → (ltb c a || a == c && z) ≡ true
lex_trans a b c x y z f p q = ground arith

pub entry_less_trans :
    (a b c : Entry) → entry_less a b ≡ true → entry_less b c ≡ true → entry_less a c ≡ true
entry_less_trans a b c h k =
    lex_trans a.added_at b.added_at c.added_at _ _ _ (str_lt_trans a.stock_id b.stock_id c.stock_id)
      h k

lex_total :
    (a b : ℕ) (x y : Bool)
    → (x ≡ false → y ≡ true)
    → (ltb b a || a == b && x) ≡ false
    → (ltb a b || b == a && y) ≡ true
lex_total a b x y f p = ground arith

not_less : (s t : String) → s ≢ t → str_lt s t ≡ false → str_lt t s ≡ true
not_less s t d h = elim (Bool-cases (str_lt t s)) [
  | inl e ↦ e
  | inr e ↦ absurd (d (str_lt_total s t h e))
]

entry_less_total :
    (a b : Entry) → a.stock_id ≢ b.stock_id → entry_less a b ≡ false → entry_less b a ≡ true
entry_less_total a b d h = lex_total a.added_at b.added_at _ _ (not_less a.stock_id b.stock_id d) h

lex_irrefl : (a : ℕ) (x : Bool) → x ≡ false → (ltb a a || a == a && x) ≡ false
lex_irrefl a x h = ground arith

pub entry_less_irrefl : (a : Entry) → entry_less a a ≡ false
entry_less_irrefl a = lex_irrefl a.added_at _ (str_lt_irrefl a.stock_id)

-- No entry comes twice: the primary key of the table.
abbrev pub Once : List Entry → Type 0
Once [] = Unit
Once (x ∷ xs) = All (λ y. x.stock_id ≢ y.stock_id) xs × Once xs

insert-Ordered :
    (x : Entry) (xs : List Entry)
    → All (λ y. x.stock_id ≢ y.stock_id) xs
    → Ordered xs
    → Ordered (insert_sorted entry_less x xs)
unfolding insert_sorted
insert-Ordered x [] d o = (tt, tt)
insert-Ordered x (y ∷ ys) d o = elim (Bool-cases (entry_less y x)) [
  | inl e ↦ rw e (
    All-insert_sorted entry_less (λ z. entry_less y z ≡ true) x ys e o.0,
    insert-Ordered x ys d.1 o.1,
  )
  | inr e ↦
      let h : entry_less x y ≡ true = entry_less_total y x (λ p. d.0 (sym p)) e in
      rw e
        ((h, All-map _ (λ z. entry_less x z ≡ true) ys (λ z k. entry_less_trans x y z h k) o.0), o)
]

pub sort-Ordered : (xs : List Entry) → Once xs → Ordered (sort_slice entry_less xs)
unfolding sort_slice
sort-Ordered [] h = tt
sort-Ordered (x ∷ xs) h =
    insert-Ordered x (sort_slice entry_less xs)
      (All-sort_slice entry_less (λ y. x.stock_id ≢ y.stock_id) xs h.0) (sort-Ordered xs h.1)
