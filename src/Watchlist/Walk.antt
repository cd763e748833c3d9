-- ===== src/Watchlist/Walk.antt =====
-- A client that follows the cursors of user-service/backend/internal/biz/watchlist/biz.go, `List`, from
-- the first page to the last.
use Prim.Native.String.{len}
use mathlib.Core.Path.{subst}
use mathlib.Core.List.{append_assoc}
use tidewise_ai.Prelude.{
  ℕ, zero, suc, ◌+◌, ◌≤◌, ◌<◌, ◌≡◌, refl, sym, ap, ◌∙◌, Bool, true, false, ◌&&◌, ◌||◌, String, some,
  List, [], ◌∷◌, ◌++◌, All, All-right, All-map, length, arith, Bool-cases, inl, inr, if◌then◌else◌,
  ltb, ltb-false, str_eq, str_eq_to, ok, ◌==◌,
}
use tidewise_ai.Prelude.Int.{pos}
use tidewise_ai.Prelude.Text.{strip_prefix}
use tidewise_ai.Prelude.Sorting.{All-sort_slice, length-sort_slice}
use tidewise_ai.Stock.Search.{matches_stock_id}
use tidewise_ai.Account.{unavailable}
use tidewise_ai.Account.Act.{Tables, World, Act, ◌>>=◌, pure, fail}
use tidewise_ai.Account.Act.Forward.{bind-is, pure-is}
use tidewise_ai.Account.Base64.Laws.{decode-encode, len-encode}
use tidewise_ai.Account.Tables.{stored_time}
use tidewise_ai.Watchlist.{Entry, Cursor, CursorJson, Page, Watch, valid_id}
use tidewise_ai.Watchlist.Calls.{
  list, entry_less, is_after, take, select, watched, entries_of, all_valid, cursor_of, cursor_text,
  counted, zero_cursor,
}
use tidewise_ai.Watchlist.Order.{Ordered, Once, sort-Ordered, entry_less_irrefl}
use tidewise_ai.Watchlist.Pages.{
  take-all, length-take, take-take, split, select-behind, select-every, Ordered-around,
  last_of-append,
}
use tidewise_ai.Watchlist.Listed.{Serves, list-is, page_at}

-- The client: it asks for pages until one has no cursor.
walk_on : Watch → (String → Act (List Entry)) → Page → Act (List Entry)
walk_on u rest page =
    if str_eq page.next_cursor ""
    then pure page.items
    else rest page.next_cursor >>= λ more. pure (page.items ++ more)

pub walk : Watch → String → ℕ → ℕ → String → Act (List Entry)
walk u token limit zero cursor = fail unavailable
walk u token limit (suc fuel) cursor =
    list u token cursor (pos limit) >>= walk_on u (walk u token limit fuel)

abbrev at_entry : Entry → Cursor
at_entry e = record { added_at = e.added_at; stock_id = e.stock_id }

-- What encoding/json does for the cursor of an entry: it reads back what it writes, in 1 to 256 bytes.
pub record Encodes (j : CursorJson) (e : Entry) : Type 0 where
  pub read_back : j.unmarshal (j.marshal (at_entry e)) ≡ some (at_entry e)
  pub bytes : All (λ b. b < 256) (j.marshal (at_entry e))
  pub some_bytes : 1 ≤ length (j.marshal (at_entry e))
  pub few_bytes : length (j.marshal (at_entry e)) ≤ 256

-- A stored row: an identity of a stock, and whole microseconds that are not the zero time.
pub record IsRow (j : CursorJson) (e : Entry) : Type 0 where
  pub valid : valid_id e.stock_id ≡ true
  pub timed : (e.added_at == 0) ≡ false
  pub whole : stored_time e.added_at ≡ e.added_at
  pub encodes : Encodes j e

named : (s : String) → valid_id s ≡ true → str_eq s "" ≡ false
unfolding matches_stock_id strip_prefix
named s h = elim (Bool-cases (str_eq s "")) [
  | inl e ↦ let bad : false ≡ true = subst (λ x. valid_id x ≡ true) (str_eq_to e) h in cc
  | inr e ↦ e
]

text_eq_empty : (s : String) → 1 ≤ len s → str_eq s "" ≡ false
text_eq_empty s h = elim (Bool-cases (str_eq s "")) [
  | inl e ↦ let bad : 1 ≤ 0 = subst (λ x. 1 ≤ len x) (str_eq_to e) h in absurd (omega arith)
  | inr e ↦ e
]

module _ (u : Watch) where
  next_text-some : (e : Entry) → IsRow u.json e → str_eq (cursor_text u (some e)) "" ≡ false
  next_text-some e r =
      let (p, q) = len-encode (u.json.marshal (at_entry e)) r.encodes.bytes in
      let n = r.encodes.some_bytes in text_eq_empty _ (omega (arith, n, p))

  -- The server reads the cursor that it gave out.
  cursor_of-text :
      (e : Entry) → IsRow u.json e → cursor_of u (cursor_text u (some e)) ≡ ok (at_entry e)
  cursor_of-text e r =
      let long : ltb 256 (length (u.json.marshal (at_entry e))) ≡ false =
        let few = r.encodes.few_bytes in ground (arith, few) in
      rw (
        next_text-some e r,
        decode-encode (u.json.marshal (at_entry e)) r.encodes.bytes,
        long,
        r.encodes.read_back,
        r.valid,
        r.timed,
      )

regroup :
    {A : Type 0} (b ys : List A) (x : A) (zs : List A)
    → b ++ (ys ++ x ∷ zs) ≡ (b ++ (ys ++ x ∷ [])) ++ zs
regroup [] [] x zs = refl
regroup [] (y ∷ ys) x zs = ap (λ l. y ∷ l) (regroup [] ys x zs)
regroup (a ∷ b) ys x zs = ap (λ l. a ∷ l) (regroup b ys x zs)

same_test : (a b : ℕ) (x : Bool) → (ltb a b || a == b && x) ≡ (ltb a b || b == a && x)
same_test a b x = ground arith

is_after-less :
    (j : CursorJson) (x e : Entry) → IsRow j x → is_after (at_entry x) e ≡ entry_less x e
is_after-less j x e r = rw (named x.stock_id r.valid, r.whole) (same_test e.added_at x.added_at _)

valid_take :
    (j : CursorJson) (n : ℕ) (xs : List Entry) → All (IsRow j) xs → all_valid (take n xs) ≡ true
unfolding take
valid_take j zero xs h = refl
valid_take j (suc n) [] h = refl
valid_take j (suc n) (x ∷ xs) h = rw h.0.valid (valid_take j n xs h.1)

module _ (u : Watch) (token user : String) (t : Tables) (s : Serves u token user t) (limit : ℕ)
    (low : 1 ≤ limit) (high : limit ≤ 100) (rows : All (IsRow u.json) (watched user t))
    (order : Ordered (watched user t)) where
  -- The last page, and a page that is not the last one.
  last_page :
      (after : Cursor) (rest : List Entry)
      → select (is_after after) (watched user t) ≡ rest
      → length rest ≤ limit
      → page_at u limit (counted user t) (watched user t) after
        ≡ record { items = rest; total = counted user t; next_cursor = "" }
  last_page after rest e h =
      let f : ltb limit (length rest) ≡ false = ground arith in
      rw (e, take-all (limit + 1) rest (omega (arith, h)), f)

  full_page :
      (after : Cursor) (rest ys : List Entry) (x : Entry)
      → select (is_after after) (watched user t) ≡ rest
      → limit < length rest
      → take limit rest ≡ ys ++ x ∷ []
      → page_at u limit (counted user t) (watched user t) after ≡ record {
        items = ys ++ x ∷ [];
        total = counted user t;
        next_cursor = cursor_text u (some x);
      }
  full_page after rest ys x e h k =
      let n = length-take (limit + 1) rest (omega (arith, h)) in
      let f : ltb limit (length (take (limit + 1) rest)) ≡ true = ground (arith, n) in
      rw (e, f, take-take limit (limit + 1) rest (omega arith), k, last_of-append ys x)

  page_valid :
      (after : Cursor) (before rest : List Entry)
      → watched user t ≡ before ++ rest
      → select (is_after after) (watched user t) ≡ rest
      → all_valid (take (limit + 1) (select (is_after after) (watched user t))) ≡ true
  page_valid after before rest e f =
      let all : All (IsRow u.json) (before ++ rest) = subst (All (IsRow u.json)) e rows in
      rw f (valid_take u.json (limit + 1) rest (All-right (IsRow u.json) before rest all))

  -- Behind an entry of the list stands what follows it.
  select_behind_entry :
      (xs ys : List Entry) (x : Entry)
      → watched user t ≡ xs ++ x ∷ ys
      → select (is_after (at_entry x)) (watched user t) ≡ ys
  select_behind_entry xs ys x e =
      let o : Ordered (xs ++ x ∷ ys) = subst Ordered e order in
      let all : All (IsRow u.json) (xs ++ x ∷ ys) = subst (All (IsRow u.json)) e rows in
      let row : IsRow u.json x = (All-right (IsRow u.json) xs (x ∷ ys) all).0 in
      let (p, q) = Ordered-around xs x ys o in
      rw e (
        select-behind (is_after (at_entry x)) xs x ys
          (All-map _ (λ a. is_after (at_entry x) a ≡ false) xs
            (λ a h. is_after-less u.json x a row ∙ h) p)
          (is_after-less u.json x x row ∙ entry_less_irrefl x)
          (All-map _ (λ a. is_after (at_entry x) a ≡ true) ys
            (λ a h. is_after-less u.json x a row ∙ h) q))

  walk-from :
      (fuel : ℕ) (cursor : String) (after : Cursor) (before rest : List Entry) (w : World)
      → watched user t ≡ before ++ rest
      → cursor_of u cursor ≡ ok after
      → select (is_after after) (watched user t) ≡ rest
      → length rest < fuel
      → w.tables ≡ t
      → (v : World) × (walk u token limit fuel cursor w ≡ (ok rest, v))
  unfolding walk walk_on
  walk-from zero cursor after before rest w e c f n h = absurd (omega arith)
  walk-from (suc fuel) cursor after before rest w e c f n h =
      let (v, p, q) =
        list-is u token user t s cursor limit after w low high h c
          (page_valid after before rest e f) in
      elim (Bool-cases (ltb limit (length rest))) [
        | inr g ↦
            let page = last_page after rest f (ltb-false limit (length rest) g) in
            (v, bind-is _ (walk_on u (walk u token limit fuel)) p (rw page (pure-is rest v)))
        | inl g ↦
            let (ys, x, zs, d, k, m) = split limit rest (ground arith) low in
            let page = full_page after rest ys x f (ground arith) k in
            let whole : watched user t ≡ (before ++ (ys ++ x ∷ [])) ++ zs =
              e ∙ ap (λ l. before ++ l) d ∙ regroup before ys x zs in
            let middle : watched user t ≡ (before ++ ys) ++ x ∷ zs =
              e ∙ ap (λ l. before ++ l) d ∙ sym (append_assoc before ys (x ∷ zs)) in
            let row : IsRow u.json x =
              (All-right (IsRow u.json) (before ++ ys) (x ∷ zs)
                (subst (All (IsRow u.json)) middle rows)).0 in
            let (y, r) =
              walk-from fuel (cursor_text u (some x)) (at_entry x) (before ++ (ys ++ x ∷ [])) zs v
                whole (cursor_of-text u x row) (select_behind_entry (before ++ ys) zs x middle)
                (omega (arith, m, n)) q in
            (
              y,
              bind-is _ (walk_on u (walk u token limit fuel)) p (
                  rw (page, next_text-some u x row)
                    (bind-is _ _ r (pure-is _ y)
                      ∙ ap (λ l. (ok l, y)) (sym (regroup [] ys x zs) ∙ sym d))),
            )
      ]

-- The pages, followed from the first to the one without a cursor, hold the user's watch list: every
-- entry once, in order, whatever the size of a page, and no more requests are needed than entries and
-- one.
pub walk-watched :
    (u : Watch) (token user : String) (t : Tables) (s : Serves u token user t) (limit : ℕ)
    (w : World)
    → 1 ≤ limit
    → limit ≤ 100
    → All (IsRow u.json) (entries_of user t.watchlist)
    → Once (entries_of user t.watchlist)
    → w.tables ≡ t
    → (v : World) × (walk u token limit (counted user t + 1) "" w ≡ (ok (watched user t), v))
walk-watched u token user t s limit w low high rows once h =
    walk-from u token user t s limit low high
      (All-sort_slice entry_less (IsRow u.json) (entries_of user t.watchlist) rows)
      (sort-Ordered (entries_of user t.watchlist) once) (counted user t + 1) "" zero_cursor []
      (watched user t) w refl refl (select-every _ (watched user t) (everything (watched user t)))
      (let n = length-sort_slice entry_less (entries_of user t.watchlist) in omega (arith, n)) h
  where
    everything : (xs : List Entry) → All (λ e. is_after zero_cursor e ≡ true) xs
    everything [] = tt
    everything (x ∷ xs) = (refl, everything xs)
