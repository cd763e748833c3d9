-- ===== src/Watchlist/Calls.antt =====
-- `List`, `Check` and `Change` of user-service/backend/internal/biz/watchlist/biz.go, with their
-- statements in data/watchlist/transaction.go.
use tidewise_ai.Prelude.{
  ℕ, zero, suc, ◌+◌, String, Bool, true, false, not, ◌&&◌, ◌||◌, Option, none, some, List, [], ◌∷◌,
  ◌++◌, Result, ok, err, ltb, ◌==◌, str_eq, if◌then◌else◌, length,
}
use tidewise_ai.Prelude.Int.{ℤ, pos, ltb_ℤ, pos_part}
use tidewise_ai.Prelude.Text.{str_lt, str_mem, all_texts}
use tidewise_ai.Prelude.Sorting.{sort_slice}
use tidewise_ai.Account.{Error, unavailable, invalid_request, Bytes, Time}
use tidewise_ai.Account.Act.{
  WatchRow, Tables, Act, statement, pure, lift, asks, fail_if, ◌>>=◌, ◌>>◌,
}
use tidewise_ai.Account.Base64
use tidewise_ai.Account.Tables.{kept, stored_time}
use tidewise_ai.Watchlist.{valid_id, Entry, Cursor, Page, Watch, quiet, authorized}

-- `ORDER BY added_at DESC, stock_id ASC`
abbrev pub entry_less : Entry → Entry → Bool
entry_less a b =
    ltb b.added_at a.added_at || a.added_at == b.added_at && str_lt a.stock_id b.stock_id

abbrev pub entries_of : String → List WatchRow → List Entry
entries_of user [] = []
entries_of user (r ∷ rs) =
    let rest = entries_of user rs in
    if str_eq r.user_id user
    then record { stock_id = r.stock_id; added_at = r.added_at } ∷ rest
    else rest

-- The user's rows in the order of the pages.
abbrev pub watched : String → Tables → List Entry
watched user t = sort_slice entry_less (entries_of user t.watchlist)

-- `WHERE $2='' OR added_at<$3 OR (added_at=$3 AND stock_id>$2)`
abbrev pub is_after : Cursor → Entry → Bool
is_after after e =
    str_eq after.stock_id ""
    || ltb e.added_at (stored_time after.added_at)
    || e.added_at == stored_time after.added_at && str_lt after.stock_id e.stock_id

unfoldable pub select : {A : Type 0} → (A → Bool) → List A → List A
select p [] = []
select p (x ∷ xs) = let rest = select p xs in if p x then x ∷ rest else rest

unfoldable pub take : {A : Type 0} → ℕ → List A → List A
take zero xs = []
take (suc n) [] = []
take (suc n) (x ∷ xs) = x ∷ take n xs

abbrev pub all_valid : List Entry → Bool
all_valid [] = true
all_valid (e ∷ es) = valid_id e.stock_id && all_valid es

-- `List` of the transaction: the count, and at most `limit` rows behind the cursor.
abbrev pub counted : String → Tables → ℕ
counted user t = length (entries_of user t.watchlist)

abbrev pub selected : String → Cursor → ℕ → Tables → Result Error (List Entry)
selected user after limit t =
    let rows = take limit (select (is_after after) (watched user t)) in
    if all_valid rows then ok rows else err unavailable

unfoldable pub list_rows : Watch → String → Cursor → ℕ → Act Page
list_rows u user after limit =
    statement (quiet u.env) (λ t. kept t (ok (counted user t))) >>= λ total.
    statement (quiet u.env) (λ t. kept t (selected user after limit t)) >>= λ items.
    pure (record { items = items; total = total; next_cursor = "" })

abbrev pub zero_cursor : Cursor
zero_cursor = record { added_at = 0; stock_id = "" }

-- The cursor that a client sends back.
abbrev pub checked_cursor : Option Cursor → Result Error Cursor
checked_cursor none = err invalid_request
checked_cursor (some c) =
    if not (valid_id c.stock_id) || c.added_at == 0 then err invalid_request else ok c

abbrev pub decoded_cursor : Watch → Option Bytes → Result Error Cursor
decoded_cursor u none = err invalid_request
decoded_cursor u (some raw) =
    if ltb 256 (length raw) then err invalid_request else checked_cursor (u.json.unmarshal raw)

abbrev pub cursor_of : Watch → String → Result Error Cursor
cursor_of u text = if str_eq text "" then ok zero_cursor else decoded_cursor u (Base64.decode text)

unfoldable pub last_of : List Entry → Option Entry
last_of [] = none
last_of (x ∷ []) = some x
last_of (x ∷ y ∷ ys) = last_of (y ∷ ys)

abbrev pub cursor_text : Watch → Option Entry → String
cursor_text u none = ""
cursor_text u (some e) =
    Base64.encode (u.json.marshal (record { added_at = e.added_at; stock_id = e.stock_id }))

-- The row too many shows that there is a next page.
abbrev pub cut : Watch → ℕ → Page → Page
cut u limit page =
    if ltb limit (length page.items)
    then record page {
      items = take limit page.items;
      next_cursor = cursor_text u (last_of (take limit page.items));
    }
    else page

-- `List`
unfoldable pub list : Watch → String → String → ℤ → Act Page
list u token cursor limit =
    fail_if (ltb_ℤ limit (pos 1) || ltb_ℤ (pos 100) limit) invalid_request
    >> (lift (cursor_of u cursor) >>= λ after. authorized u token λ user.
        list_rows u user after (pos_part limit + 1) >>= λ page. pure (cut u (pos_part limit) page))

-- `SELECT stock_id ... WHERE stock_id=ANY($2) ORDER BY stock_id`
abbrev pub found_ids : List String → List Entry → List String
found_ids ids [] = []
found_ids ids (e ∷ es) =
    let rest = found_ids ids es in if str_mem e.stock_id ids then e.stock_id ∷ rest else rest

unfoldable pub check : Watch → String → List String → Act (List String)
check u token ids =
    fail_if (ltb 100 (length ids) || not (all_texts valid_id ids)) invalid_request
    >> (authorized u token λ user.
        statement (quiet u.env)
          λ t. kept t (ok (sort_slice str_lt (found_ids ids (entries_of user t.watchlist)))))

-- `INSERT ... ON CONFLICT(user_id,stock_id) DO NOTHING` and `DELETE`.
abbrev pub is_row : String → String → WatchRow → Bool
is_row user id r = str_eq r.user_id user && str_eq r.stock_id id

unfoldable pub has_row : String → String → List WatchRow → Bool
has_row user id [] = false
has_row user id (r ∷ rs) = is_row user id r || has_row user id rs

abbrev pub add_row : String → String → Time → List WatchRow → List WatchRow
add_row user id now rows =
    if has_row user id rows
    then rows
    else rows ++ record { user_id = user; stock_id = id; added_at = stored_time now } ∷ []

abbrev pub drop_row : String → String → List WatchRow → List WatchRow
drop_row user id rows = select (λ r. not (is_row user id r)) rows

abbrev pub changed : String → String → Bool → Time → List WatchRow → List WatchRow
changed user id true now rows = add_row user id now rows
changed user id false now rows = drop_row user id rows

abbrev pub change_row : Watch → String → String → Bool → Time → Act (Unit {0})
change_row u user id add now =
    statement (quiet u.env)
      λ t. ok (tt, record t { watchlist = changed user id add now t.watchlist })

-- `Change`
unfoldable pub change : Watch → String → String → Bool → Act (Unit {0})
change u token id add =
    fail_if (not (valid_id id)) invalid_request
    >> (authorized u token λ user. asks u.env.now >>= change_row u user id add)
