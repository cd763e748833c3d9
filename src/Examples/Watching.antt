-- ===== src/Examples/Watching.antt =====
-- The watch list of a user, by pages and changed.
use tidewise_ai.Prelude.{
  ℕ, ◌+◌, ◌≡◌, ◌≢◌, refl, String, Bool, true, false, Option, none, some, List, [], ◌∷◌, ok, err,
  arith, ◌==◌, if◌then◌else◌, All, str_eq_ne,
}
use tidewise_ai.Account.{Bytes}
use tidewise_ai.Account.Act.{World}
use tidewise_ai.Stock.Search.{matches_stock_id, match_runs}
use tidewise_ai.Watchlist.{Entry, Cursor, CursorJson, Watch, valid_id}
use tidewise_ai.Watchlist.Calls.{change, counted, watched, entries_of, select}
use tidewise_ai.Watchlist.Order.{Once}
use tidewise_ai.Watchlist.Listed.{Serves}
use tidewise_ai.Watchlist.Walk.{walk, IsRow, walk-watched}
use tidewise_ai.Watchlist.Change.{Authorized, IsChange, change-IsChange}
use tidewise_ai.Examples.Service.{alice, environment, stock_a, stock_b, tables, word, world}
use tidewise_ai.Examples.Accounts.{account_code}

abbrev first_cursor : Cursor
first_cursor = record { added_at = 2000; stock_id = stock_a }

abbrev second_cursor : Cursor
second_cursor = record { added_at = 3000; stock_id = stock_b }

abbrev read_cursor : Bytes → Option Cursor
read_cursor [] = none
read_cursor (b ∷ bs) = some (if b == 1 then first_cursor else second_cursor)

abbrev watch : Watch
watch = record {
  app_id = "app";
  env = record environment { now = λ n. 5_000_000 };
  json = record {
    marshal = λ c. (if c.added_at == 2000 then 1 else 2) ∷ [];
    unmarshal = read_cursor;
  };
}

serves : Serves watch word alice tables
unfolding account_code
serves = record {
  hash = 1 ∷ [];
  owner = record {
    user_id = alice;
    status = "active";
    app_id = "app";
    expires_at = 900_000_000;
    revoked = false;
  };
  hashed = refl;
  owned = refl;
  is_user = refl;
  lasts = λ n. refl;
  active = refl;
  answers = λ n. refl;
}

rows : All (IsRow watch.json) (entries_of alice tables.watchlist)
unfolding matches_stock_id match_runs tidewise_ai.Prelude.Text.strip_prefix
rows = (
  record {
    valid = refl;
    timed = refl;
    whole = refl;
    encodes = record {
      read_back = refl;
      bytes = (omega arith, tt);
      some_bytes = omega arith;
      few_bytes = omega arith;
    };
  },
  (
    record {
      valid = refl;
      timed = refl;
      whole = refl;
      encodes = record {
        read_back = refl;
        bytes = (omega arith, tt);
        some_bytes = omega arith;
        few_bytes = omega arith;
      };
    },
    tt,
  ),
)

once : Once (entries_of alice tables.watchlist)
once = ((str_eq_ne refl, tt), (tt, tt))

walk-watched_example :
    (v : World) × (walk watch word 1 (counted alice tables + 1) "" world
      ≡ (ok (watched alice tables), v))
walk-watched_example =
    walk-watched watch word alice tables serves 1 world (omega arith) (omega arith) rows once refl

change-IsChange_example :
    (user : String) × Authorized watch word world.tables user
    × (valid_id stock_a ≡ true)
    × IsChange user stock_a false world.tables.watchlist
        (change watch word stock_a false world).1.tables.watchlist
unfolding account_code change tidewise_ai.Watchlist.authorized matches_stock_id match_runs
    tidewise_ai.Prelude.Text.strip_prefix select
change-IsChange_example =
    change-IsChange watch word stock_a false world (change watch word stock_a false world).1 refl
