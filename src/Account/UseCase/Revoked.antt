-- ===== src/Account/UseCase/Revoked.antt =====
-- A session that was revoked stays rejected: user-service/backend/internal/biz/identity/biz.go, `Revoke`
-- and `Verify`, with all calls that may come between them.
use mathlib.Core.Path.{subst}
use tidewise_ai.Prelude.{
  ◌≡◌, refl, sym, Bool, true, false, String, Option, none, some, List, [], ◌∷◌, ◌++◌, map,
  if◌then◌else◌,
}
use tidewise_ai.Account.{Bytes, bytes_eq, LoginOptions, Time}
use tidewise_ai.Account.Act.{Tables, World, SessionRow}
use tidewise_ai.Account.Tables.{find_session, ended}
use tidewise_ai.Account.Sessions.{is_revoked}
use tidewise_ai.Account.UseCase.{Service, login, verify, revoke, update_nickname, avatar_of}
use tidewise_ai.Account.UseCase.Moves.{KeepsSessions}
use tidewise_ai.Account.UseCase.Moves.Calls.{
  Moves-login, Moves-verify, Moves-revoke, Moves-update_nickname, Moves-avatar_of,
}

-- The session of a hash, and it is revoked.
abbrev pub IsDead : Option SessionRow → Type 0
IsDead none = ⊥
IsDead (some s) = is_revoked s.revoked_at ≡ true

abbrev pub Dead : Bytes → Tables → Type 0
Dead hash t = IsDead (find_session hash t.sessions)

abbrev Stays : Bytes → Tables → Tables → Type 0
Stays hash t u = Dead hash t → Dead hash u

-- The row that ends or is left as it was.
pub ended_if-hash :
    (b : Bool) (s : SessionRow) (t : Time)
    → (if b then record s { revoked_at = some t } else s).hash ≡ s.hash
ended_if-hash true s t = refl
ended_if-hash false s t = refl

ended_if-revoked :
    (b : Bool) (s : SessionRow) (t : Time)
    → is_revoked s.revoked_at ≡ true
    → is_revoked (if b then record s { revoked_at = some t } else s).revoked_at ≡ true
ended_if-revoked true s t h = refl
ended_if-revoked false s t h = h

both_found :
    (b : Bool) (s r : SessionRow) (x y : Option SessionRow)
    → (is_revoked s.revoked_at ≡ true → is_revoked r.revoked_at ≡ true)
    → (IsDead x → IsDead y)
    → IsDead (if b then some s else x)
    → IsDead (if b then some r else y)
both_found true s r x y f g h = f h
both_found false s r x y f g h = g h

find_session-ends :
    (hash : Bytes) (p : SessionRow → Bool) (now : Time) (ss : List SessionRow)
    → IsDead (find_session hash ss)
    → IsDead (find_session hash (map (ended p now) ss))
unfolding find_session
find_session-ends hash p now [] h = h
find_session-ends hash p now (s ∷ ss) h =
    let same : (ended p now s).hash ≡ s.hash = ended_if-hash _ s _ in
    subst
      (λ x. IsDead (
        if bytes_eq x hash then some (ended p now s) else find_session hash (map (ended p now) ss)))
      (sym same)
      (both_found (bytes_eq s.hash hash) s (ended p now s) (find_session hash ss)
        (find_session hash (map (ended p now) ss)) (ended_if-revoked _ s _)
        (find_session-ends hash p now ss) h)

find_session-adds :
    (hash : Bytes) (s : SessionRow) (ss : List SessionRow)
    → IsDead (find_session hash ss)
    → IsDead (find_session hash (ss ++ s ∷ []))
unfolding find_session
find_session-adds hash s [] h = absurd h
find_session-adds hash s (r ∷ rs) h =
    both_found (bytes_eq r.hash hash) r r (find_session hash rs) (find_session hash (rs ++ s ∷ []))
      (λ q. q) (find_session-adds hash s rs) h

keeps_dead : (hash : Bytes) → KeepsSessions (Stays hash)
keeps_dead hash = record {
  order = record { same = λ t h. h; both = λ t u v f g h. g (f h) };
  aside = λ t u e h. subst (λ x. IsDead (find_session hash x)) (sym e) h;
  ends = λ t p now. find_session-ends hash p now t.sessions;
  adds = λ t s _. find_session-adds hash s t.sessions;
}

-- One call, and any number of calls, of the service.
pub data Step (u : Service) (w : World) : World → Type 0 where
  logs_in :
      (js_code previous : String) (opt : LoginOptions) → Step u w (login u js_code previous opt w).1
  verifies : (word : String) → Step u w (verify u word w).1
  revokes : (word : String) → Step u w (revoke u word w).1
  renames :
      (word nickname : String) (o : Option Bytes) → Step u w (update_nickname u word nickname o w).1
  shows : (word : String) → Step u w (avatar_of u word w).1

pub data Steps (u : Service) (w : World) : World → Type 0 where
  here : Steps u w w
  more : {v x : World} → Steps u w v → Step u v x → Steps u w x

Step-Dead :
    (hash : Bytes) {u : Service} {w v : World}
    → Step u w v
    → Dead hash w.tables
    → Dead hash v.tables
Step-Dead hash {u} {w} (logs_in js_code previous opt) =
    (Moves-login (Stays hash) (keeps_dead hash) u js_code previous opt).at w
Step-Dead hash {u} {w} (verifies word) = (Moves-verify (Stays hash) (keeps_dead hash) u word).at w
Step-Dead hash {u} {w} (revokes word) = (Moves-revoke (Stays hash) (keeps_dead hash) u word).at w
Step-Dead hash {u} {w} (renames word nickname o) =
    (Moves-update_nickname (Stays hash) (keeps_dead hash) u word nickname o).at w
Step-Dead hash {u} {w} (shows word) = (Moves-avatar_of (Stays hash) (keeps_dead hash) u word).at w

pub Steps-Dead :
    (hash : Bytes) {u : Service} {w v : World}
    → Steps u w v
    → Dead hash w.tables
    → Dead hash v.tables
Steps-Dead hash here h = h
Steps-Dead hash (more s t) h = Step-Dead hash t (Steps-Dead hash s h)
