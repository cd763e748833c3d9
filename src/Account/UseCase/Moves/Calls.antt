-- ===== src/Account/UseCase/Moves/Calls.antt =====
-- A relation that the statements on sessions keep is kept by the calls of
-- user-service/backend/internal/biz/identity/biz.go.
use tidewise_ai.Prelude.{ℕ, zero, suc, String, Option, none, some, str_eq, Bool-cases, inl, inr}
use tidewise_ai.Account.{Bytes, Time, State, Session, LoginOptions, Profile}
use tidewise_ai.Account.Act.{Tables, Act}
use tidewise_ai.Account.Act.Laws.{
  Moves, Moves-bind, Moves-choice, Moves-pure, Moves-fail, Moves-lift, Moves-asks, Moves-fail_if,
  Moves-within,
}
use tidewise_ai.Account.Wechat.{}
use tidewise_ai.Account.Wechat.Moves.{Moves-exchange, Moves-phone}
use tidewise_ai.Account.UseCase.{
  Service, Login, attempt, attempts, admitted, login, verify, revoke, update_nickname, avatar_of,
  create_state, admit, raw_token, authorized, change_profile, change_avatar, is_conflict,
}
use tidewise_ai.Account.UseCase.Moves.{
  KeepsSessions, Moves-find, Moves-lookup, Moves-stored_avatar, Moves-revoke_session,
  Moves-set_nickname, Moves-set_avatar, Moves-create, Moves-save,
}

module _ (R : Tables → Tables → Type 0) (k : KeepsSessions R) where
  Moves-create_state : (u : Service) (who : Profile) (now : Time) → Moves R (create_state u who now)
  Moves-create_state u who now = Moves-bind k.order (Moves-asks k.order _) λ user.
      Moves-bind k.order (Moves-asks k.order _)
        λ identity. Moves-bind k.order (Moves-create R k u.env _ now) λ _. Moves-pure k.order _

  Moves-admit :
      (u : Service) (l : Login) (now : Time) (state : State) → Moves R (admit u l now state)
  Moves-admit u l now state =
      Moves-bind k.order
        (Moves-bind k.order (Moves-fail_if k.order _ _) λ _. Moves-fail_if k.order _ _)
        λ _. Moves-bind k.order (Moves-asks k.order _) λ id.
          Moves-bind k.order (Moves-save R k u.env _ _ now l.previous) λ _. Moves-pure k.order _

  Moves-attempt : (u : Service) (l : Login) → Moves R (attempt u l)
  Moves-attempt u l = Moves-bind k.order (Moves-find R k u.env u.app_id l.who.open_id) λ state.
      Moves-bind k.order (Moves-asks k.order _) λ now.
        Moves-bind k.order
          (Moves-choice (str_eq state.identity_id "") (Moves-create_state u l.who now)
            (Moves-pure k.order state))
          (Moves-admit u l now)

  Moves-attempts : {A : Type 0} (n : ℕ) (m : Act A) → Moves R m → Moves R (attempts n m)
  unfolding attempts
  Moves-attempts zero m h = record { at = λ w. k.order.same w.tables }
  Moves-attempts (suc n) m h = record {
    at = λ w. elim (Bool-cases (is_conflict (m w).0)) [
      | inl e ↦ rw e (k.order.both _ _ _ (h.at w) ((Moves-attempts n m h).at (m w).1))
      | inr e ↦ rw e (h.at w)
    ];
  }

  Moves-admitted : (u : Service) (l : Login) → Moves R (admitted u l)
  unfolding admitted
  Moves-admitted u l = record {
    at = (Moves-attempts 3 _ (Moves-within k.order u.env _ (Moves-attempt u l))).at;
  }

  Moves-raw_token : (o : Option Bytes) → Moves R (raw_token o)
  Moves-raw_token none = Moves-fail k.order _
  Moves-raw_token (some raw) = Moves-pure k.order raw

  pub Moves-login :
      (u : Service) (js_code previous : String) (opt : LoginOptions)
      → Moves R (login u js_code previous opt)
  unfolding login
  Moves-login u js_code previous opt = Moves-bind k.order (Moves-fail_if k.order _ _) λ _.
      Moves-bind k.order (Moves-lift k.order _) λ hash.
        Moves-bind k.order (Moves-exchange k.order u.client js_code) λ who.
          Moves-bind k.order
            (Moves-choice (str_eq opt.phone_code "") (Moves-pure k.order "")
              (Moves-phone k.order u.client opt.phone_code))
            λ number.
              Moves-bind k.order (Moves-bind k.order (Moves-asks k.order _) Moves-raw_token)
                λ raw. Moves-bind k.order (Moves-admitted u _) λ session. Moves-pure k.order _

  Moves-authorized : (u : Service) (s : Session) → Moves R (authorized u s)
  Moves-authorized u s =
      Moves-bind k.order (Moves-asks k.order _)
        λ now. Moves-bind k.order (Moves-fail_if k.order _ _) λ _. Moves-fail_if k.order _ _

  pub Moves-verify : (u : Service) (word : String) → Moves R (verify u word)
  unfolding verify
  Moves-verify u word = Moves-bind k.order (Moves-lift k.order _) λ hash.
      Moves-bind k.order (Moves-lookup R k u.env hash)
        λ s. Moves-bind k.order (Moves-authorized u s) λ _. Moves-pure k.order s

  pub Moves-revoke : (u : Service) (word : String) → Moves R (revoke u word)
  unfolding revoke
  Moves-revoke u word = Moves-bind k.order (Moves-lift k.order _) λ hash.
      Moves-bind k.order (Moves-asks k.order _)
        λ now. Moves-revoke_session R k u.env hash u.app_id now

  Moves-change_avatar :
      (u : Service) (user : String) (o : Option Bytes) → Moves R (change_avatar u user o)
  Moves-change_avatar u user none = Moves-pure k.order tt
  Moves-change_avatar u user (some image) =
      Moves-bind k.order (Moves-asks k.order _) λ now. Moves-set_avatar R k u.env user image now _

  Moves-change_profile :
      (u : Service) (hash : Bytes) (nickname : String) (o : Option Bytes)
      → Moves R (change_profile u hash nickname o)
  Moves-change_profile u hash nickname o = Moves-bind k.order (Moves-lookup R k u.env hash) λ s.
      Moves-bind k.order
        (Moves-bind k.order
          (Moves-bind k.order (Moves-authorized u s) λ _.
            Moves-bind k.order (Moves-asks k.order _)
              λ now. Moves-set_nickname R k u.env s.user_id nickname)
          λ _. Moves-change_avatar u s.user_id o)
        λ _. Moves-pure k.order _

  pub Moves-update_nickname :
      (u : Service) (word nickname : String) (o : Option Bytes)
      → Moves R (update_nickname u word nickname o)
  unfolding update_nickname
  Moves-update_nickname u word nickname o = Moves-bind k.order (Moves-fail_if k.order _ _) λ _.
      Moves-bind k.order (Moves-lift k.order _) λ hash.
        Moves-bind k.order (Moves-lift k.order _)
          λ image. Moves-within k.order u.env _ (Moves-change_profile u hash _ image)

  pub Moves-avatar_of : (u : Service) (word : String) → Moves R (avatar_of u word)
  unfolding avatar_of
  Moves-avatar_of u word = Moves-bind k.order (Moves-lift k.order _) λ hash.
      Moves-within k.order u.env _ (
        Moves-bind k.order (Moves-lookup R k u.env hash) λ s.
          Moves-bind k.order (Moves-authorized u s) λ _. Moves-stored_avatar R k u.env s.user_id)
