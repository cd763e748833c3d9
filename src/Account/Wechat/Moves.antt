-- ===== src/Account/Wechat/Moves.antt =====
-- The provider of user-service/backend/internal/data/identity/data.go leaves the tables alone.
use tidewise_ai.Prelude.{String, not}
use Prim.Native.String.{◌++◌}
use tidewise_ai.Prelude.Int.{eqb_ℤ, pos}
use tidewise_ai.Account.{code_invalid, provider, Time}
use tidewise_ai.Account.Act.{Tables}
use tidewise_ai.Account.Act.Laws.{
  Order, Moves, Moves-bind, Moves-choice, Moves-pure, Moves-fail, Moves-lift, Moves-asks,
  Moves-fail_if,
}
use tidewise_ai.Account.Wechat.{
  Client, exchange, token, phone, put_token, TokenFields, PhoneFields, new_token, drop_token,
  cached_or_new, phone_of, is_fresh, is_stale_code, bad_phone,
}

module _ {R : Tables → Tables → Type 0} (o : Order R) where
  pub Moves-exchange : (client : Client) (js_code : String) → Moves R (exchange client js_code)
  unfolding exchange
  Moves-exchange client js_code =
      Moves-bind o (Moves-asks o _) λ reply. Moves-bind o (Moves-lift o _) λ r. Moves-lift o _

  Moves-put_token : (r : TokenFields) (now : Time) → Moves R (put_token r now)
  unfolding put_token
  Moves-put_token r now = record { at = λ w. o.same w.tables }

  Moves-new_token : (client : Client) → Moves R (new_token client)
  unfolding new_token
  Moves-new_token client = Moves-bind o (Moves-asks o _) λ reply.
      Moves-bind o (Moves-lift o _) λ r.
        Moves-bind o (Moves-fail_if o _ _) λ _. Moves-bind o (Moves-asks o _) (Moves-put_token r)

  Moves-cached : (client : Client) (now : Time) → Moves R (cached_or_new client now)
  unfolding cached_or_new
  Moves-cached client now = record {
    at = λ w.
        (Moves-choice (is_fresh w.cache now) (Moves-pure o w.cache.access_token)
            (Moves-new_token client)).at
          w;
  }

  Moves-drop_token : (used : String) → Moves R (drop_token used)
  unfolding drop_token
  Moves-drop_token used = record { at = λ w. o.same w.tables }

  Moves-phone_of :
      (client : Client) (used : String) (r : PhoneFields) → Moves R (phone_of client used r)
  Moves-phone_of client used r =
      Moves-choice (eqb_ℤ r.errcode (pos 40029)) (Moves-fail o code_invalid) (
        Moves-choice (not (eqb_ℤ r.errcode (pos 0)))
          (Moves-bind o
            (Moves-choice (is_stale_code r.errcode) (Moves-drop_token used) (Moves-pure o tt))
            λ _. Moves-fail o provider)
          (Moves-choice (bad_phone client r) (Moves-fail o provider)
            (Moves-pure o ("+" ++ r.country_code ++ r.pure_phone_number))))

  pub Moves-phone : (client : Client) (phone_code : String) → Moves R (phone client phone_code)
  unfolding phone token
  Moves-phone client phone_code =
      Moves-bind o
        (Moves-bind o (Moves-asks o _) λ stop.
          Moves-bind o (Moves-fail_if o _ _)
            λ _. Moves-bind o (Moves-asks o _) (Moves-cached client))
        λ used.
          Moves-bind o (Moves-asks o _)
            λ reply. Moves-bind o (Moves-lift o _) (Moves-phone_of client used)
