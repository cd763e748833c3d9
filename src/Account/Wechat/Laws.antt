-- ===== src/Account/Wechat/Laws.antt =====
-- The telephone numbers that the provider of user-service/backend/internal/data/identity/data.go
-- returns.
use Prim.Native.String.{count, ◌++◌}
use tidewise_ai.Prelude.{
  ◌≡◌, sym, Bool, true, false, not, ◌||◌, ◌&&◌, String, ok, err, Bool-cases, inl, inr, ◌≤◌, ap, leb,
  arith, str_eq, leb-le,
}
use tidewise_ai.Prelude.Int.{eqb_ℤ, pos}
use tidewise_ai.Prelude.Text.{all_chars}
use tidewise_ai.Account.{Error, code_invalid, provider}
use tidewise_ai.Account.Act.{World, Act, ◌>>=◌, fail, asks, lift}
use tidewise_ai.Account.Act.Invert.{bind-ok, pure-ok}
use tidewise_ai.Account.Wechat.{
  Client, PhoneFields, phone, phone_of, token, body_of, is_digit, bad_phone, matches_digits,
}

-- A number that `Phone` returns: the country and the number behind a plus sign, 7 to 15 digits.
pub record IsPhone (s : String) : Type 0 where
  pub digits : String
  pub is_plus : s ≡ "+" ++ digits
  pub all_digits : all_chars is_digit digits ≡ true
  pub low : 7 ≤ count digits
  pub high : count digits ≤ 15

no_fail :
    {A B : Type 0} (m : Act A) (e : Error) (w : World) {b : B} {v : World}
    → (m >>= λ _. fail e) w ≡ (ok b, v)
    → ⊥
unfolding fail
no_fail m e w {b} h =
    let (a, x, p, q) = bind-ok m (λ _. fail e) w h in let bad : err e ≡ ok b = ap (λ r. r.0) q in cc

fails_at : {A : Type 0} (e : Error) (w : World) {a : A} {v : World} → fail e w ≡ (ok a, v) → ⊥
unfolding fail
fails_at e w {a} h = let bad : err e ≡ ok a = ap (λ r. r.0) h in cc

last_good : (a b c : Bool) → (a || b || not c) ≡ false → c ≡ true
last_good a b c h = ground arith

three_good : (a b c : Bool) → (a && b && c) ≡ true → (a ≡ true) × (b ≡ true) × (c ≡ true)
three_good a b c h = ground arith

phone_of-IsPhone :
    (client : Client) (used : String) (r : PhoneFields) (w v : World) {s : String}
    → phone_of client used r w ≡ (ok s, v)
    → IsPhone s
phone_of-IsPhone client used r w v {s} h = elim (Bool-cases (eqb_ℤ r.errcode (pos 40029))) [
  | inl e ↦ absurd (fails_at code_invalid w (rw e at h))
  | inr e ↦ elim (Bool-cases (not (eqb_ℤ r.errcode (pos 0)))) [
    | inl f ↦ absurd (no_fail _ provider w (rw (e, f) at h))
    | inr f ↦ elim (Bool-cases (bad_phone client r)) [
      | inl g ↦ absurd (fails_at provider w (rw (e, f, g) at h))
      | inr g ↦
          let (p, _) = pure-ok _ w (rw (e, f, g) at h) in
          let d = r.country_code ++ r.pure_phone_number in
          let (x, y, z) = three_good (all_chars is_digit d) (leb 7 (count d)) (leb (count d) 15) (
            last_good (not (matches_digits 1 4 r.country_code))
              (not (str_eq r.watermark_app_id client.app_id)) _ g) in
          record {
            digits = d;
            is_plus = sym p;
            all_digits = x;
            low = leb-le 7 (count d) y;
            high = leb-le (count d) 15 z;
          }
    ]
  ]
]

-- A telephone number that is returned, and that a login stores, meets the check users_phone_format of
-- the table: a plus sign and 7 to 15 digits.
pub phone-IsPhone :
    (client : Client) (phone_code : String) (w v : World) (s : String)
    → phone client phone_code w ≡ (ok s, v)
    → IsPhone s
unfolding phone
phone-IsPhone client phone_code w v s h =
    let (used, w1, _, k1) = bind-ok (token client) _ w h in
    let (reply, w2, _, k2) =
      bind-ok (asks (λ n. client.getuserphonenumber n used phone_code)) _ w1 k1 in
    let (r, w3, _, k3) = bind-ok (lift (body_of reply)) _ w2 k2 in
    phone_of-IsPhone client used r w3 v k3
