-- ===== src/Source/Keeps.antt =====
-- Invariants of transactions: one rule for each way to build one.
use tidewise_ai.Prelude.{◌≡◌, sym, Result, ok, err, Result-cases, inl, inr, arith}
use mathlib.Core.Path.{subst}
use tidewise_ai.Source.{Error, Store}
use tidewise_ai.Source.Tx.{
  Tx, pure, fail, lift, reads, changes, ◌>>=◌, in_transaction, in_transaction-ok,
  in_transaction-err, bind-ok,
}

-- `m` keeps `P` where it returns.
pub record Keeps {S A : Type 0} (P : S → Type 0) (m : Tx S A) : Type 0 where
  pub at : (s : S) (a : A) (t : S) → m s ≡ ok (a, t) → P s → P t

module _ {S A : Type 0} {P : S → Type 0} where
  pub Keeps-pure : (a : A) → Keeps P (pure a)
  Keeps-pure a = record { at = λ s b t h p. subst P (cc) p }

  pub Keeps-fail : (e : Error) → Keeps P (fail {A = A} e)
  Keeps-fail e = record { at = λ s b t h p. absurd (cc) }

  pub Keeps-lift : (r : Result Error A) → Keeps P (lift r)
  Keeps-lift (ok a) = Keeps-pure a
  Keeps-lift (err e) = Keeps-fail e

  pub Keeps-reads : (q : S → Result Error A) → Keeps P (reads q)
  Keeps-reads q = record {
    at = λ s b t h p. elim (Result-cases (q s)) [
      | inl (a, e) ↦ subst P (ground arith) p
      | inr (e, bad) ↦ absurd (ground arith)
    ];
  }

module _ {S : Type 0} {P : S → Type 0} where
  pub Keeps-changes :
      (q : S → Result Error S) → ((s t : S) → q s ≡ ok t → P s → P t) → Keeps P (changes q)
  Keeps-changes q keep = record { at = λ s b t h p. keep s t (ground arith) p }

module _ {S A B : Type 0} {P : S → Type 0} where
  pub Keeps-bind :
      (m : Tx S A) (f : A → Tx S B) → Keeps P m → ((a : A) → Keeps P (f a)) → Keeps P (m >>= f)
  Keeps-bind m f km kf = record {
    at = λ s b t h p.
        let (a, u, first, rest) = bind-ok m f s h in (kf a).at u b t rest (km.at s a u first p);
  }

module _ {S A : Type 0} {P : S → Type 0} (store : Store S) where
  -- An invariant of the frame and of the callback is one of the whole, also where it fails.
  pub Keeps-in_transaction :
      ((s t : S) → store.begin s ≡ ok t → P s → P t)
      → ((s t : S) → store.commit s ≡ ok t → P s → P t)
      → (run : Tx S A) → Keeps P run
      → (s : S) → P s
      → P (in_transaction store run s).1
  Keeps-in_transaction kb kc run kr s p = elim (Result-cases (in_transaction store run s).0) [
    | inr (e, h) ↦ subst P (sym (in_transaction-err store run s h)) p
    | inl (a, h) ↦
        let (begun, done, b, r, c) = in_transaction-ok store run s h in
        kc done (in_transaction store run s).1 c (kr.at begun a done r (kb s begun b p))
  ]

pub ruleset keeps_rules = (Keeps-pure, Keeps-fail, Keeps-lift, Keeps-reads, Keeps-bind)
