-- ===== src/Source/Tx.antt =====
-- A transaction callback as a state and error monad, and the frame that runs it:
-- data-service/backend/internal/data/source/transaction.go, `InTransaction`.
use tidewise_ai.Prelude.{◌≡◌, refl, inl, inr, Result, ok, err, Result-cases, arith}
use tidewise_ai.Source.{Error, Store}

abbrev pub Tx : Type 0 → Type 0 → Type 0
Tx S A = S → Result Error (A × S)

module _ {S A : Type 0} where
  abbrev pub pure : A → Tx S A
  pure a s = ok (a, s)

  abbrev pub fail : Error → Tx S A
  fail e s = err e

  abbrev pub lift : Result Error A → Tx S A
  lift (ok a) s = ok (a, s)
  lift (err e) s = err e

  -- A statement that only reads the state.
  abbrev pub reads : (S → Result Error A) → Tx S A
  reads q s = elim (q s) [ ok a ↦ ok (a, s) | err e ↦ err e ]

-- A statement that only changes the state.
abbrev pub changes : {S : Type 0} → (S → Result Error S) → Tx S Unit
changes q s = elim (q s) [ ok t ↦ ok (tt, t) | err e ↦ err e ]

module _ {S A B : Type 0} where
  abbrev pub next : Result Error (A × S) → (A → Tx S B) → Result Error (B × S)
  next (ok (a, s)) f = f a s
  next (err e) f = err e

  infixl 5 ◌>>=◌ ◌>>◌
  abbrev pub ◌>>=◌ : Tx S A → (A → Tx S B) → Tx S B
  ◌>>=◌ m f s = next (m s) f

  abbrev pub ◌>>◌ : Tx S A → Tx S B → Tx S B
  m >> k = m >>= λ _. k

  -- Inversion of a successful bind.
  pub bind-ok :
      (m : Tx S A) (f : A → Tx S B) (s : S) {r : B × S}
      → (m >>= f) s ≡ ok r
      → (a : A) × (t : S) × (m s ≡ ok (a, t)) × (f a t ≡ ok r)
  bind-ok m f s {r} = from_next (m s)
    where
      from_next :
          (x : Result Error (A × S))
          → next x f ≡ ok r
          → (a : A) × (t : S) × (x ≡ ok (a, t)) × (f a t ≡ ok r)
      from_next (ok (a, t)) h = (a, t, refl, h)
      from_next (err e) h = cc

-- What a statement did that succeeded.
pub reads-ok :
    {S A : Type 0} (q : S → Result Error A) (s : S) {a : A} {t : S}
    → reads q s ≡ ok (a, t)
    → (q s ≡ ok a) × (t ≡ s)
reads-ok q s h = elim (Result-cases (q s)) [
  | inl (a, e) ↦ (ground arith, ground arith)
  | inr (e, bad) ↦ absurd (ground arith)
]

pub changes-ok :
    {S : Type 0} (q : S → Result Error S) (s : S) {t : S} → changes q s ≡ ok (tt, t) → q s ≡ ok t
changes-ok q s h = ground arith

module _ {S A : Type 0} (store : Store S) where
  abbrev finish : S → Result Error (A × S) → Result Error A × S
  finish s (err e) = (err e, s)
  finish s (ok (a, t)) = elim (store.commit t) [ err e ↦ (err e, s) | ok u ↦ (ok a, u) ]

  -- BeginTx, the callback, Commit; every error rolls back to the state before.
  unfoldable pub in_transaction : Tx S A → S → Result Error A × S
  in_transaction run s = elim (store.begin s) [
    | err e ↦ (err e, s)
    | ok begun ↦ finish s (run begun)
  ]

  -- A transaction that fails leaves the store as it was.
  pub in_transaction-err :
      (run : Tx S A) (s : S) {e : Error}
      → (in_transaction run s).0 ≡ err e
      → (in_transaction run s).1 ≡ s
  unfolding in_transaction
  in_transaction-err run s h = ground arith

  -- A transaction that returns has begun, run and committed.
  pub in_transaction-ok :
      (run : Tx S A) (s : S) {a : A}
      → (in_transaction run s).0 ≡ ok a
      → (begun done : S) × (store.begin s ≡ ok begun)
        × (run begun ≡ ok (a, done))
        × (store.commit done ≡ ok (in_transaction run s).1)
  unfolding in_transaction
  in_transaction-ok run s {a} h = elim (Result-cases (store.begin s)) [
    | inr (e, p) ↦ absurd (ground arith)
    | inl (begun, p) ↦ elim (Result-cases (run begun)) [
      | inr (e, q) ↦ absurd (ground arith)
      | inl ((b, done), q) ↦ elim (Result-cases (store.commit done)) [
        | inr (e, r) ↦ absurd (ground arith)
        | inl (kept, r) ↦ (begun, done, p, ground arith, ground arith)
      ]
    ]
  ]
