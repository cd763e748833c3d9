-- ===== src/Account/Base64/Laws.antt =====
-- What base64 writes is read back: user-service/backend/internal/biz/identity/biz.go relies on it
-- where it makes a token and hashes it at once.
use Prim.Native.Char.{code, len_utf8}
use Prim.Native.String.{len}
use Prim.Native.String.len.{cons}
use tidewise_ai.Prelude.{
  ℕ, zero, suc, ◌+◌, ◌*◌, ◌/◌, ◌%◌, ◌<◌, ◌≤◌, ◌≡◌, refl, String, Bool, true, ◌&&◌, not, Option,
  some, none, List, [], ◌∷◌, ◌==◌, ◌||◌, arith, length, All, ap, inl, inr, Bool-cases, false,
}
use tidewise_ai.Account.{Bytes}
use tidewise_ai.Account.Base64.{char_at, letter, sextet, encode, sextets, push_sextet, join, decode}

eq_some : ℕ → Option ℕ → Bool
eq_some d none = false
eq_some d (some e) = d == e

-- The character of a number is read back, and it is one byte that is no line end.
abbrev reads_back : ℕ → Bool
reads_back d =
    eq_some d (sextet (code (letter d)))
    && not (code (letter d) == 10 || code (letter d) == 13)
    && len_utf8 (letter d) == 1

read_back_from : ℕ → ℕ → Bool
unfolding letter sextet char_at eq_some
read_back_from d zero = true
read_back_from d (suc more) = reads_back d && read_back_from (suc d) more

read_back_at :
    (more d k : ℕ) → read_back_from d more ≡ true → d ≤ k → k < d + more → reads_back k ≡ true
unfolding read_back_from
read_back_at zero d k h p q = absurd (omega arith)
read_back_at (suc more) d k h p q = elim (Bool-cases (d == k)) [
  | inl e ↦ let same : d ≡ k = ground arith in rw (← same) (ground arith)
  | inr e ↦ read_back_at more (suc d) k (ground arith) (ground arith) (omega arith)
]

all_read_back : read_back_from 0 64 ≡ true
unfolding read_back_from letter sextet char_at eq_some
all_read_back = refl

reads_back-letter : (d : ℕ) → d < 64 → reads_back d ≡ true
reads_back-letter d h = read_back_at 64 0 d all_read_back (omega arith) (omega arith)

eq_some-to : (d : ℕ) (o : Option ℕ) → eq_some d o ≡ true → o ≡ some d
unfolding eq_some
eq_some-to d none h = cc
eq_some-to d (some e) h = ap some (ground arith)

sextets-letter :
    (d : ℕ) (s : String)
    → d < 64
    → sextets (String.◌∷◌ (letter d) s) ≡ push_sextet (some d) (sextets s)
unfolding sextets
sextets-letter d s h =
    let all : reads_back d ≡ true = reads_back-letter d h in
    let e : sextet (code (letter d)) ≡ some d = eq_some-to d _ (ground (arith, all)) in
    let p : (code (letter d) == 10 || code (letter d) == 13) ≡ false = ground (arith, all) in
    rw (p, e)

len_letter : (d : ℕ) → d < 64 → len_utf8 (letter d) ≡ 1
len_letter d h = let all = reads_back-letter d h in ground (arith, all)

join_one : (a : ℕ) → a < 256 → join (a / 4 ∷ (a % 4 * 16) ∷ []) ≡ some (a ∷ [])
unfolding join
join_one a h =
    let e : a / 4 * 4 + a % 4 * 16 / 16 ≡ a = omega arith in
    let t : (a % 4 * 16 % 16 == 0) ≡ true = ground arith in rw (t, e)

join_two :
    (a b : ℕ)
    → a < 256
    → b < 256
    → join (a / 4 ∷ (a % 4 * 16 + b / 16) ∷ (b % 16 * 4) ∷ []) ≡ some (a ∷ b ∷ [])
unfolding join
join_two a b h k =
    let e : a / 4 * 4 + (a % 4 * 16 + b / 16) / 16 ≡ a = omega arith in
    let f : (a % 4 * 16 + b / 16) % 16 * 16 + b % 16 * 4 / 4 ≡ b = omega arith in
    let t : (b % 16 * 4 % 4 == 0) ≡ true = ground arith in rw (t, e, f)

join_three :
    (a b c : ℕ) (ds : List ℕ) {bs : List ℕ}
    → a < 256
    → b < 256
    → c < 256
    → join ds ≡ some bs
    → join (a / 4 ∷ (a % 4 * 16 + b / 16) ∷ (b % 16 * 4 + c / 64) ∷ c % 64 ∷ ds)
      ≡ some (a ∷ b ∷ c ∷ bs)
unfolding join
join_three a b c ds h k l rest =
    let e : a / 4 * 4 + (a % 4 * 16 + b / 16) / 16 ≡ a = omega arith in
    let f : (a % 4 * 16 + b / 16) % 16 * 16 + (b % 16 * 4 + c / 64) / 4 ≡ b = omega arith in
    let g : (b % 16 * 4 + c / 64) % 4 * 64 + c % 64 ≡ c = omega arith in rw (rest, e, f, g)

sextets_none : sextets "" ≡ some []
unfolding sextets
sextets_none = refl

join_none : join [] ≡ some []
unfolding join
join_none = refl

-- The numbers that the characters of a written text stand for.
numbers :
    (bs : Bytes)
    → All (λ b. b < 256) bs
    → (ds : List ℕ) × (sextets (encode bs) ≡ some ds) × (join ds ≡ some bs)
unfolding encode
numbers [] h = ([], sextets_none, join_none)
numbers (a ∷ []) h = (
  a / 4 ∷ (a % 4 * 16) ∷ [],
  rw (
    sextets-letter (a / 4) _ (omega (arith, h.0)),
    sextets-letter (a % 4 * 16) _ (omega arith),
    sextets_none,
  ),
  join_one a h.0,
)
numbers (a ∷ b ∷ []) h =
    let p : a < 256 = h.0 in
    let q : b < 256 = h.1.0 in
    (
      a / 4 ∷ (a % 4 * 16 + b / 16) ∷ (b % 16 * 4) ∷ [],
      rw (
        sextets-letter (a / 4) _ (omega arith),
        sextets-letter (a % 4 * 16 + b / 16) _ (omega arith),
        sextets-letter (b % 16 * 4) _ (omega arith),
        sextets_none,
      ),
      join_two a b p q,
    )
numbers (a ∷ b ∷ c ∷ bs) h =
    let p : a < 256 = h.0 in
    let q : b < 256 = h.1.0 in
    let r : c < 256 = h.1.1.0 in
    let (ds, e, f) = numbers bs h.1.1.1 in
    (
      a / 4 ∷ (a % 4 * 16 + b / 16) ∷ (b % 16 * 4 + c / 64) ∷ c % 64 ∷ ds,
      rw (
        sextets-letter (a / 4) _ (omega arith),
        sextets-letter (a % 4 * 16 + b / 16) _ (omega arith),
        sextets-letter (b % 16 * 4 + c / 64) _ (omega arith),
        sextets-letter (c % 64) _ (omega arith),
        e,
      ),
      join_three a b c ds p q r f,
    )

pub decode-encode : (bs : Bytes) → All (λ b. b < 256) bs → decode (encode bs) ≡ some bs
unfolding decode
decode-encode bs h = let (ds, e, f) = numbers bs h in rw (e, f)

-- A written text has four characters for three bytes, rounded up.
pub len-encode :
    (bs : Bytes)
    → All (λ b. b < 256) bs
    → (4 * length bs ≤ 3 * len (encode bs)) × (3 * len (encode bs) ≤ 4 * length bs + 2)
unfolding encode
len-encode [] h = omega arith
len-encode (a ∷ []) h =
    let p : a < 256 = h.0 in
    rw (cons, cons, len_letter (a / 4) (omega arith), len_letter (a % 4 * 16) (omega arith))
      (omega arith)
len-encode (a ∷ b ∷ []) h =
    let p : a < 256 = h.0 in
    let q : b < 256 = h.1.0 in
    rw
      (
        cons,
        cons,
        cons,
        len_letter (a / 4) (omega arith),
        len_letter (a % 4 * 16 + b / 16) (omega arith),
        len_letter (b % 16 * 4) (omega arith),
      )
      (omega arith)
len-encode (a ∷ b ∷ c ∷ bs) h =
    let p : a < 256 = h.0 in
    let q : b < 256 = h.1.0 in
    let r : c < 256 = h.1.1.0 in
    let rest = len-encode bs h.1.1.1 in
    rw
      (
        cons,
        cons,
        cons,
        cons,
        len_letter (a / 4) (omega arith),
        len_letter (a % 4 * 16 + b / 16) (omega arith),
        len_letter (b % 16 * 4 + c / 64) (omega arith),
        len_letter (c % 64) (omega arith),
      )
      (omega (arith, rest))
