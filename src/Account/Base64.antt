-- ===== src/Account/Base64.antt =====
-- base64.RawURLEncoding, and its Strict variant, of the package encoding/base64.
pub mod Laws
use Prim.Native.Char.{Char, code}
use tidewise_ai.Prelude.{
  ℕ, zero, suc, ◌+◌, ◌-◌, ◌*◌, ◌/◌, ◌%◌, String, Bool, ◌&&◌, ◌||◌, Option, none, some, List, [],
  ◌∷◌, leb, ◌==◌, if◌then◌else◌,
}
use tidewise_ai.Account.{Bytes}

unfoldable pub char_at : ℕ → String → Char
char_at n String.[] = "A"
char_at zero (String.◌∷◌ c s) = c
char_at (suc n) (String.◌∷◌ c s) = char_at n s

-- The character of a six-bit number.
unfoldable pub letter : ℕ → Char
unfolding char_at
letter d = char_at d "ABCDEFGHIJKLMNOPQRSTUVWXYZabcdefghijklmnopqrstuvwxyz0123456789-_"

unfoldable pub sextet : ℕ → Option ℕ
sextet c =
    if leb b'A' c && leb c b'Z'
    then some (c - b'A')
    else if leb b'a' c && leb c b'z'
    then some (c - b'a' + 26)
    else if leb b'0' c && leb c b'9'
    then some (c - b'0' + 52)
    else if c == b'-'
    then some 62
    else if c == b'_'
    then some 63
    else none

-- `EncodeToString`
unfoldable pub encode : Bytes → String
encode [] = ""
encode (a ∷ []) = String.◌∷◌ (letter (a / 4)) (String.◌∷◌ (letter (a % 4 * 16)) "")
encode (a ∷ b ∷ []) =
    String.◌∷◌ (letter (a / 4))
      (String.◌∷◌ (letter (a % 4 * 16 + b / 16)) (String.◌∷◌ (letter (b % 16 * 4)) ""))
encode (a ∷ b ∷ c ∷ rest) = String.◌∷◌ (letter (a / 4)) (
    String.◌∷◌ (letter (a % 4 * 16 + b / 16))
      (String.◌∷◌ (letter (b % 16 * 4 + c / 64)) (String.◌∷◌ (letter (c % 64)) (encode rest))))

abbrev pub push_sextet : Option ℕ → Option (List ℕ) → Option (List ℕ)
push_sextet none rest = none
push_sextet (some d) none = none
push_sextet (some d) (some ds) = some (d ∷ ds)

-- The six-bit numbers of a text; line ends are skipped.
unfoldable pub sextets : String → Option (List ℕ)
sextets String.[] = some []
sextets (String.◌∷◌ c s) =
    let rest = sextets s in
    if code c == 10 || code c == 13 then rest else push_sextet (sextet (code c)) rest

abbrev pub push_group : ℕ → ℕ → ℕ → Option Bytes → Option Bytes
push_group a b c none = none
push_group a b c (some bs) = some (a ∷ b ∷ c ∷ bs)

-- Four numbers make three bytes; at the end two make one and three make two, whose bits that are left
-- over have to be zero.
unfoldable pub join : List ℕ → Option Bytes
join [] = some []
join (a ∷ []) = none
join (a ∷ b ∷ []) = if b % 16 == 0 then some ((a * 4 + b / 16) ∷ []) else none
join (a ∷ b ∷ c ∷ []) =
    if c % 4 == 0 then some ((a * 4 + b / 16) ∷ (b % 16 * 16 + c / 4) ∷ []) else none
join (a ∷ b ∷ c ∷ d ∷ rest) =
    push_group (a * 4 + b / 16) (b % 16 * 16 + c / 4) (c % 4 * 64 + d) (join rest)

abbrev pub join_all : Option (List ℕ) → Option Bytes
join_all none = none
join_all (some ds) = join ds

-- `Strict().DecodeString`
unfoldable pub decode : String → Option Bytes
unfolding sextets join
decode s = join_all (sextets s)
