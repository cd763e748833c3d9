-- ===== src/Account/Avatar.antt =====
-- user-service/backend/internal/biz/identity/biz.go: `normalizeAvatar`. The codecs of the packages
-- image/jpeg and image/png are parameters.
pub mod Laws
use tidewise_ai.Prelude.{
  ℕ, zero, suc, ◌+◌, ◌-◌, ◌*◌, ◌/◌, ◌%◌, ◌^◌, Bool, ◌&&◌, ◌||◌, not, String, Option, none, some,
  List, [], ◌∷◌, map, Result, ok, err, ◌>>=◌, ◌>>◌, reject_if, ltb, leb, ◌==◌, str_eq,
  if◌then◌else◌, length,
}
use tidewise_ai.Account.{Error, invalid_avatar, Bytes}

-- `image.Config` with the format's name.
pub record ImageConfig : Type 0 where
  pub width : ℕ
  pub height : ℕ
  pub format : String

-- A colour with premultiplied alpha, in 16 bits each.
pub record Rgba : Type 0 where
  pub r : ℕ
  pub g : ℕ
  pub b : ℕ
  pub a : ℕ

pub record Image : Type 0 where
  pub min_x : ℕ
  pub min_y : ℕ
  pub at : ℕ → ℕ → Rgba

-- The rows of an `image.RGBA`, in 8 bits each.
abbrev pub Pixels : Type 0
Pixels = List (List Rgba)

-- `image.DecodeConfig`, `image.Decode`, and `jpeg.Encode` with quality 85.
pub record Codec : Type 0 where
  pub decode_config : Bytes → Option ImageConfig
  pub decode : Bytes → Option Image
  pub encode : Pixels → Option Bytes

abbrev pub max : ℕ → ℕ → ℕ
max a b = if ltb a b then b else a

-- Width and height in the box of 256 by 256.
unfoldable pub scaled_size : ℕ → ℕ → ℕ × ℕ
scaled_size w h =
    if ltb 256 w || ltb 256 h
    then (if leb h w then (256, max 1 (h * 256 / w)) else (max 1 (w * 256 / h), 256))
    else (w, h)

-- `uint8((c + 65535 - a) >> 8)`, in uint32.
abbrev pub on_white : ℕ → ℕ → ℕ
on_white c a = (c + 65535 + (2 ^ 32 - a)) % 2 ^ 32 / 256 % 256

abbrev pub composite : Rgba → Rgba
composite c = record { r = on_white c.r c.a; g = on_white c.g c.a; b = on_white c.b c.a; a = 255 }

-- `for x := from; x < from + n; x++`
unfoldable pub counting : ℕ → ℕ → List ℕ
counting zero from = []
counting (suc n) from = from ∷ counting n (suc from)

-- The source's pixel that stands for x of w.
abbrev pub sampled : ℕ → ℕ → ℕ → ℕ → ℕ
sampled low x size w = low + x * size / w

unfoldable pub scaled : ImageConfig → Image → ℕ × ℕ → Pixels
unfolding counting
scaled c image (w, h) =
    map
      (λ y.
        map
          (λ x.
            composite
              (image.at (sampled image.min_x x c.width w) (sampled image.min_y y c.height h)))
          (counting w 0))
      (counting h 0)

abbrev pub of_option : {A : Type 0} → Option A → Result Error A
of_option none = err invalid_avatar
of_option (some a) = ok a

abbrev pub bad_config : ImageConfig → Bool
bad_config c =
    not (str_eq c.format "jpeg") && not (str_eq c.format "png")
    || ltb c.width 1
    || ltb c.height 1
    || ltb 2048 c.width
    || ltb 2048 c.height

unfoldable pub normalize_avatar : Codec → Bytes → Result Error Bytes
normalize_avatar codec raw =
    reject_if (length raw == 0 || ltb (2 * 1024 * 1024) (length raw)) invalid_avatar
    >> (of_option (codec.decode_config raw) >>= λ c.
        reject_if (bad_config c) invalid_avatar
        >> (of_option (codec.decode raw) >>= λ image.
            of_option (codec.encode (scaled c image (scaled_size c.width c.height))) >>= λ out.
            reject_if (ltb (128 * 1024) (length out)) invalid_avatar >> ok out))
