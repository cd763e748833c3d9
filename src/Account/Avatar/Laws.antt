-- ===== src/Account/Avatar/Laws.antt =====
-- The thumbnail of user-service/backend/internal/biz/identity/biz.go, `normalizeAvatar`: its size, the
-- pixels that it reads and the values that it writes.
use native.Mathlib.Nat.{div-lt_iff_lt-mul, mul_comm, mul-lt-mul_of_pos_right}
use tidewise_ai.Prelude.{
  ℕ, ◌+◌, ◌-◌, ◌*◌, ◌/◌, ◌≤◌, ◌<◌, ◌≡◌, ◌||◌, arith, ltb, leb, Bool-cases, inl, inr,
}
use tidewise_ai.Account.Avatar.{scaled_size, sampled, on_white, max}

max_low : (b : ℕ) → 1 ≤ max 1 b
max_low b = ground arith

max_high : (b : ℕ) → b ≤ 256 → max 1 b ≤ 256
max_high b h = ground arith

-- `a * 256 / b` for a side that is not longer than the other.
share : (a b : ℕ) → 1 ≤ b → a ≤ b → a * 256 / b ≤ 256
share a b p q =
    let h : a * 256 / b < 257 =
      (div-lt_iff_lt-mul {k = b} {x = a * 256} {y = 257} p).1 (omega arith) in
    omega arith

abbrev pub InBox : ℕ × ℕ → Type 0
InBox s = (1 ≤ s.0) × (s.0 ≤ 256) × (1 ≤ s.1) × (s.1 ≤ 256)

scaled_size-InBox : (w h : ℕ) → 1 ≤ w → 1 ≤ h → InBox (scaled_size w h)
unfolding scaled_size
scaled_size-InBox w h p q = elim (Bool-cases (ltb 256 w || ltb 256 h)) [
  | inl e ↦ elim (Bool-cases (leb h w)) [
    | inl f ↦
        let s : h * 256 / w ≤ 256 = share h w p (ground arith) in
        rw (e, f) (omega arith, omega arith, max_low (h * 256 / w), max_high (h * 256 / w) s)
    | inr f ↦
        let s : w * 256 / h ≤ 256 = share w h q (ground arith) in
        rw (e, f) (max_low (w * 256 / h), max_high (w * 256 / h) s, omega arith, omega arith)
  ]
  | inr e ↦ rw e (p, ground arith, q, ground arith)
]

sampled-lt : (low x size w : ℕ) → 1 ≤ w → 1 ≤ size → x < w → sampled low x size w < low + size
sampled-lt low x size w p q h =
    let d : x * size / w < size =
      (div-lt_iff_lt-mul {k = w} {x = x * size} {y = size} p).1
        (rw (mul_comm size w) (mul-lt-mul_of_pos_right {m = x} {n = w} {k = size} h q)) in
    omega arith

-- A colour with premultiplied alpha is put on white without a wrap-around.
on_white-fits : (c a : ℕ) → c ≤ a → a ≤ 65535 → on_white c a ≡ (c + (65535 - a)) / 256
on_white-fits c a p q = omega arith

-- The thumbnail of an image that was accepted has between 1 and 256 pixels each way, and every pixel
-- that it is made of lies within the image.
pub scaled_size-sampled :
    (w h x y low_x low_y : ℕ)
    → 1 ≤ w
    → 1 ≤ h
    → x < (scaled_size w h).0
    → y < (scaled_size w h).1
    → InBox (scaled_size w h)
      × (sampled low_x x w (scaled_size w h).0 < low_x + w)
      × (sampled low_y y h (scaled_size w h).1 < low_y + h)
scaled_size-sampled w h x y low_x low_y p q i j =
    let box = scaled_size-InBox w h p q in
    (box, sampled-lt low_x x w _ box.0 p i, sampled-lt low_y y h _ box.2 q j)
