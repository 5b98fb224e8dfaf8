-- ===== src/Draw/Alpha.antt =====
-- Colours with an alpha channel: setalpha of libdraw/arith.c. A colour has 32 bits, red the highest
-- byte and alpha the lowest.
use Prim.Native.Nat.{bit_and, bit_or}
use native.Mathlib.Nat.{mul-le-mul_right}
use drawterm_android.Base.{
  ℕ, ◌+◌, ◌*◌, ◌/◌, ◌%◌, ◌^◌, ◌<◌, ◌≤◌, ◌≡◌, ◌∙◌, ap, arith, bit_or_fields, bit_and_mask,
}

-- `(color >> n) & 0xFF`
abbrev channel : ℕ → ℕ → ℕ
channel color n = bit_and (color / 2 ^ n) 0xff

unfoldable pub setalpha : ℕ → ℕ → ℕ
setalpha color alpha =
    let red = channel color 24 * alpha / 255 in
    let green = channel color 16 * alpha / 255 in
    let blue = channel color 8 * alpha / 255 in
    bit_or (bit_or (bit_or (red * 2 ^ 24) (green * 2 ^ 16)) (blue * 2 ^ 8)) alpha

channel_le : (color n alpha : ℕ) → channel color n * alpha / 255 ≤ alpha
channel_le color n alpha =
    let byte : channel color n ≤ 255 = omega (arith, bit_and_mask 8 (color / 2 ^ n)) in
    omega (arith, mul-le-mul_right alpha byte)

joined :
    (r g b a : ℕ)
    → g < 256
    → b < 256
    → a < 256
    → bit_or (bit_or (bit_or (r * 2 ^ 24) (g * 2 ^ 16)) (b * 2 ^ 8)) a
      ≡ ((r * 256 + g) * 256 + b) * 256 + a
joined r g b a h k l =
    let e1 : bit_or (r * 2 ^ 24) (g * 2 ^ 16) ≡ (r * 256 + g) * 2 ^ 16 =
      bit_or_fields 24 r (g * 2 ^ 16) (omega arith) ∙ omega arith in
    let e2 : bit_or ((r * 256 + g) * 2 ^ 16) (b * 2 ^ 8) ≡ ((r * 256 + g) * 256 + b) * 2 ^ 8 =
      bit_or_fields 16 (r * 256 + g) (b * 2 ^ 8) (omega arith) ∙ omega arith in
    ap (λ t. bit_or (bit_or t (b * 2 ^ 8)) a) e1
    ∙ ap (λ t. bit_or t a) e2
    ∙ bit_or_fields 8 ((r * 256 + g) * 256 + b) a l

-- For an `alpha` of eight bits, the colour that `setalpha` gives has it as its alpha, and each of
-- its other three channels is at most `alpha`, whatever the colour was.
pub setalpha_channels :
    (color alpha : ℕ)
    → alpha < 256
    → (setalpha color alpha % 256 ≡ alpha)
      × (setalpha color alpha / 2 ^ 8 % 256 ≤ alpha)
      × (setalpha color alpha / 2 ^ 16 % 256 ≤ alpha)
      × (setalpha color alpha / 2 ^ 24 ≤ alpha)
unfolding setalpha
setalpha_channels color alpha h =
    let r = channel_le color 24 alpha in
    let g = channel_le color 16 alpha in
    let b = channel_le color 8 alpha in
    let e =
      joined (channel color 24 * alpha / 255) (channel color 16 * alpha / 255)
        (channel color 8 * alpha / 255) alpha (omega (arith, g)) (omega (arith, b)) h in
    (omega (arith, e), omega (arith, e, b), omega (arith, e, b, g), omega (arith, e, b, g, r))
