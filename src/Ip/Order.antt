-- ===== src/Ip/Order.antt =====
-- What is stored big-endian is read back, and the exception for `nhgetv`.
use Prim.Native.Nat.{bit_or}
use drawterm_android.Base.{
  ℕ, ◌+◌, ◌-◌, ◌*◌, ◌^◌, ◌<◌, ◌≡◌, ◌∙◌, List, [], ◌∷◌, arith, bit_or_fields, bit_or_above,
  bit_or_ones, if◌then◌else◌, ltb, Option, All, some, drop, ap, refl, ◌%◌, ◌/◌,
}
use drawterm_android.Ip.{int_shift24, hnputl, hnputs, nhgetl, nhgets, nhgetv, byte, hnputv}

-- Bytes, the highest first, as a number.
abbrev pub be_value : ℕ → List ℕ → ℕ
be_value acc [] = acc
be_value acc (b ∷ bs) = be_value (acc * 256 + b) bs

-- A byte behind a number, eight places lower, as the source joins them.
joined8 : (n b : ℕ) → b < 256 → bit_or (n * 2 ^ 16) (b * 2 ^ 8) ≡ (n * 256 + b) * 2 ^ 8
joined8 n b h = bit_or_fields 16 n (b * 2 ^ 8) (omega arith) ∙ omega arith

joined16 : (n b : ℕ) → b < 256 → bit_or (n * 2 ^ 24) (b * 2 ^ 16) ≡ (n * 256 + b) * 2 ^ 16
joined16 n b h = bit_or_fields 24 n (b * 2 ^ 16) (omega arith) ∙ omega arith

joined32 : (n b : ℕ) → b < 256 → bit_or (n * 2 ^ 40) (b * 2 ^ 32) ≡ (n * 256 + b) * 2 ^ 32
joined32 n b h = bit_or_fields 40 n (b * 2 ^ 32) (omega arith) ∙ omega arith

joined40 : (n b : ℕ) → b < 256 → bit_or (n * 2 ^ 48) (b * 2 ^ 40) ≡ (n * 256 + b) * 2 ^ 40
joined40 n b h = bit_or_fields 48 n (b * 2 ^ 40) (omega arith) ∙ omega arith

joined48 : (n b : ℕ) → b < 256 → bit_or (n * 2 ^ 56) (b * 2 ^ 48) ≡ (n * 256 + b) * 2 ^ 48
joined48 n b h = bit_or_fields 56 n (b * 2 ^ 48) (omega arith) ∙ omega arith

-- The byte whose shift is an `int`: it joins the number, or sets all bits above its own.
sign_extended : (n b : ℕ) → ℕ
sign_extended n b = if ltb b 128 then n * 256 + b else (2 ^ 32 - 1) * 256 + b

joined24 :
    (n b : ℕ)
    → n < 2 ^ 32
    → b < 256
    → bit_or (n * 2 ^ 32) (int_shift24 b) ≡ sign_extended n b * 2 ^ 24
unfolding int_shift24 sign_extended
joined24 n b h k = ground (
  arith,
  bit_or_fields 32 n (b * 2 ^ 24),
  bit_or_above 32 n (2 ^ 32 - 1) (b * 2 ^ 24),
  bit_or_ones 32 n h,
)

get16 : (a b : ℕ) (p : List ℕ) → b < 256 → nhgets (a ∷ b ∷ p) ≡ some (a * 256 + b)
unfolding nhgets
get16 a b p h = rw (bit_or_fields 8 a b h)

get32 :
    (a b c d : ℕ) (p : List ℕ)
    → b < 256
    → c < 256
    → d < 256
    → nhgetl (a ∷ b ∷ c ∷ d ∷ p) ≡ some (((a * 256 + b) * 256 + c) * 256 + d)
unfolding nhgetl
get32 a b c d p h k l =
    let ab = a * 256 + b in rw (joined16 a b h, joined8 ab c k, bit_or_fields 8 (ab * 256 + c) d l)

get64 :
    (a b c d e f g h : ℕ) (p : List ℕ)
    → All (λ x. x < 256) (a ∷ b ∷ c ∷ d ∷ e ∷ f ∷ g ∷ h ∷ [])
    → nhgetv (a ∷ b ∷ c ∷ d ∷ e ∷ f ∷ g ∷ h ∷ p)
      ≡ some
          (((sign_extended (((a * 256 + b) * 256 + c) * 256 + d) e * 256 + f) * 256 + g) * 256 + h)
unfolding nhgetv
get64 a b c d e f g h p (ha, (hb, (hc, (hd, (he, (hf, (hg, (hh, _)))))))) =
    let ab = a * 256 + b in
    let abc = ab * 256 + c in
    let abcd = abc * 256 + d in
    let s = sign_extended abcd e in
    let sf = s * 256 + f in
    rw (
      joined48 a b hb,
      joined40 ab c hc,
      joined32 abc d hd,
      joined24 abcd e (omega arith) he,
      joined16 s f hf,
      joined8 sf g hg,
      bit_or_fields 8 (sf * 256 + g) h hh,
    )

-- What is stored of `v` is read back as `r`, and the bytes behind stay.
abbrev pub Reads :
    ℕ → (List ℕ → ℕ → Option (List ℕ)) → (List ℕ → Option ℕ) → List ℕ → ℕ → ℕ → Type 0
Reads n put get p v r = (q : List ℕ) × (put p v ≡ some q) × (get q ≡ some r) × (drop n q ≡ drop n p)

-- Over two bytes, `nhgets` reads the 16-bit number that `hnputs` stores.
pub nhgets-hnputs :
    (a b : ℕ) (p : List ℕ) (v : ℕ) → v < 2 ^ 16 → Reads 2 hnputs nhgets (a ∷ b ∷ p) v v
unfolding hnputs
nhgets-hnputs a b p v h =
    let e : byte v 8 * 256 + byte v 0 ≡ v = omega arith in
    (_, refl, get16 _ _ p (omega arith) ∙ ap some e, refl)

-- Over four bytes, `nhgetl` reads the 32-bit number that `hnputl` stores.
pub nhgetl-hnputl :
    (a b c d : ℕ) (p : List ℕ) (v : ℕ) → v < 2 ^ 32 → Reads 4 hnputl nhgetl (a ∷ b ∷ c ∷ d ∷ p) v v
unfolding hnputl
nhgetl-hnputl a b c d p v h =
    let e : ((byte v 24 * 256 + byte v 16) * 256 + byte v 8) * 256 + byte v 0 ≡ v = omega arith in
    (_, refl, get32 _ _ _ _ p (omega arith) (omega arith) (omega arith) ∙ ap some e, refl)

-- What `nhgetv` makes of a stored number: its high half is lost where bit 31 is set.
abbrev pub read64 : ℕ → ℕ
read64 v = if ltb (v % 2 ^ 32) (2 ^ 31) then v else (2 ^ 32 - 1) * 2 ^ 32 + v % 2 ^ 32

high :
    (v : ℕ)
    → v < 2 ^ 64
    → ((byte v 56 * 256 + byte v 48) * 256 + byte v 40) * 256 + byte v 32 ≡ v / 2 ^ 32
high v h = omega arith

low :
    (v n : ℕ)
    → (((n * 256 + byte v 24) * 256 + byte v 16) * 256 + byte v 8) * 256 + byte v 0
      ≡ n * 2 ^ 32 + v % 2 ^ 32
low v n = omega arith

read64_lem :
    (v : ℕ)
    → v < 2 ^ 64
    → (((sign_extended
                    (((byte v 56 * 256 + byte v 48) * 256 + byte v 40) * 256 + byte v 32)
                    (byte v 24)
                  * 256
                + byte v 16)
              * 256
            + byte v 8)
          * 256
        + byte v 0)
      ≡ read64 v
unfolding sign_extended
read64_lem v h =
    let n = ((byte v 56 * 256 + byte v 48) * 256 + byte v 40) * 256 + byte v 32 in
    ground (arith, high v h, low v n, low v (2 ^ 32 - 1))

-- Over eight bytes, `nhgetv` reads the 64-bit number that `hnputv` stores where its bit 31 is
-- clear; where it is set, the high 32 bits that are read are all ones.
pub nhgetv-hnputv :
    (a b c d e f g h : ℕ) (p : List ℕ) (v : ℕ)
    → v < 2 ^ 64
    → Reads 8 hnputv nhgetv (a ∷ b ∷ c ∷ d ∷ e ∷ f ∷ g ∷ h ∷ p) v (read64 v)
unfolding hnputv
nhgetv-hnputv a b c d e f g h p v k =
    (_, refl, get64 _ _ _ _ _ _ _ _ p (omega arith) ∙ ap some (read64_lem v k), refl)
