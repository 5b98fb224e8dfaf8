-- ===== src/Qio/Blocks/Content.antt =====
-- What the functions on chains do to the bytes of a chain.
use Prim.Native.Nat.{◌+◌}
use drawterm_android.Base.{
  ℕ, ◌+◌, ◌-◌, ◌≤◌, ◌≡◌, ◌∙◌, refl, sym, ap, ltb, leb, ◌==◌, if◌then◌else◌, Bool-cases, inl, inr,
  some, List, [], ◌∷◌, ◌++◌, length, take, drop, arith, length-append, length-drop, append-nil,
  take-all, drop-all, take-append_within, take-append_beyond, drop-append_within,
  drop-append_beyond,
}
use drawterm_android.Qio.{Block, blen, put, content, blocklen, Allocator, stored}
use drawterm_android.Qio.Blocks.{pullblock, readblist}

pub blocklen_lem : (bs : List Block) → blocklen bs ≡ length (content bs)
unfolding blocklen
blocklen_lem [] = refl
blocklen_lem (b ∷ bs) = omega (arith, blocklen_lem bs, length-append b.bytes (content bs))

-- The bytes fit.
pub put_lem : (b : Block) (p : List ℕ) → length p ≤ b.back → put b p ≡ some (stored b p)
unfolding put
put_lem b p h = ground arith

-- Bytes stored in a new block.
pub fresh_put :
    (m : Allocator) (n : ℕ) (p : List ℕ)
    → length p ≤ n
    → (b : Block) × (put (m.allocb n) p ≡ some b) × (b.bytes ≡ p)
fresh_put m n p h = (
  _,
  put_lem (m.allocb n) p (omega (arith, h, m.allocb_fits n)),
  ap (λ t. t ++ p) (m.allocb_empty n),
)

slice_skip :
    (n o : ℕ) (xs ys : List ℕ)
    → length xs ≤ o
    → take n (drop o (xs ++ ys)) ≡ take n (drop (o - length xs) ys)
slice_skip n o xs ys h = ap (take n) (drop-append_beyond o xs ys h)

slice_short :
    (n o : ℕ) (xs ys : List ℕ)
    → o ≤ length xs
    → n ≤ length xs - o
    → take n (drop o (xs ++ ys)) ≡ take n (drop o xs) ++ take (n - n) ys
slice_short n o xs ys h k =
    let e : n - n ≡ 0 = omega arith in
    rw (e, append-nil (take n (drop o xs)))
      (ap (take n) (drop-append_within o xs ys h)
        ∙ take-append_within n (drop o xs) ys (omega (arith, length-drop o xs)))

slice_long :
    (n o : ℕ) (xs ys : List ℕ)
    → o ≤ length xs
    → length xs - o ≤ n
    → take n (drop o (xs ++ ys)) ≡ take (length xs - o) (drop o xs) ++ take (n - (length xs - o)) ys
slice_long n o xs ys h k =
    let e : length (drop o xs) ≡ length xs - o = length-drop o xs in
    ap (take n) (drop-append_within o xs ys h)
    ∙ take-append_beyond n (drop o xs) ys (omega (arith, e))
    ∙ rw (e, take-all (length xs - o) (drop o xs) (omega (arith, e))) refl

-- A piece that begins in the first list.
slice_copy :
    (n o : ℕ) (xs ys : List ℕ)
    → o ≤ length xs
    → let m = if ltb n (length xs - o) then n else length xs - o in
      take n (drop o (xs ++ ys)) ≡ take m (drop o xs) ++ take (n - m) ys
slice_copy n o xs ys h = elim (Bool-cases (ltb n (length xs - o))) [
  | inl less ↦ rw less (slice_short n o xs ys h (ground arith))
  | inr more ↦ rw more (slice_long n o xs ys h (ground arith))
]

-- `readblist` gives the bytes from the offset on, as many as are asked for and there.
pub readblist_lem : (n o : ℕ) (bs : List Block) → readblist n o bs ≡ take n (drop o (content bs))
unfolding readblist
readblist_lem n o [] =
    rw (drop-all {A = ℕ} o [] (omega arith), take-all {A = ℕ} n [] (omega arith)) refl
readblist_lem n o (b ∷ rest) = elim (Bool-cases (n == 0)) [
  | inl stop ↦ rw stop (let e : n ≡ 0 = ground arith in rw e refl)
  | inr more ↦ elim (Bool-cases (leb (blen b) o)) [
    | inl beyond ↦
        rw (more, beyond)
          (readblist_lem n (o - blen b) rest
            ∙ sym (slice_skip n o b.bytes (content rest) (ground arith)))
    | inr inside ↦
        rw (more, inside)
          (let m = if ltb n (blen b - o) then n else blen b - o in
            ap (λ t. take m (drop o b.bytes) ++ t) (readblist_lem (n - m) 0 rest)
            ∙ sym (slice_copy n o b.bytes (content rest) (ground arith)))
  ]
]

-- `pullblock` throws the first bytes away, `count` of them or all, and tells how many they were.
pub pullblock_lem :
    (count : ℕ) (bs : List Block)
    → (content ((pullblock count bs).1) ≡ drop count (content bs))
      × ((pullblock count bs).0 + length (content ((pullblock count bs).1)) ≡ length (content bs))
unfolding pullblock
pullblock_lem count [] = (sym (drop-all count [] (omega arith)), refl)
pullblock_lem count (b ∷ rest) = elim (Bool-cases (count == 0)) [
  | inl stop ↦ rw stop (let e : count ≡ 0 = ground arith in rw e (refl, omega arith))
  | inr more ↦ elim (Bool-cases (ltb count (blen b))) [
    | inl inside ↦
        rw (more, inside)
          (
            sym (drop-append_within count b.bytes (content rest) (ground arith)),
            ground (
              arith,
              length-append (drop count b.bytes) (content rest),
              length-append b.bytes (content rest),
              length-drop count b.bytes,
            ),
          )
    | inr beyond ↦
        rw (more, beyond)
          (
            (pullblock_lem (count - blen b) rest).0
                ∙ sym (drop-append_beyond count b.bytes (content rest) (ground arith)),
            ground (
              arith,
              length-append b.bytes (content rest),
              (pullblock_lem (count - blen b) rest).1,
            ),
          )
  ]
]
