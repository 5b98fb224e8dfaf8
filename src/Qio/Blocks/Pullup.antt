-- ===== src/Qio/Blocks/Pullup.antt =====
-- `pullupblock` gathers bytes in the first block.
use Prim.Native.Nat.{◌+◌}
use drawterm_android.Base.{
  ℕ, ◌+◌, ◌-◌, ◌≤◌, ◌≡◌, ◌∙◌, refl, sym, ap, ltb, leb, ◌==◌, Bool-cases, inl, inr, Option, some,
  List, [], ◌∷◌, ◌++◌, length, take, drop, arith, length-append, append_assoc, length-take,
  take-append-drop,
}
use drawterm_android.Qio.{Block, blen, stored, advance, Allocator, content}
use drawterm_android.Qio.Blocks.{pullup_loop, pullupblock, concatblock}
use drawterm_android.Qio.Blocks.Content.{blocklen_lem, put_lem}

-- A chain whose first block has `n` bytes, and which has the bytes `v`.
abbrev pub Gathered : ℕ → List ℕ → Option (List Block) → Type 0
Gathered n v r =
    (b : Block) × (bs : List Block) × (r ≡ some (b ∷ bs)) × (n ≤ blen b) × (content (b ∷ bs) ≡ v)

pullup_loop_lem :
    (bs : List Block) (n : ℕ) (bp : Block)
    → 1 ≤ n
    → n ≤ bp.back
    → n ≤ length (content bs)
    → Gathered (blen bp + n) (bp.bytes ++ content bs) (pullup_loop n bp bs)
unfolding pullup_loop
pullup_loop_lem [] n bp h k l = absurd (omega arith)
pullup_loop_lem (c ∷ rest) n bp h k l = elim (Bool-cases (ltb n (blen c))) [
  | inl part ↦
      let e = length-take n c.bytes (ground arith) in
      (
        stored bp (take n c.bytes),
        advance c n ∷ rest,
        rw (part, pullup_loop, put_lem bp (take n c.bytes) (omega (arith, e, k))) refl,
        omega (arith, e, length-append bp.bytes (take n c.bytes)),
        append_assoc bp.bytes (take n c.bytes) (drop n c.bytes ++ content rest)
            ∙ ap (λ t. bp.bytes ++ t)
                (sym (append_assoc (take n c.bytes) (drop n c.bytes) (content rest))
                  ∙ ap (λ t. t ++ content rest) (take-append-drop n c.bytes)),
      )
  | inr all ↦
      let f = put_lem bp c.bytes (ground (arith, k)) in
      let len = length-append bp.bytes c.bytes in
      elim (Bool-cases (n - blen c == 0)) [
        | inl done ↦ (
          stored bp c.bytes,
          rest,
          rw (all, pullup_loop, f, done) refl,
          ground (arith, len),
          append_assoc bp.bytes c.bytes (content rest),
        )
        | inr more ↦
            let (d, ds, r, g, v) =
              pullup_loop_lem rest (n - blen c) (stored bp c.bytes) (ground arith)
                (omega (arith, k)) (omega (arith, l, length-append c.bytes (content rest))) in
            (
              d,
              ds,
              rw (all, pullup_loop, f, more) r,
              ground (arith, g, len),
              v ∙ append_assoc bp.bytes c.bytes (content rest),
            )
      ]
]

-- On a chain that has `n` bytes, `pullupblock` does not write behind a block, and gathers `n` bytes
-- at least in the first block; the bytes of the chain stay.
pub pullupblock_lem :
    (m : Allocator) (n : ℕ) (b : Block) (rest : List Block)
    → n ≤ length (content (b ∷ rest))
    → Gathered n (content (b ∷ rest)) (pullupblock m n (b ∷ rest))
unfolding pullupblock
pullupblock_lem m n b rest h = elim (Bool-cases (leb n (blen b))) [
  | inl there ↦ (b, rest, rw there refl, ground arith, refl)
  | inr short ↦ elim (Bool-cases (ltb (blen b + b.back) n)) [
    | inl narrow ↦
        let (c, cs, e, g, v) =
          pullup_loop_lem (b ∷ rest) n (m.allocb n) (ground arith) (m.allocb_fits n) h in
        (
          c,
          cs,
          rw (short, narrow) e,
          omega (arith, g),
          v ∙ ap (λ t. t ++ content (b ∷ rest)) (m.allocb_empty n),
        )
    | inr wide ↦
        let (c, cs, e, g, v) =
          pullup_loop_lem rest (n - blen b) b (ground arith) (ground arith)
            (omega (arith, h, length-append b.bytes (content rest))) in
        (c, cs, rw (short, wide) e, omega (arith, g), v)
  ]
]

-- `concatblock` gathers all bytes of a chain in the first block.
pub concatblock_lem :
    (m : Allocator) (b : Block) (rest : List Block)
    → Gathered (length (content (b ∷ rest))) (content (b ∷ rest)) (concatblock m (b ∷ rest))
unfolding concatblock
concatblock_lem m b [] = (b, [], refl, omega (arith, length-append b.bytes []), refl)
concatblock_lem m b (c ∷ rest) =
    rw (blocklen_lem (b ∷ c ∷ rest))
      (pullupblock_lem m (length (content (b ∷ c ∷ rest))) b (c ∷ rest) (omega arith))
