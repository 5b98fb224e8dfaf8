-- ===== src/Qio/Blocks/Trim.antt =====
-- `trimblock` cuts a piece out of a chain, and the functions that copy a chain keep its bytes.
use Prim.Native.Nat.{◌+◌}
use drawterm_android.Base.{
  ℕ, ◌+◌, ◌-◌, ◌≤◌, ◌≡◌, ◌∙◌, refl, sym, ap, ltb, leb, Bool-cases, inl, inr, Option, some, List, [],
  ◌∷◌, ◌++◌, length, take, drop, replicate, arith, length-append, append_assoc, append-nil,
  take-all, take-append_within, take-append_beyond, drop-append_within, drop-append_beyond, le→ltb,
  length-drop, length-replicate, length-take_le, length-take_rest, ◌*◌,
}
use drawterm_android.Qio.{Block, blen, balloc, stored, advance, shorten, Allocator, content}
use drawterm_android.Qio.Blocks.{
  trim_front, trim_back, trimmed, trimblock, copy_loop, copyblock, pack_one, packblock, splitblock,
}
use drawterm_android.Qio.Blocks.Content.{blocklen_lem, put_lem, fresh_put}

-- A chain with a block and the bytes `v`.
abbrev pub Holds : List ℕ → Option (List Block) → Type 0
Holds v r = (b : Block) × (bs : List Block) × (r ≡ some (b ∷ bs)) × (content (b ∷ bs) ≡ v)

trim_front_lem :
    (offset : ℕ) (b : Block) (rest : List Block)
    → offset ≤ length (content (b ∷ rest))
    → Holds (drop offset (content (b ∷ rest))) (trim_front offset (b ∷ rest))
unfolding trim_front
trim_front_lem offset b [] h =
    let l : offset ≤ length b.bytes = omega (arith, h, length-append b.bytes []) in
    (
      advance b offset,
      [],
      rw (le→ltb (blen b) offset l) refl,
      sym (drop-append_within offset b.bytes [] l),
    )
trim_front_lem offset b (c ∷ rest) h = elim (Bool-cases (ltb (blen b) offset)) [
  | inl beyond ↦
      let (d, ds, e, v) =
        trim_front_lem (offset - blen b) c rest
          (ground (arith, h, length-append b.bytes (content (c ∷ rest)))) in
      (
        d,
        ds,
        rw beyond e,
        v ∙ sym (drop-append_beyond offset b.bytes (content (c ∷ rest)) (ground arith)),
      )
  | inr inside ↦ (
    advance b offset,
    c ∷ rest,
    rw inside refl,
    sym (drop-append_within offset b.bytes (content (c ∷ rest)) (ground arith)),
  )
]

trim_back_lem :
    (len : ℕ) (b : Block) (rest : List Block)
    → len ≤ length (content (b ∷ rest))
    → Holds (take len (content (b ∷ rest))) (trim_back len (b ∷ rest))
unfolding trim_back
trim_back_lem len b [] h =
    let l : len ≤ length b.bytes = omega (arith, h, length-append b.bytes []) in
    (
      shorten b len,
      [],
      rw (le→ltb (blen b) len l) refl,
      append-nil (take len b.bytes) ∙ sym (take-append_within len b.bytes [] l),
    )
trim_back_lem len b (c ∷ rest) h = elim (Bool-cases (ltb (blen b) len)) [
  | inl beyond ↦
      let (d, ds, e, v) =
        trim_back_lem (len - blen b) c rest
          (ground (arith, h, length-append b.bytes (content (c ∷ rest)))) in
      (
        b,
        d ∷ ds,
        rw (beyond, e) refl,
        ap (λ t. b.bytes ++ t) v
            ∙ sym (take-append_beyond len b.bytes (content (c ∷ rest)) (ground arith)),
      )
  | inr inside ↦ (
    shorten b len,
    [],
    rw inside refl,
    append-nil (take len b.bytes)
        ∙ sym (take-append_within len b.bytes (content (c ∷ rest)) (ground arith)),
  )
]

-- On a chain that has the bytes, `trimblock` runs into no nil and leaves a chain of the `len` bytes
-- from the offset on.
pub trimblock_lem :
    (offset len : ℕ) (b : Block) (rest : List Block)
    → offset + len ≤ length (content (b ∷ rest))
    → Holds (take len (drop offset (content (b ∷ rest)))) (trimblock offset len (b ∷ rest))
unfolding trimblock trimmed
trimblock_lem offset len b rest h =
    let (c, cs, e, v) = trim_front_lem offset b rest (omega (arith, h)) in
    let fits : len ≤ length (content (c ∷ cs)) =
      omega (arith, h, ap length v, length-drop offset (content (b ∷ rest))) in
    let (d, ds, f, w) = trim_back_lem len c cs fits in
    (
      d,
      ds,
      rw (blocklen_lem (b ∷ rest), le→ltb (length (content (b ∷ rest))) (offset + len) h, e) f,
      w ∙ ap (take len) v,
    )

-- The first `n` bytes, with zeros for those that are missing.
abbrev pub padded : ℕ → List ℕ → List ℕ
padded n xs = take n xs ++ replicate (n - length xs) 0

padded-append :
    (n : ℕ) (xs ys : List ℕ) → take n xs ++ padded (n - length xs) ys ≡ padded n (xs ++ ys)
padded-append n xs ys = elim (Bool-cases (leb n (length xs))) [
  | inl within ↦
      let z : n - length xs ≡ 0 = ground arith in
      let w : n - length (xs ++ ys) ≡ 0 = ground (arith, length-append xs ys) in
      let y : 0 - length ys ≡ 0 = omega arith in
      rw (z, w, y, take-append_within n xs ys (ground arith)) refl
  | inr beyond ↦
      let w : n - length (xs ++ ys) ≡ n - length xs - length ys =
        omega (arith, length-append xs ys) in
      rw (w, take-append_beyond n xs ys (ground arith), take-all n xs (ground arith))
        (sym (append_assoc xs (take (n - length xs) ys) (replicate (n - length xs - length ys) 0)))
]

copy_loop_lem :
    (count : ℕ) (nbp : Block) (bs : List Block)
    → count ≤ nbp.back
    → (b : Block) × (copy_loop count nbp bs ≡ some b)
      × (b.bytes ≡ nbp.bytes ++ padded count (content bs))
unfolding copy_loop
copy_loop_lem count nbp [] h =
    let z : count - 0 ≡ count = omega arith in
    (
      _,
      put_lem nbp (replicate count 0) (omega (arith, length-replicate {A = ℕ} count 0, h)),
      rw (z, take-all {A = ℕ} count [] (omega arith)) refl,
    )
copy_loop_lem count nbp (b ∷ rest) h =
    let l = length-take_le count b.bytes in
    let e = put_lem nbp (take count b.bytes) (omega (arith, h, l)) in
    let (c, f, v) =
      copy_loop_lem (count - blen b) (stored nbp (take count b.bytes)) rest
        (omega (arith, h, length-take_rest count b.bytes)) in
    (
      c,
      rw (copy_loop, e) f,
      v
          ∙ append_assoc nbp.bytes (take count b.bytes) (padded (count - blen b) (content rest))
          ∙ ap (λ t. nbp.bytes ++ t) (padded-append count b.bytes (content rest)),
    )

-- `copyblock` does not write behind its block, and gives the first bytes of the chain, with zeros
-- for those that the chain lacks.
pub copyblock_lem :
    (m : Allocator) (count : ℕ) (bs : List Block)
    → (b : Block) × (copyblock m count bs ≡ some b) × (b.bytes ≡ padded count (content bs))
unfolding copyblock
copyblock_lem m count bs =
    let (b, e, v) = copy_loop_lem count (m.allocb count) bs (m.allocb_fits count) in
    (b, e, v ∙ ap (λ t. t ++ padded count (content bs)) (m.allocb_empty count))

-- `splitblock` parts the bytes of a block, and does not write behind the new one.
pub splitblock_lem :
    (m : Allocator) (n : ℕ) (a : Block)
    → n ≤ blen a
    → (head : Block) × (tail : Block) × (splitblock m n a ≡ some (head, tail))
      × (head.bytes ≡ take (blen a - n) a.bytes)
      × (tail.bytes ≡ drop (blen a - n) a.bytes)
unfolding splitblock
splitblock_lem m n a h = elim (Bool-cases (ltb (blen a - n) n)) [
  | inl less ↦
      let (b, e, v) =
        fresh_put m (blen a - n) (take (blen a - n) a.bytes)
          (length-take_le (blen a - n) a.bytes) in
      (b, advance a (blen a - n), rw (less, e) refl, v, refl)
  | inr more ↦
      let (b, e, v) =
        fresh_put m n (drop (blen a - n) a.bytes)
          (omega (arith, h, length-drop (blen a - n) a.bytes)) in
      (shorten a (blen a - n), b, rw (more, e) refl, refl, v)
]

pack_one_lem :
    (m : Allocator) (b : Block) → (c : Block) × (pack_one m b ≡ some c) × (c.bytes ≡ b.bytes)
unfolding pack_one
pack_one_lem m b = elim (Bool-cases (ltb (blen b * 4) (balloc b))) [
  | inl loose ↦ let (c, f, w) = fresh_put m (blen b) b.bytes (omega arith) in (c, rw loose f, w)
  | inr tight ↦ (b, rw tight refl, refl)
]

-- `packblock` does not write behind its blocks, and keeps the bytes of the chain.
pub packblock_lem :
    (m : Allocator) (bs : List Block)
    → (cs : List Block) × (packblock m bs ≡ some cs) × (content cs ≡ content bs)
unfolding packblock
packblock_lem m [] = ([], refl, refl)
packblock_lem m (b ∷ rest) =
    let (c, f, w) = pack_one_lem m b in
    let (cs, e, v) = packblock_lem m rest in (c ∷ cs, rw (packblock, f, e) refl, rw (w, v) refl)
