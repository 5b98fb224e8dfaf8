-- ===== src/Mnt/Reply/Stream.antt =====
-- What doread, the loop that hangs the data off, and pullupqueue do to the bytes of the queue.
use drawterm_android.Base.{
  ℕ, ◌-◌, ◌≤◌, ◌≡◌, ◌⊎◌, ◌∙◌, ap, sym, refl, inl, inr, if_true, if_false, Bool-cases, arith, leb,
  ◌==◌, Bool, true, false, Option, some, List, [], ◌∷◌, ◌++◌, length, take, drop, append_assoc,
  append-nil, take-append-drop, length-append, length-drop, length-take,
}
use drawterm_android.Qio.{Block, blen, shorten, Allocator, content, blocklen}
use drawterm_android.Qio.Blocks.Content.{fresh_put, blocklen_lem}
use drawterm_android.Qio.Blocks.Pullup.{pullupblock_lem}
use drawterm_android.Qio.Queue.{Queue, unlink, qaddlist, pullupqueue, pullup_first}
use drawterm_android.Qio.Queue.Counts.{blocklen-append}
use drawterm_android.Qio.Queue.Added.{qaddlist-content}
use drawterm_android.Qio.Queue.Read.{qputback}
use drawterm_android.Mnt.Reply.{doread, split_data, hang}

abbrev pub Filled : Queue → Type 0
Filled q = q.dlen ≡ blocklen q.blocks

pub record IsFed (len least : ℕ) (v : List ℕ) (r : Bool × List Block × Queue) : Type 0 where
  pub filled : Filled (r.2)
  pub same : content (r.2.blocks) ++ content (r.1) ≡ v
  pub no_less : least ≤ r.2.dlen
  pub enough : (r.0 ≡ false) ⊎ (len ≤ r.2.dlen)

pub doread_lem :
    (len : ℕ) (s : List Block) (q : Queue)
    → Filled q
    → IsFed len q.dlen (content q.blocks ++ content s) (doread len s q)
unfolding doread
doread_lem len [] q h = record {
  filled = h;
  same = refl;
  no_less = omega arith;
  enough = ground arith;
}
doread_lem len (b ∷ bs) q h =
    let next = qaddlist (b ∷ []) q in
    let more : Filled next = omega (arith, h, blocklen-append q.blocks (b ∷ [])) in
    let ih = doread_lem len bs next more in
    let all : content next.blocks ++ content bs ≡ content q.blocks ++ content (b ∷ bs) =
      ap (λ t. t ++ content bs) (qaddlist-content (b ∷ []) q)
      ∙ append_assoc (content q.blocks) (b.bytes ++ []) (content bs)
      ∙ ap (λ t. content q.blocks ++ (t ++ content bs)) (append-nil b.bytes) in
    elim (Bool-cases (leb len q.dlen)) [
      | inl there ↦ rw there (record {
        filled = h;
        same = refl;
        no_less = omega arith;
        enough = ground (arith, there);
      })
      | inr short ↦ elim (Bool-cases (blen b == 0)) [
        | inl empty ↦
            rw (short, empty)
              (record { filled = more; same = all; no_less = omega arith; enough = inl refl })
        | inr some_ ↦
            rw (short, some_)
              (record {
                filled = ih.filled;
                same = ih.same ∙ all;
                no_less = omega (arith, ih.no_less);
                enough = ih.enough;
              })
      ]
    ]

-- The data, of `len` bytes, and what is left of the queue.
abbrev pub Hung : ℕ → List ℕ → Option (List Block × Queue) → Type 0
Hung len v r =
    (bs : List Block) × (next : Queue) × (r ≡ some (bs, next))
    × (content bs ++ content next.blocks ≡ v)
    × (length (content bs) ≡ len)

split_lem :
    (m : Allocator) (len : ℕ) (b : Block) (q : Queue)
    → len ≤ blen b
    → Hung len (b.bytes ++ content q.blocks) (split_data m len b q)
unfolding split_data
split_lem m len b q h =
    let (nb, e, w) =
      fresh_put m (blen b - len) (drop len b.bytes) (omega (arith, length-drop len b.bytes)) in
    (
      shorten b len ∷ [],
      qputback nb q,
      rw e refl,
      ap (λ t. t ++ (nb.bytes ++ content q.blocks)) (append-nil (take len b.bytes))
          ∙ ap (λ t. take len b.bytes ++ (t ++ content q.blocks)) w
          ∙ sym (append_assoc (take len b.bytes) (drop len b.bytes) (content q.blocks))
          ∙ ap (λ t. t ++ content q.blocks) (take-append-drop len b.bytes),
      ap length (append-nil (take len b.bytes)) ∙ length-take len b.bytes h,
    )

whole_lem :
    (len : ℕ) (b : Block) (q : Queue)
    → len ≡ blen b
    → Hung len (b.bytes ++ content q.blocks) (some (b ∷ [], q))
whole_lem len b q h = (
  b ∷ [],
  q,
  refl,
  ap (λ t. t ++ content q.blocks) (append-nil b.bytes),
  ap length (append-nil b.bytes) ∙ sym h,
)

pub hang_lem :
    (m : Allocator) (len : ℕ) (b : Block) (rest : List Block) (q : Queue)
    → q.blocks ≡ rest
    → len ≤ length (b.bytes ++ content rest)
    → Hung len (b.bytes ++ content rest) (hang m len b rest q)
unfolding hang
hang_lem m len b [] q e h =
    let short : len ≤ blen b = omega (arith, h, ap length (append-nil b.bytes)) in
    elim (Bool-cases (leb (blen b) len)) [
      | inl all ↦
          let (bs, next, r, v, l) = whole_lem len b q (ground (arith, short)) in
          let z : (len - blen b == 0) ≡ true = ground (arith, short) in
          (bs, next, rw (all, z) r, v ∙ ap (λ t. b.bytes ++ content t) e, l)
      | inr part ↦
          let (bs, next, r, v, l) = split_lem m len b q short in
          (bs, next, rw part r, v ∙ ap (λ t. b.bytes ++ content t) e, l)
    ]
hang_lem m len b (c ∷ rest) q e h = elim (Bool-cases (leb (blen b) len)) [
  | inl all ↦ elim (Bool-cases (len - blen b == 0)) [
    | inl end ↦
        let (bs, next, r, v, l) = whole_lem len b q (ground (arith, all)) in
        (bs, next, rw (all, end) r, v ∙ ap (λ t. b.bytes ++ content t) e, l)
    | inr on ↦
        let (bs, next, r, v, l) =
          hang_lem m (len - blen b) c rest (unlink c rest q) refl
            (omega (arith, h, length-append b.bytes (content (c ∷ rest)))) in
        (
          b ∷ bs,
          next,
          rw (all, on, r) refl,
          append_assoc b.bytes (content bs) (content next.blocks) ∙ ap (λ t. b.bytes ++ t) v,
          ground (arith, l, length-append b.bytes (content bs)),
        )
  ]
  | inr part ↦
      let (bs, next, r, v, l) = split_lem m len b q (ground arith) in
      (bs, next, rw part r, v ∙ ap (λ t. b.bytes ++ content t) e, l)
]

-- The stream with the first block that is pulled up.
pub record IsPulled (n : ℕ) (v : List ℕ) (r : Option Queue) : Type 0 where
  pub next : Queue
  pub first : Block
  pub others : List Block
  pub there : r ≡ some next
  pub blocks : next.blocks ≡ first ∷ others
  pub long : n ≤ blen first
  pub same : content (first ∷ others) ≡ v
  pub filled : Filled next

pull_first :
    (m : Allocator) (n : ℕ) (bs : List Block) (q : Queue)
    → q.blocks ≡ bs
    → Filled q
    → 1 ≤ q.dlen
    → n ≤ q.dlen
    → IsPulled n (content bs) (pullup_first m n bs q)
unfolding pullup_first blocklen
pull_first m n [] q e h k l = absurd (omega (arith, k, h, ap blocklen e))
pull_first m n (b ∷ rest) q e h k l = elim (Bool-cases (leb n (blen b))) [
  | inl there ↦ record {
    next = q;
    first = b;
    others = rest;
    there = if_true (leb n (blen b)) _ _ there;
    blocks = e;
    long = ground (arith, there);
    same = refl;
    filled = h;
  }
  | inr short ↦
      let d : q.dlen ≡ blocklen (b ∷ rest) = h ∙ ap blocklen e in
      let (c, cs, r, g, v) =
        pullupblock_lem m n b rest (omega (arith, l, d, blocklen_lem (b ∷ rest))) in
      record {
        next = record q { blocks = c ∷ cs };
        first = c;
        others = cs;
        there = if_false (leb n (blen b)) _ _ short ∙ rw r refl;
        blocks = refl;
        long = g;
        same = v;
        filled = d ∙ blocklen_lem (b ∷ rest) ∙ ap length (sym v) ∙ sym (blocklen_lem (c ∷ cs));
      }
]

pub pulled :
    (m : Allocator) (n : ℕ) (q : Queue)
    → Filled q
    → 1 ≤ q.dlen
    → n ≤ q.dlen
    → IsPulled n (content q.blocks) (pullupqueue m n q)
unfolding pullupqueue
pulled m n q h k l = pull_first m n q.blocks q refl h k l
