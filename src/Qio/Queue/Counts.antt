-- ===== src/Qio/Queue/Counts.antt =====
-- The counts of a queue are those of its blocks, whatever is done to it.
use drawterm_android.Base.{
  ℕ, ◌+◌, ◌-◌, ◌/◌, ◌≡◌, refl, leb, ◌==◌, Bool-cases, inl, inr, some, List, [], ◌∷◌, ◌++◌, arith,
  length-drop, ◌∙◌, ◌≤◌, ap,
}
use drawterm_android.Qio.{Block, blen, advance, blocklen, blockalloclen}
use drawterm_android.Qio.Queue.{
  Queue, restart, unlink, get_first, qget, discard_loop, qdiscard, qaddlist, feed,
}

-- `len` is the bytes allocated to the queue and `dlen` the data bytes in it.
pub record IsCounted (q : Queue) : Type 0 where
  pub allocated : q.len ≡ blockalloclen q.blocks
  pub filled : q.dlen ≡ blocklen q.blocks

pub restart-IsCounted :
    {A : Type 0} (r : A) (bound : ℕ) (q : Queue)
    → IsCounted q
    → IsCounted ((restart r bound q).queue)
unfolding restart
restart-IsCounted r bound q h = ground arith

pub feed-IsCounted : {A : Type 0} (r : A) (q : Queue) → IsCounted q → IsCounted ((feed r q).queue)
unfolding feed
feed-IsCounted r q h = ground arith

pub blocklen-append : (bs cs : List Block) → blocklen (bs ++ cs) ≡ blocklen bs + blocklen cs
unfolding blocklen
blocklen-append [] cs = omega arith
blocklen-append (b ∷ bs) cs = omega (arith, blocklen-append bs cs)

pub blockalloclen-append :
    (bs cs : List Block) → blockalloclen (bs ++ cs) ≡ blockalloclen bs + blockalloclen cs
unfolding blockalloclen
blockalloclen-append [] cs = omega arith
blockalloclen-append (b ∷ bs) cs = omega (arith, blockalloclen-append bs cs)

pub qaddlist-IsCounted : (bs : List Block) (q : Queue) → IsCounted q → IsCounted (qaddlist bs q)
qaddlist-IsCounted bs q h = record {
  allocated = omega (arith, h.allocated, blockalloclen-append q.blocks bs);
  filled = omega (arith, h.filled, blocklen-append q.blocks bs);
}

pub unlink-IsCounted :
    (b : Block) (rest : List Block) (q : Queue)
    → q.blocks ≡ b ∷ rest
    → IsCounted q
    → IsCounted (unlink b rest q)
unfolding blocklen blockalloclen
unlink-IsCounted b rest q e h =
    let l : q.len ≡ blockalloclen (b ∷ rest) = h.allocated ∙ ap blockalloclen e in
    let d : q.dlen ≡ blocklen (b ∷ rest) = h.filled ∙ ap blocklen e in
    record { allocated = omega (arith, l); filled = omega (arith, d) }

get_first-IsCounted :
    (bs : List Block) (q : Queue) → q.blocks ≡ bs → IsCounted q → IsCounted ((get_first bs q).queue)
unfolding get_first
get_first-IsCounted [] q e h = ground arith
get_first-IsCounted (b ∷ rest) q e h =
    restart-IsCounted (some b) (q.limit / 2) (unlink b rest q) (unlink-IsCounted b rest q e h)

pub qget-IsCounted : (q : Queue) → IsCounted q → IsCounted ((qget q).queue)
unfolding qget
qget-IsCounted q h = get_first-IsCounted q.blocks q refl h

-- Bytes are taken off the front of the first block.
pub shorten-IsCounted :
    (n : ℕ) (b : Block) (rest : List Block) (q : Queue)
    → n ≤ blen b
    → q.blocks ≡ b ∷ rest
    → IsCounted q
    → IsCounted (record q { blocks = advance b n ∷ rest; dlen = q.dlen - n })
unfolding blocklen blockalloclen
shorten-IsCounted n b rest q k e h =
    let l : q.len ≡ blockalloclen (b ∷ rest) = h.allocated ∙ ap blockalloclen e in
    let d : q.dlen ≡ blocklen (b ∷ rest) = h.filled ∙ ap blocklen e in
    let s = length-drop n b.bytes in
    record { allocated = omega (arith, l, s); filled = omega (arith, d, s) }

pub discard_loop-IsCounted :
    (left : ℕ) (bs : List Block) (q : Queue)
    → q.blocks ≡ bs
    → IsCounted q
    → IsCounted ((discard_loop left bs q).1)
unfolding discard_loop
discard_loop-IsCounted left [] q e h = h
discard_loop-IsCounted left (b ∷ rest) q e h =
    let ih =
      discard_loop-IsCounted (left - blen b) rest (unlink b rest q) refl
        (unlink-IsCounted b rest q e h) in
    elim (Bool-cases (left == 0)) [
      | inl stop ↦ rw stop h
      | inr more ↦ elim (Bool-cases (leb (blen b) left)) [
        | inl whole ↦ rw (more, whole) ih
        | inr part ↦ rw (more, part) (shorten-IsCounted left b rest q (ground arith) e h)
      ]
    ]

pub qdiscard-IsCounted : (len : ℕ) (q : Queue) → IsCounted q → IsCounted ((qdiscard len q).queue)
unfolding qdiscard
qdiscard-IsCounted len q h = restart-IsCounted _ _ _ (discard_loop-IsCounted len q.blocks q refl h)
