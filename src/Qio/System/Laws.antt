-- ===== src/Qio/System/Laws.antt =====
-- That each function sends the wakeups that are due, for the consumers.
use drawterm_android.Base.{
  ℕ, ◌-◌, ◌/◌, ◌≤◌, ◌≡◌, ◌⊎◌, refl, ltb, leb, ◌==◌, if◌then◌else◌, Bool, true, false, Bool-cases,
  inl, inr, ◌||◌, none, some, List, [], ◌∷◌, length, arith,
}
use drawterm_android.Qio.{Block, blen, balloc, advance, blockalloclen}
use drawterm_android.Qio.Queue.{
  Queue, Done, restart, unlink, get_first, qget, discard_loop, qdiscard, consumed, consume_first,
  qconsume, feed,
}
use drawterm_android.Qio.Queue.Counts.{IsCounted, unlink-IsCounted, shorten-IsCounted}
use drawterm_android.Qio.System.{System, after}

-- A wakeup of a reader is due only while the queue is empty and open, with the flag set for the
-- producers.
abbrev pub Reads : Queue → Bool → Type 0
Reads q r = (r ≡ false) ⊎ ((q.starve ≡ true) × (q.blocks ≡ []) × (q.closed ≡ false))

-- A wakeup of a writer is due only while the queue has blocks, with the flag set for the consumers.
abbrev pub Writes : Queue → Bool → Type 0
Writes q w = (w ≡ false) ⊎ ((q.flow ≡ true) × (1 ≤ length q.blocks))

-- The counts are right, limits let a writer go on once the queue is empty, and the wakeups that are
-- due will be sent. Queues that coalesce are left out: see `coalesced_sleep`.
pub record IsLive (q : Queue) (r w : Bool) : Type 0 where
  pub counted : IsCounted q
  pub limit_ge : 2 ≤ q.limit
  pub inilim_ge : 2 ≤ q.inilim
  pub plain : q.coalesce ≡ false
  pub reads : Reads q r
  pub writes : Writes q w

abbrev pub Stays : {A : Type 0} → Done A → Bool → Bool → Type 0
Stays d r w = IsLive d.queue (after d r w).reader_due (after d r w).writer_due

abbrev pub Lives : System → Type 0
Lives s = IsLive s.queue s.reader_due s.writer_due

-- The same while the lock is held: for a writer the flag is set, and `restart` is to come.
pub record IsHeld (q : Queue) (r w : Bool) : Type 0 where
  pub counted : IsCounted q
  pub limit_ge : 2 ≤ q.limit
  pub inilim_ge : 2 ≤ q.inilim
  pub plain : q.coalesce ≡ false
  pub reads : Reads q r
  pub waits : (w ≡ false) ⊎ (q.flow ≡ true)

pub held : (q : Queue) (r w : Bool) → IsLive q r w → IsHeld q r w
held q r w h = ground arith

pub no_blocks : (bs : List Block) → (blockalloclen bs ≡ 0) ⊎ (1 ≤ length bs)
unfolding blockalloclen
no_blocks [] = inl refl
no_blocks (b ∷ bs) = inr (omega arith)

-- A queue that has run empty is below every bound, so that a writer is woken.
pub restart-IsLive :
    {A : Type 0} (a : A) (bound : ℕ) (q : Queue) (r w : Bool)
    → 1 ≤ bound
    → IsHeld q r w
    → Stays (restart a bound q) r w
unfolding restart
restart-IsLive a bound q r w b h = ground (arith, no_blocks q.blocks)

feed-IsLive :
    {A : Type 0} (a : A) (q : Queue) (r w : Bool)
    → IsCounted q
    → 2 ≤ q.limit
    → 2 ≤ q.inilim
    → q.coalesce ≡ false
    → (r ≡ false) ⊎ (q.starve ≡ true)
    → Writes q w
    → Stays (feed a q) r w
unfolding feed
feed-IsLive a q r w c l i p h k = ground arith

pub awake :
    (b : Block) (rest : List Block) (q : Queue) (r : Bool)
    → q.blocks ≡ b ∷ rest
    → Reads q r
    → r ≡ false
awake b rest q r e h = ground arith

pub bound-pos : (limit : ℕ) → 2 ≤ limit → 1 ≤ limit / 2
bound-pos limit h = omega arith

pub unlink-IsHeld :
    (b : Block) (rest : List Block) (q : Queue) (r w : Bool)
    → q.blocks ≡ b ∷ rest
    → IsHeld q r w
    → IsHeld (unlink b rest q) r w
unlink-IsHeld b rest q r w e h = record {
  counted = unlink-IsCounted b rest q e h.counted;
  limit_ge = h.limit_ge;
  inilim_ge = h.inilim_ge;
  plain = h.plain;
  reads = inl (awake b rest q r e h.reads);
  waits = h.waits;
}

get_first-IsLive :
    (bs : List Block) (q : Queue) (r w : Bool)
    → q.blocks ≡ bs
    → IsLive q r w
    → Stays (get_first bs q) r w
unfolding get_first
get_first-IsLive [] q r w e h = ground arith
get_first-IsLive (b ∷ rest) q r w e h =
    restart-IsLive (some b) (q.limit / 2) (unlink b rest q) r w (bound-pos q.limit h.limit_ge)
      (unlink-IsHeld b rest q r w e (held q r w h))

pub qget-IsLive : (q : Queue) (r w : Bool) → IsLive q r w → Stays (qget q) r w
unfolding qget
qget-IsLive q r w h = get_first-IsLive q.blocks q r w refl h

-- Bytes are taken off the front of the first block.
shorten-IsHeld :
    (n : ℕ) (b : Block) (rest : List Block) (q : Queue) (r w : Bool)
    → n ≤ blen b
    → q.blocks ≡ b ∷ rest
    → IsHeld q r w
    → IsHeld (record q { blocks = advance b n ∷ rest; dlen = q.dlen - n }) r w
shorten-IsHeld n b rest q r w k e h = record {
  counted = shorten-IsCounted n b rest q k e h.counted;
  limit_ge = h.limit_ge;
  inilim_ge = h.inilim_ge;
  plain = h.plain;
  reads = inl (awake b rest q r e h.reads);
  waits = h.waits;
}

discard_loop-IsHeld :
    (left : ℕ) (bs : List Block) (q : Queue) (r w : Bool)
    → q.blocks ≡ bs
    → IsHeld q r w
    → IsHeld ((discard_loop left bs q).1) r w
unfolding discard_loop
discard_loop-IsHeld left [] q r w e h = h
discard_loop-IsHeld left (b ∷ rest) q r w e h =
    let ih =
      discard_loop-IsHeld (left - blen b) rest (unlink b rest q) r w refl
        (unlink-IsHeld b rest q r w e h) in
    elim (Bool-cases (left == 0)) [
      | inl stop ↦ rw stop h
      | inr more ↦ elim (Bool-cases (leb (blen b) left)) [
        | inl whole ↦ rw (more, whole) ih
        | inr part ↦ rw (more, part) (shorten-IsHeld left b rest q r w (ground arith) e h)
      ]
    ]

pub qdiscard-IsLive : (n : ℕ) (q : Queue) (r w : Bool) → IsLive q r w → Stays (qdiscard n q) r w
unfolding qdiscard
qdiscard-IsLive n q r w h =
    let s = discard_loop-IsHeld n q.blocks q r w refl (held q r w h) in
    restart-IsLive _ _ _ r w (omega (arith, s.limit_ge)) s

-- An empty block is dropped.
skip-IsHeld :
    (b : Block) (rest : List Block) (q : Queue) (r w : Bool)
    → (blen b == 0) ≡ true
    → q.blocks ≡ b ∷ rest
    → IsHeld q r w
    → IsHeld (record q { blocks = rest; len = q.len - balloc b }) r w
skip-IsHeld b rest q r w z e h =
    let u = unlink-IsCounted b rest q e h.counted in
    record {
      counted = record { allocated = u.allocated; filled = ground (arith, u.filled) };
      limit_ge = h.limit_ge;
      inilim_ge = h.inilim_ge;
      plain = h.plain;
      reads = inl (awake b rest q r e h.reads);
      waits = h.waits;
    }

consumed-IsHeld :
    (n : ℕ) (b : Block) (rest : List Block) (q : Queue) (r w : Bool)
    → n ≤ blen b
    → q.blocks ≡ b ∷ rest
    → IsHeld q r w
    → IsHeld (consumed n b rest q) r w
unfolding consumed
consumed-IsHeld n b rest q r w k e h =
    let s = shorten-IsHeld n b rest q r w k e h in
    elim (Bool-cases (q.msg || (n == blen b))) [
      | inl whole ↦ rw whole (unlink-IsHeld (advance b n) rest _ r w refl s)
      | inr part ↦ rw part s
    ]

consume_first-IsLive :
    (len : ℕ) (bs : List Block) (q : Queue) (r w : Bool)
    → q.blocks ≡ bs
    → IsHeld q r w
    → Stays (consume_first len bs q) r w
unfolding consume_first
consume_first-IsLive len [] q r w e h =
    restart-IsLive none (q.limit / 2) (record q { starve = true }) r w
      (bound-pos q.limit h.limit_ge) (ground arith)
consume_first-IsLive len (b ∷ rest) q r w e h = elim (Bool-cases (blen b == 0)) [
  | inl none_here ↦ rw none_here (
      consume_first-IsLive len rest (record q { blocks = rest; len = q.len - balloc b }) r w refl
        (skip-IsHeld b rest q r w none_here e h))
  | inr some_here ↦
      let n : ℕ = if ltb (blen b) len then blen b else len in
      rw some_here (
        restart-IsLive _ (q.limit / 2) _ r w (bound-pos q.limit h.limit_ge)
          (consumed-IsHeld n b rest q r w (ground arith) e h))
]

pub qconsume-IsLive : (n : ℕ) (q : Queue) (r w : Bool) → IsLive q r w → Stays (qconsume n q) r w
unfolding qconsume
qconsume-IsLive n q r w h = consume_first-IsLive n q.blocks q r w refl (held q r w h)
