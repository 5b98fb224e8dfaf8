-- ===== src/Qio/System/Steps.antt =====
-- That the producers and the other functions send the wakeups that are due.
use drawterm_android.Base.{
  ℕ, ◌/◌, ◌≤◌, ◌≡◌, ◌⊎◌, refl, ltb, leb, if◌then◌else◌, Bool, true, false, Bool-cases, inl, inr,
  ◌&&◌, ◌||◌, Option, some, List, [], ◌∷◌, ◌++◌, length, arith,
}
use drawterm_android.Qio.{Block, blen, Allocator, blocklen, blockalloclen}
use drawterm_android.Qio.Blocks.Content.{fresh_put}
use drawterm_android.Qio.Queue.{
  Queue, Done, qaddlist, feed, control, qpassnolim, qpass, produce, filled, qproduce, qclose,
  qhangup, qreopen, qflush, qsetlimit, qnoblock,
}
use drawterm_android.Qio.Queue.Counts.{IsCounted, qaddlist-IsCounted}
use drawterm_android.Qio.Queue.Write.{announce, qbwrite, qflow, iwrite_piece}
use drawterm_android.Qio.System.{or_ends}
use drawterm_android.Qio.System.Laws.{Writes, IsLive, Stays}

-- What `feed` and its like are given: the flag is set where a wakeup of a reader is due.
record IsFed (q : Queue) (r w : Bool) : Type 0 where
  counted : IsCounted q
  limit_ge : 2 ≤ q.limit
  inilim_ge : 2 ≤ q.inilim
  plain : q.coalesce ≡ false
  starves : (r ≡ false) ⊎ (q.starve ≡ true)
  writes : Writes q w

longer : (bs cs : List Block) → 1 ≤ length bs → 1 ≤ length (bs ++ cs)
longer [] cs h = elim h [ ]
longer (b ∷ bs) cs h = omega arith

qaddlist-IsFed :
    (bs : List Block) (q : Queue) (r w : Bool) → IsLive q r w → IsFed (qaddlist bs q) r w
qaddlist-IsFed bs q r w h =
    let c = qaddlist-IsCounted bs q h.counted in ground (arith, longer q.blocks bs)

feed-IsLive : {A : Type 0} (a : A) (q : Queue) (r w : Bool) → IsFed q r w → Stays (feed a q) r w
unfolding feed
feed-IsLive a q r w h = ground arith

control-IsFed : (bound : ℕ) (q : Queue) (r w : Bool) → IsFed q r w → IsFed (control bound q) r w
control-IsFed bound q r w h = ground arith

Stays-if :
    {A : Type 0} (b : Bool) (d e : Done A) (r w : Bool)
    → (b ≡ true → Stays d r w)
    → (b ≡ false → Stays e r w)
    → Stays (if b then d else e) r w
Stays-if true d e r w h k = h refl
Stays-if false d e r w h k = k refl

nothing-IsLive :
    {A : Type 0} (a : A) (q : Queue) (r w : Bool)
    → IsLive q r w
    → Stays (record { result = a; signals = []; queue = q }) r w
nothing-IsLive a q r w h = h

pub qpassnolim-IsLive :
    (bs : List Block) (q : Queue) (r w : Bool) → IsLive q r w → Stays (qpassnolim bs q) r w
unfolding qpassnolim
qpassnolim-IsLive bs q r w h =
    Stays-if q.closed _ _ r w (λ shut. h)
      (λ open_.
        feed-IsLive (some (blocklen bs)) _ r w
          (control-IsFed (q.limit / 2) (qaddlist bs q) r w (qaddlist-IsFed bs q r w h)))

pub qpass-IsLive :
    (bs : List Block) (q : Queue) (r w : Bool) → IsLive q r w → Stays (qpass bs q) r w
unfolding qpass
qpass-IsLive bs q r w h =
    Stays-if (leb q.limit q.len) _ _ r w (λ full. h) (λ room. qpassnolim-IsLive bs q r w h)

produce-IsLive : (b : Block) (q : Queue) (r w : Bool) → IsLive q r w → Stays (produce b q) r w
unfolding produce
produce-IsLive b q r w h =
    Stays-if (leb q.limit q.len) _ _ r w
      (λ full. record {
        counted = ground arith;
        limit_ge = h.limit_ge;
        inilim_ge = h.inilim_ge;
        plain = h.plain;
        reads = h.reads;
        writes = ground arith;
      })
      (λ room.
        feed-IsLive (some (blen b)) _ r w
          (control-IsFed q.limit (qaddlist (b ∷ []) q) r w (qaddlist-IsFed (b ∷ []) q r w h)))

pub qproduce-IsLive :
    (m : Allocator) (p : List ℕ) (q : Queue) (r w : Bool)
    → IsLive q r w
    → (d : Done (Option ℕ)) × (qproduce m p q ≡ some d) × Stays d r w
unfolding qproduce filled
qproduce-IsLive m p q r w h =
    let (b, e, v) = fresh_put m (length p) p (omega arith) in
    (produce b q, rw e refl, produce-IsLive b q r w h)

announce-IsLive : (n : ℕ) (q : Queue) (r w : Bool) → IsFed q r w → Stays (announce n q) r w
unfolding announce
announce-IsLive n q r w h = ground arith

pub qbwrite-IsLive :
    (bs : List Block) (q : Queue) (r w : Bool) → IsLive q r w → Stays (qbwrite bs q) r w
unfolding qbwrite
qbwrite-IsLive bs q r w h =
    Stays-if q.has_bypass _ _ r w (λ y. h)
      (λ n.
        Stays-if q.closed _ _ r w (λ y. h)
          (λ n.
            Stays-if (leb q.limit q.len && q.noblock) _ _ r w (λ y. h)
              (λ n. announce-IsLive (blocklen bs) (qaddlist bs q) r w (qaddlist-IsFed bs q r w h))))

pub iwrite_piece-IsLive :
    (woken : Bool) (b : Block) (q : Queue) (r w : Bool)
    → IsLive q r w
    → Stays (or_ends (iwrite_piece woken b q) q) r w
unfolding iwrite_piece
iwrite_piece-IsLive woken b q r w h =
    let f = qaddlist-IsFed (b ∷ []) q r w h in
    elim (Bool-cases (q.closed || leb q.limit (q.len / 2))) [
      | inl shut ↦ rw shut h
      | inr open_ ↦ rw open_ (ground (arith, f))
    ]

pub qclose-IsLive : (q : Queue) (r w : Bool) → IsLive q r w → Stays (qclose q) r w
unfolding qclose blocklen blockalloclen
qclose-IsLive q r w h = ground (arith, h)

pub qhangup-IsLive :
    (msg : List ℕ) (q : Queue) (r w : Bool) → IsLive q r w → Stays (qhangup msg q) r w
unfolding qhangup
qhangup-IsLive msg q r w h = ground (arith, h)

pub qreopen-IsLive : (q : Queue) (r w : Bool) → IsLive q r w → Stays (qreopen q) r w
unfolding qreopen
qreopen-IsLive q r w h = ground (arith, h)

pub qflush-IsLive : (q : Queue) (r w : Bool) → IsLive q r w → Stays (qflush q) r w
unfolding qflush blocklen blockalloclen
qflush-IsLive q r w h = ground (arith, h)

pub qsetlimit-IsLive :
    (n : ℕ) (q : Queue) (r w : Bool) → 2 ≤ n → IsLive q r w → Stays (qsetlimit n q) r w
unfolding qsetlimit
qsetlimit-IsLive n q r w k h = ground (arith, h)

pub qnoblock-IsLive : (b : Bool) (q : Queue) (r w : Bool) → IsLive q r w → Stays (qnoblock b q) r w
unfolding qnoblock
qnoblock-IsLive b q r w h = ground (arith, h)

pub qflow-IsLive :
    (q : Queue) (r w : Bool)
    → IsLive q r w
    → IsLive (qflow q) r (w || ltb 0 (length (qflow q).blocks))
unfolding qflow
qflow-IsLive q r w h = ground (arith, h)
