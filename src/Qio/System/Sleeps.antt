-- ===== src/Qio/System/Sleeps.antt =====
-- That the readers that may wait send the wakeups that are due: qbread and qread, where the queue does
-- not coalesce.
use drawterm_android.Base.{
  ℕ, ◌-◌, ◌≡◌, ◌∙◌, ap, refl, leb, if_true, if_false, Bool, true, false, Bool-cases, inl, inr, ◌||◌,
  some, List, [], ◌∷◌, arith,
}
use drawterm_android.Qio.{Block, blen, shorten, Allocator}
use drawterm_android.Qio.Blocks.{readblist}
use drawterm_android.Qio.Blocks.Trim.{splitblock_lem}
use drawterm_android.Qio.Queue.{Queue, Done, unlink}
use drawterm_android.Qio.Queue.Read.{
  Outcome, value, wait_empty, qputback, resume, part_block, bread_first, qbread, split_last,
  part_read, finish_read, read_first, qread,
}
use drawterm_android.Qio.Queue.ReadLaws.{qputback-IsCounted}
use drawterm_android.Qio.System.{System, may_wait, then_due}
use drawterm_android.Qio.System.Laws.{no_blocks, Reads, IsLive, Lives, IsHeld, held, unlink-IsHeld}

-- The wakeups that are due after a read.
abbrev pub after_read : {A : Type 0} → Done (Outcome A) → Bool → Bool → System
after_read d r w =
    then_due (record { queue = d.queue; reader_due = r; writer_due = w }) (may_wait d)

abbrev pub LiveRead : {A : Type 0} → Done (Outcome A) → Bool → Type 0
LiveRead d w = Lives (after_read d false w)

resume-IsLive :
    {A : Type 0} (a : A) (q : Queue) (w : Bool) → IsHeld q false w → LiveRead (resume (value a) q) w
unfolding resume
resume-IsLive a q w h = ground (arith, no_blocks q.blocks)

wait_empty-IsLive :
    (A : Type 0) (q : Queue) (w : Bool)
    → q.blocks ≡ []
    → IsLive q false w
    → LiveRead (wait_empty {A = A} q) w
unfolding wait_empty
wait_empty-IsLive A q w e h = ground (arith, h)

due_empty : (q : Queue) → Reads q true → q.blocks ≡ []
due_empty q h = ground arith

-- A process that waits for a wakeup that is due already.
still_due-IsLive :
    (A : Type 0) (q : Queue) (w : Bool)
    → IsLive q true w
    → Lives (after_read (wait_empty {A = A} q) true w)
unfolding wait_empty
still_due-IsLive A q w h = ground (arith, h)

qputback-IsHeld :
    (b : Block) (q : Queue) (w : Bool) → IsHeld q false w → IsHeld (qputback b q) false w
qputback-IsHeld b q w h = record {
  counted = qputback-IsCounted b q h.counted;
  limit_ge = h.limit_ge;
  inilim_ge = h.inilim_ge;
  plain = h.plain;
  reads = inl refl;
  waits = h.waits;
}

bread_first-IsLive :
    (m : Allocator) (len : ℕ) (bs : List Block) (q : Queue) (w : Bool)
    → q.blocks ≡ bs
    → IsLive q false w
    → (d : Done (Outcome Block)) × (bread_first m len bs q ≡ some d) × LiveRead d w
unfolding bread_first part_block
bread_first-IsLive m len [] q w e h = (wait_empty q, refl, wait_empty-IsLive Block q w e h)
bread_first-IsLive m len (b ∷ rest) q w e h =
    let u = unlink-IsHeld b rest q false w e (held q false w h) in
    elim (Bool-cases (leb (blen b) len)) [
      | inl all ↦ (_, if_true (leb (blen b) len) _ _ all, resume-IsLive b (unlink b rest q) w u)
      | inr more ↦ elim (Bool-cases q.msg) [
        | inl cut ↦ (
          _,
          if_false (leb (blen b) len) _ _ more ∙ if_true q.msg _ _ cut,
          resume-IsLive (shorten b len) (unlink b rest q) w u,
        )
        | inr split ↦
            let (front, tail, s, v, l) = splitblock_lem m (blen b - len) b (omega arith) in
            (
              resume (value front) (qputback tail (unlink b rest q)),
              if_false (leb (blen b) len) _ _ more
                  ∙ if_false q.msg _ _ split
                  ∙ ap (part_block (unlink b rest q)) s,
              resume-IsLive front _ w (qputback-IsHeld tail (unlink b rest q) w u),
            )
      ]
    ]

pub qbread-IsLive :
    (m : Allocator) (len : ℕ) (q : Queue) (r w : Bool)
    → IsLive q r w
    → (d : Done (Outcome Block)) × (qbread m len q ≡ some d) × Lives (after_read d r w)
unfolding qbread bread_first
qbread-IsLive m len q false w h = bread_first-IsLive m len q.blocks q w refl h
qbread-IsLive m len q true w h = (
  wait_empty q,
  ap (λ t. bread_first m len t q) (due_empty q h.reads),
  still_due-IsLive Block q w h,
)

-- The one block that is read, whole or in part.
one_block-IsLive :
    (m : Allocator) (len : ℕ) (b : Block) (q : Queue) (w : Bool)
    → IsHeld q false w
    → (d : Done (Outcome (List ℕ))) × (finish_read m len
          (record { first = b ∷ []; count = blen b; queue = q })
        ≡ some d)
      × LiveRead d w
unfolding finish_read part_read split_last
one_block-IsLive m len b q w h = elim (Bool-cases (q.msg || leb (blen b) len)) [
  | inl all ↦ (
    _,
    if_true (q.msg || leb (blen b) len) _ _ all,
    resume-IsLive (readblist len 0 (b ∷ [])) q w h,
  )
  | inr more ↦
      let (front, tail, s, v, l) = splitblock_lem m (blen b - len) b (omega arith) in
      (
        resume (value (readblist len 0 (front ∷ []))) (qputback tail q),
        if_false (q.msg || leb (blen b) len) _ _ more ∙ rw (split_last, s) refl,
        resume-IsLive _ _ w (qputback-IsHeld tail q w h),
      )
]

read_first-IsLive :
    (m : Allocator) (len : ℕ) (bs : List Block) (q : Queue) (w : Bool)
    → q.blocks ≡ bs
    → IsLive q false w
    → (d : Done (Outcome (List ℕ))) × (read_first m len bs q ≡ some d) × LiveRead d w
unfolding read_first
read_first-IsLive m len [] q w e h = (wait_empty q, refl, wait_empty-IsLive (List ℕ) q w e h)
read_first-IsLive m len (b ∷ rest) q w e h =
    let u = unlink-IsHeld b rest q false w e (held q false w h) in
    let (d, r, k) = one_block-IsLive m len b (unlink b rest q) w u in
    (d, if_false q.coalesce _ _ h.plain ∙ r, k)

pub qread-IsLive :
    (m : Allocator) (len : ℕ) (q : Queue) (r w : Bool)
    → IsLive q r w
    → (d : Done (Outcome (List ℕ))) × (qread m len q ≡ some d) × Lives (after_read d r w)
unfolding qread read_first
qread-IsLive m len q false w h = read_first-IsLive m len q.blocks q w refl h
qread-IsLive m len q true w h = (
  wait_empty q,
  ap (λ t. read_first m len t q) (due_empty q h.reads),
  still_due-IsLive (List ℕ) q w h,
)
