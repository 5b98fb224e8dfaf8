-- ===== src/Qio/System/Live.antt =====
-- The counts of a queue, and the wakeups that are due, whatever order the processes take.
use drawterm_android.Base.{
  ℕ, ◌≤◌, ◌≡◌, ◌⊎◌, ◌∙◌, ap, refl, Bool, true, false, inl, Option, some, List, [], ◌∷◌, length,
  arith, replicate,
}
use drawterm_android.Qio.{Block, Allocator, blocklen, blockalloclen}
use drawterm_android.Qio.Queue.{Queue, Done, qget, get_first, restart, qopen}
use drawterm_android.Qio.Queue.Write.{iwrite_piece}
use drawterm_android.Qio.Blocks.Content.{fresh_put}
use drawterm_android.Qio.Queue.Counts.{IsCounted}
use drawterm_android.Qio.System.{
  System, Event, get, discard, consume, bread, read, pass, passnolim, produce, bwrite, iwrite,
  set_flow, close, hangup, reopen, flush, set_limit, set_noblock, step, run, after, act, Wait, goes,
  may_wait, or_ends, then_due,
}
use drawterm_android.Qio.System.Laws.{IsLive, Lives, qget-IsLive, qdiscard-IsLive, qconsume-IsLive}
use drawterm_android.Qio.System.Steps.{
  qpass-IsLive, qpassnolim-IsLive, qproduce-IsLive, qbwrite-IsLive, iwrite_piece-IsLive,
  qclose-IsLive, qhangup-IsLive, qreopen-IsLive, qflush-IsLive, qsetlimit-IsLive, qnoblock-IsLive,
  qflow-IsLive,
}
use drawterm_android.Qio.System.Sleeps.{qbread-IsLive, qread-IsLive}

-- A limit below 2 would keep a writer waiting for good, for no length is below half of it.
abbrev pub IsFair : Event → Type 0
IsFair get = Unit
IsFair (discard n) = Unit
IsFair (consume n) = Unit
IsFair (bread n) = Unit
IsFair (read n) = Unit
IsFair (pass b bs) = Unit
IsFair (passnolim b bs) = Unit
IsFair (produce p) = Unit
IsFair (bwrite b bs) = Unit
IsFair (iwrite woken p) = Unit
IsFair set_flow = Unit
IsFair close = Unit
IsFair (hangup msg) = Unit
IsFair reopen = Unit
IsFair flush = Unit
IsFair (set_limit n) = 2 ≤ n
IsFair (set_noblock b) = Unit

abbrev pub AreFair : List Event → Type 0
AreFair [] = Unit
AreFair (e ∷ es) = IsFair e × AreFair es

abbrev Next : Option System → Type 0
Next o = (t : System) × (o ≡ some t) × Lives t

pub act-Lives :
    (m : Allocator) (e : Event) (q : Queue) (r w : Bool)
    → IsFair e
    → IsLive q r w
    → (d : Done Wait) × (act m e q ≡ some d)
      × Lives (then_due (record { queue = q; reader_due = r; writer_due = w }) d)
unfolding act
act-Lives m get q r w f h = (_, refl, qget-IsLive q r w h)
act-Lives m (discard n) q r w f h = (_, refl, qdiscard-IsLive n q r w h)
act-Lives m (consume n) q r w f h = (_, refl, qconsume-IsLive n q r w h)
act-Lives m (bread n) q r w f h =
    let (d, e, k) = qbread-IsLive m n q r w h in (may_wait d, rw e refl, k)
act-Lives m (read n) q r w f h =
    let (d, e, k) = qread-IsLive m n q r w h in (may_wait d, rw e refl, k)
act-Lives m (pass b bs) q r w f h = (_, refl, qpass-IsLive (b ∷ bs) q r w h)
act-Lives m (passnolim b bs) q r w f h = (_, refl, qpassnolim-IsLive (b ∷ bs) q r w h)
act-Lives m (produce p) q r w f h =
    let (d, e, k) = qproduce-IsLive m p q r w h in (goes d, rw e refl, k)
act-Lives m (bwrite b bs) q r w f h = (_, refl, qbwrite-IsLive (b ∷ bs) q r w h)
act-Lives m (iwrite woken p) q r w f h =
    let (b, e, v) = fresh_put m (length p) p (omega arith) in
    (goes (or_ends (iwrite_piece woken b q) q), rw e refl, iwrite_piece-IsLive woken b q r w h)
act-Lives m set_flow q r w f h = (_, refl, qflow-IsLive q r w h)
act-Lives m close q r w f h = (_, refl, qclose-IsLive q r w h)
act-Lives m (hangup msg) q r w f h = (_, refl, qhangup-IsLive msg q r w h)
act-Lives m reopen q r w f h = (_, refl, qreopen-IsLive q r w h)
act-Lives m flush q r w f h = (_, refl, qflush-IsLive q r w h)
act-Lives m (set_limit n) q r w f h = (_, refl, qsetlimit-IsLive n q r w f h)
act-Lives m (set_noblock b) q r w f h = (_, refl, qnoblock-IsLive b q r w h)

step-Lives : (m : Allocator) (e : Event) (s : System) → IsFair e → Lives s → Next (step m e s)
step-Lives m e s f h =
    let (d, x, k) = act-Lives m e s.queue s.reader_due s.writer_due f h in
    (then_due s d, rw x refl, k)

run-Lives :
    (m : Allocator) (es : List Event) (s : System) → AreFair es → Lives s → Next (run m es s)
unfolding run
run-Lives m [] s f h = (s, refl, h)
run-Lives m (e ∷ es) s f h =
    let (t, r, k) = step-Lives m e s f.0 h in
    let (u, z, l) = run-Lives m es t f.1 k in (u, rw (run, r) z, l)

-- A queue that `qopen` has made, on which no process waits.
abbrev pub opened : ℕ → Bool → Bool → Bool → System
opened limit msg kicks has_kick = record {
  queue = qopen limit msg false kicks has_kick;
  reader_due = false;
  writer_due = false;
}

pub opened-Lives :
    (limit : ℕ) (msg kicks has_kick : Bool) → 2 ≤ limit → Lives (opened limit msg kicks has_kick)
unfolding qopen blocklen blockalloclen
opened-Lives limit msg kicks has_kick h = record {
  counted = record { allocated = refl; filled = refl };
  limit_ge = h;
  inilim_ge = h;
  plain = refl;
  reads = inl refl;
  writes = inl refl;
}

-- On a queue that `qopen` has made with a limit of 2 or more and without Qcoalesce, any processes run
-- qget, qdiscard, qconsume, qbread, qread, qpass, qpassnolim, qproduce, qbwrite, rounds of qiwrite,
-- the flag of qflow, qclose, qhangup, qreopen, qflush, qsetlimit and qnoblock, in any order of the
-- sections that these do under the lock, qpass, qpassnolim and qbwrite with one block or more and
-- qsetlimit with 2 or more. Then nothing is accessed outside a block, and the counts of the queue
-- stay right. (pullupqueue is not among these functions.)
pub run-IsCounted :
    (m : Allocator) (es : List Event) (limit : ℕ) (msg kicks has_kick : Bool)
    → AreFair es
    → 2 ≤ limit
    → (t : System) × (run m es (opened limit msg kicks has_kick) ≡ some t) × IsCounted t.queue
run-IsCounted m es limit msg kicks has_kick f h =
    let (t, e, k) = run-Lives m es _ f (opened-Lives limit msg kicks has_kick h) in
    (t, e, k.counted)

get_first-blocks :
    (b : Block) (rest : List Block) (q : Queue) → (get_first (b ∷ rest) q).queue.blocks ≡ rest
unfolding get_first restart
get_first-blocks b rest q = ground arith

drained :
    (m : Allocator) (bs : List Block) (s : System)
    → s.queue.blocks ≡ bs
    → Lives s
    → (u : System) × (run m (replicate (length bs) get) s ≡ some u)
      × (u.queue.blocks ≡ [])
      × Lives u
unfolding run act qget
drained m [] s e h = (s, refl, e, h)
drained m (b ∷ bs) s e h =
    let next = after (qget s.queue) s.reader_due s.writer_due in
    let (u, r, z, k) =
      drained m bs next
        (ap (λ t. (get_first t s.queue).queue.blocks) e ∙ get_first-blocks b bs s.queue)
        (qget-IsLive s.queue s.reader_due s.writer_due h) in
    (u, r, z, k)

-- After any run of the functions of `run-IsCounted` under its conditions, by any number of readers and
-- writers: while a wakeup of a writer is due, that is, since qflow set Qflow on a queue with blocks
-- and until a wakeup of `q->wr` is sent, Qflow is set and the queue has a block; and when the blocks
-- that are in the queue are taken off by `qget`, one call for each of them, the wakeup is sent, and
-- then the queue is empty.
pub run-wakes_writer :
    (m : Allocator) (es : List Event) (limit : ℕ) (msg kicks has_kick : Bool)
    → AreFair es
    → 2 ≤ limit
    → (t : System) × (run m es (opened limit msg kicks has_kick) ≡ some t)
      × ((t.writer_due ≡ false) ⊎ ((t.queue.flow ≡ true) × (1 ≤ length t.queue.blocks)))
      × (u : System) × (run m (replicate (length t.queue.blocks) get) t ≡ some u)
      × (u.queue.blocks ≡ [])
      × (u.writer_due ≡ false)
run-wakes_writer m es limit msg kicks has_kick f h =
    let (t, e, k) = run-Lives m es _ f (opened-Lives limit msg kicks has_kick h) in
    let (u, r, z, l) = drained m t.queue.blocks t refl k in
    let b = l.writes in (t, e, k.writes, u, r, z, ground (arith, b, z))
