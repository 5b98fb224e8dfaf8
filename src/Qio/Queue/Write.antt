-- ===== src/Qio/Queue/Write.antt =====
-- Writing a queue: qbwrite, qflow, and a round of the loop of qiwrite, of kern/qio.c.
use drawterm_android.Base.{
  ℕ, ◌/◌, leb, if◌then◌else◌, Bool, true, false, ◌&&◌, ◌||◌, Option, none, some, List, [], ◌∷◌,
}
use drawterm_android.Qio.{Block, blen, blocklen}
use drawterm_android.Qio.Queue.{Queue, Done, Signal, reader, kick, qaddlist}

-- The length returned for blocks that are queued, dropped or given to the bypass, or `error(q->err)`.
pub data Written : Type 0 where
  queued : ℕ → Written
  dropped : ℕ → Written
  bypassed : ℕ → Written
  refused : List ℕ → Written

abbrev pub starving : Queue → List Signal
starving q = if q.starve then reader ∷ [] else []

-- The blocks are in the queue: the kick and the wakeup.
unfoldable pub announce : ℕ → Queue → Done Written
announce n q = record {
  result = queued n;
  signals = if q.has_kick && (q.starve || q.kicks) then kick ∷ starving q else starving q;
  queue = record q { starve = false };
}

-- `qbwrite` up to its flow control.
unfoldable pub qbwrite : List Block → Queue → Done Written
qbwrite bs q =
    if q.has_bypass
    then record { result = bypassed (blocklen bs); signals = []; queue = q }
    else if q.closed
    then record { result = refused q.err; signals = []; queue = q }
    else if leb q.limit q.len && q.noblock
    then record { result = dropped (blocklen bs); signals = []; queue = q }
    else announce (blocklen bs) (qaddlist bs q)

-- What `qflow` does to the queue. It tests `noblock` and `qnotfull` before, without the lock, and
-- sleeps on `q->wr` after it, with the lock given up.
unfoldable pub qflow : Queue → Queue
qflow q = record q { flow = true }

-- A round of the loop of `qiwrite`, for one piece, up to its wakeup: `none` ends the loop. `woken` is
-- `dowakeup` from the rounds before. The limit for kernel prints is twice as high.
unfoldable pub iwrite_piece : Bool → Block → Queue → Option (Done ℕ)
iwrite_piece woken b q =
    if q.closed || leb q.limit (q.len / 2)
    then none
    else some (record {
      result = blen b;
      signals =
          if woken || q.starve
          then (if q.has_kick then kick ∷ reader ∷ [] else reader ∷ [])
          else [];
      queue = record (qaddlist (b ∷ []) q) { starve = false };
    })
