-- ===== src/Qio/Queue/Read.antt =====
-- Reading a queue from a process: qwait, qremove, qputback, qwakeup_iunlock, qbread and qread of
-- kern/qio.c, from the lock of the queue on. A process that finds the queue empty and open sleeps;
-- it begins anew when it wakes.
use mathlib.Core.Option
use drawterm_android.Base.{
  ℕ, ◌+◌, ◌-◌, ◌/◌, ltb, leb, ◌==◌, if◌then◌else◌, Bool, true, false, ◌&&◌, ◌||◌, Option, none,
  some, List, [], ◌∷◌, length,
}
use drawterm_android.Qio.{Block, blen, balloc, shorten, Allocator}
use drawterm_android.Qio.Blocks.{readblist, splitblock}
use drawterm_android.Qio.Queue.{Queue, Done, writer, kick, unlink, hungup}

-- `ended` is nil or 0 on a closed queue, `failed` is `error(q->err)`, `asleep` a process that has
-- set Qstarve and sleeps once the lock is given up, which is not part of the function here.
pub data Outcome (A : Type 0) : Type 0 where
  value : A → Outcome A
  ended : Outcome A
  failed : List ℕ → Outcome A
  asleep : Outcome A

unfoldable pub same_text : List ℕ → List ℕ → Bool
same_text [] [] = true
same_text [] (b ∷ t) = false
same_text (a ∷ s) [] = false
same_text (a ∷ s) (b ∷ t) = a == b && same_text s t

-- `qwait` on a queue with no block. On a closed queue the reads are counted.
unfoldable pub wait_empty : {A : Type 0} → Queue → Done (Outcome A)
wait_empty {A} q =
    let counted = record q { eof = q.eof + 1 } in
    let out : Done (Outcome A) = record { result = failed q.err; signals = []; queue = counted } in
    if q.closed
    then (if ltb 3 (q.eof + 1)
        then out
        else if length q.err == 0 || same_text q.err hungup
        then record { result = ended; signals = []; queue = counted }
        else out)
    else record { result = asleep; signals = []; queue = record q { starve = true } }

abbrev pub qputback : Block → Queue → Queue
qputback b q = record q { blocks = b ∷ q.blocks; len = q.len + balloc b; dlen = q.dlen + blen b }

-- `qwakeup_iunlock`: flow control, get producer going again.
unfoldable pub resume : {A : Type 0} → A → Queue → Done A
resume r q =
    if q.flow && ltb q.len (q.limit / 2)
    then record {
      result = r;
      signals = if q.has_kick then kick ∷ writer ∷ [] else writer ∷ [];
      queue = record q { flow = false };
    }
    else record { result = r; signals = []; queue = q }

-- The head is kept and the tail goes back.
unfoldable pub part_block : Queue → Option (Block × Block) → Option (Done (Outcome Block))
part_block q none = none
part_block q (some (head, tail)) = some (resume (value head) (qputback tail q))

unfoldable pub bread_first : Allocator → ℕ → List Block → Queue → Option (Done (Outcome Block))
bread_first m len [] q = some (wait_empty q)
bread_first m len (b ∷ rest) q =
    let taken = unlink b rest q in
    if leb (blen b) len
    then some (resume (value b) taken)
    else if q.msg
    then some (resume (value (shorten b len)) taken)
    else part_block taken (splitblock m (blen b - len) b)

unfoldable pub qbread : Allocator → ℕ → Queue → Option (Done (Outcome Block))
qbread m len q = bread_first m len q.blocks q

-- The blocks that are taken off, the bytes in them, and the queue without them.
pub record Batch : Type 0 where
  pub first : List Block
  pub count : ℕ
  pub queue : Queue

-- "grab the first block plus as many following blocks as will partially fit in the read"; `n` is the
-- count before the block.
unfoldable pub gather : ℕ → ℕ → Block → List Block → Queue → Batch
gather len n b [] q = record { first = b ∷ []; count = n + blen b; queue = unlink b [] q }
gather len n b (c ∷ rest) q =
    let more = gather len (n + blen b) c rest (unlink b (c ∷ rest) q) in
    if leb len (n + blen b)
    then record { first = b ∷ []; count = n + blen b; queue = unlink b (c ∷ rest) q }
    else record { first = b ∷ more.first; count = more.count; queue = more.queue }

-- `splitblock(last, n)`: the chain with the head of its last block, and the tail.
unfoldable pub split_last : Allocator → ℕ → List Block → Option (List Block × Block)
split_last m n [] = none
split_last m n (b ∷ []) = Option.map (λ (t : Block × Block). (t.0 ∷ [], t.1)) (splitblock m n b)
split_last m n (b ∷ c ∷ rest) =
    Option.map (λ (t : List Block × Block). (b ∷ t.0, t.1)) (split_last m n (c ∷ rest))

unfoldable pub part_read :
    ℕ → Queue → Option (List Block × Block) → Option (Done (Outcome (List ℕ)))
part_read len q none = none
part_read len q (some (first, tail)) =
    some (resume (value (readblist len 0 first)) (qputback tail q))

unfoldable pub finish_read : Allocator → ℕ → Batch → Option (Done (Outcome (List ℕ)))
finish_read m len g =
    let split = split_last m (g.count - len) g.first in
    if g.queue.msg || leb g.count len
    then some (resume (value (readblist len 0 g.first)) g.queue)
    else part_read len g.queue split

-- When coalescing, blocks of length 0 just go away.
unfoldable pub read_first : Allocator → ℕ → List Block → Queue → Option (Done (Outcome (List ℕ)))
read_first m len [] q = some (wait_empty q)
read_first m len (b ∷ rest) q =
    let again = read_first m len rest (unlink b rest q) in
    let one_block : Batch = record { first = b ∷ []; count = blen b; queue = unlink b rest q } in
    if q.coalesce
    then (if blen b == 0 then again else finish_read m len (gather len 0 b rest q))
    else finish_read m len one_block

-- The bytes copied.
unfoldable pub qread : Allocator → ℕ → Queue → Option (Done (Outcome (List ℕ)))
qread m len q = read_first m len q.blocks q
