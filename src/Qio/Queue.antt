-- ===== src/Qio/Queue.antt =====
-- The queues of kern/qio.c. Each function here is what one process does between taking the lock of
-- the queue and releasing it, and gives the processes that it then wakes and whether it kicks the
-- output. The bits of `state` are fields. `blast` is the last block of a queue that has blocks, and
-- is not read of one that has none; so it is not stored. The counts are `int` in C.
pub mod Read
pub mod ReadLaws
pub mod Write
pub mod Counts
pub mod Order
pub mod Added
pub mod Fifo
use mathlib.Core.Option
use drawterm_android.Base.{
  ℕ, ◌+◌, ◌-◌, ◌/◌, ltb, leb, ◌==◌, if◌then◌else◌, Bool, true, false, ◌&&◌, ◌||◌, Option, none,
  some, List, [], ◌∷◌, ◌++◌, length, take, drop,
}
use drawterm_android.Qio.{Block, blen, balloc, put, advance, Allocator, blocklen, blockalloclen}
use drawterm_android.Qio.Blocks.{pullupblock, readblist}

pub record Queue : Type 0 where
  pub blocks : List Block
  pub len : ℕ
  pub dlen : ℕ
  pub limit : ℕ
  pub inilim : ℕ
  pub starve : Bool
  pub msg : Bool
  pub closed : Bool
  pub flow : Bool
  pub coalesce : Bool
  pub kicks : Bool
  pub noblock : Bool
  pub eof : ℕ
  pub has_kick : Bool
  pub has_bypass : Bool
  pub err : List ℕ

-- `wakeup(&q->rr)`, `wakeup(&q->wr)` and `q->kick(q->arg)`.
pub data Signal : Type 0 where
  reader : Signal
  writer : Signal
  kick : Signal

-- What a function gives, the signals that it sends, and the queue afterwards.
pub record Done (A : Type 0) : Type 0 where
  pub result : A
  pub signals : List Signal
  pub queue : Queue

-- "if writer flow controlled, restart", below a bound.
unfoldable pub restart : {A : Type 0} → A → ℕ → Queue → Done A
restart r bound q =
    if q.flow && ltb q.len bound
    then record { result = r; signals = writer ∷ []; queue = record q { flow = false } }
    else record { result = r; signals = []; queue = q }

-- The first block is taken off.
abbrev pub unlink : Block → List Block → Queue → Queue
unlink b rest q = record q { blocks = rest; len = q.len - balloc b; dlen = q.dlen - blen b }

unfoldable pub get_first : List Block → Queue → Done (Option Block)
get_first [] q = record { result = none; signals = []; queue = record q { starve = true } }
get_first (b ∷ rest) q = restart (some b) (q.limit / 2) (unlink b rest q)

unfoldable pub qget : Queue → Done (Option Block)
qget q = get_first q.blocks q

-- The loop of `qdiscard`: `left` is `len - sofar`, and the number is what it still adds to `sofar`.
unfoldable pub discard_loop : ℕ → List Block → Queue → ℕ × Queue
discard_loop left [] q = (0, q)
discard_loop left (b ∷ rest) q =
    let more = discard_loop (left - blen b) rest (unlink b rest q) in
    if left == 0
    then (0, q)
    else if leb (blen b) left
    then (blen b + more.0, more.1)
    else (left, record q { blocks = advance b left ∷ rest; dlen = q.dlen - left })

unfoldable pub qdiscard : ℕ → Queue → Done ℕ
qdiscard len q = let r = discard_loop len q.blocks q in restart (r.0) ((r.1).limit) (r.1)

-- What `qconsume` leaves of the queue when `n` bytes of the first block are copied.
unfoldable pub consumed : ℕ → Block → List Block → Queue → Queue
consumed n b rest q =
    let left = record q { blocks = advance b n ∷ rest; dlen = q.dlen - n } in
    if q.msg || (n == blen b) then unlink (advance b n) rest left else left

-- `qconsume`: empty blocks are dropped first. The result is the bytes copied, `none` for -1.
unfoldable pub consume_first : ℕ → List Block → Queue → Done (Option (List ℕ))
consume_first len [] q = restart none (q.limit / 2) (record q { starve = true })
consume_first len (b ∷ rest) q =
    let later = consume_first len rest (record q { blocks = rest; len = q.len - balloc b }) in
    let n = if ltb (blen b) len then blen b else len in
    if blen b == 0
    then later
    else restart (some (take n b.bytes)) (q.limit / 2) (consumed n b rest q)

unfoldable pub qconsume : ℕ → Queue → Done (Option (List ℕ))
qconsume len q = consume_first len q.blocks q

-- A chain with one block at least is added; the result is the bytes added.
abbrev pub qaddlist : List Block → Queue → Queue
qaddlist bs q = record q {
  blocks = q.blocks ++ bs;
  len = q.len + blockalloclen bs;
  dlen = q.dlen + blocklen bs;
}

-- "wakeup anyone consuming at the other end", if it starves.
unfoldable pub feed : {A : Type 0} → A → Queue → Done A
feed r q =
    if q.starve
    then record { result = r; signals = reader ∷ []; queue = record q { starve = false } }
    else record { result = r; signals = []; queue = q }

-- Flow control is set where the queue is at a bound or above.
abbrev pub control : ℕ → Queue → Queue
control bound q = record q { flow = q.flow || leb bound q.len }

-- The result `none` is -1.
unfoldable pub qpassnolim : List Block → Queue → Done (Option ℕ)
qpassnolim bs q =
    if q.closed
    then record { result = some 0; signals = []; queue = q }
    else feed (some (blocklen bs)) (control (q.limit / 2) (qaddlist bs q))

unfoldable pub qpass : List Block → Queue → Done (Option ℕ)
qpass bs q =
    if leb q.limit q.len then record { result = none; signals = []; queue = q } else qpassnolim bs q

-- `b` is the new block with the bytes in it. It is not freed where the queue is full.
unfoldable pub produce : Block → Queue → Done (Option ℕ)
produce b q =
    if leb q.limit q.len
    then record { result = none; signals = []; queue = record q { flow = true } }
    else feed (some (blen b)) (control q.limit (qaddlist (b ∷ []) q))

unfoldable pub filled : Queue → Option Block → Option (Done (Option ℕ))
filled q none = none
filled q (some b) = some (produce b q)

-- `none` is a write behind the new block.
unfoldable pub qproduce : Allocator → List ℕ → Queue → Option (Done (Option ℕ))
qproduce m p q = filled q (put (m.allocb (length p)) p)

unfoldable pub qcopy : Allocator → ℕ → ℕ → Queue → Option Block
qcopy m len offset q = put (m.allocb len) (readblist len offset q.blocks)

-- The queue that `mallocz` clears, with no function to kick or to bypass.
abbrev pub cleared : Queue
cleared = record {
  blocks = [];
  len = 0;
  dlen = 0;
  limit = 0;
  inilim = 0;
  starve = false;
  msg = false;
  closed = false;
  flow = false;
  coalesce = false;
  kicks = false;
  noblock = false;
  eof = 0;
  has_kick = false;
  has_bypass = false;
  err = [];
}

-- The three bits that may be set in `msg`, and whether there is a `kick`.
unfoldable pub qopen : ℕ → Bool → Bool → Bool → Bool → Queue
qopen limit msg coalesce kicks has_kick = record cleared {
  limit = limit;
  inilim = limit;
  starve = true;
  msg = msg;
  coalesce = coalesce;
  kicks = kicks;
  has_kick = has_kick;
}

unfoldable pub qbypass : Queue
qbypass = record cleared { has_bypass = true }

-- Ehungup of kern/error.c.
abbrev pub hungup : List ℕ
hungup =
    105 ∷ 47 ∷ 111 ∷ 32 ∷ 111 ∷ 110 ∷ 32 ∷ 104 ∷ 117 ∷ 110 ∷ 103 ∷ 117 ∷ 112 ∷ 32 ∷ 99 ∷ 104 ∷ 97
    ∷ 110 ∷ 110 ∷ 101 ∷ 108 ∷ []

unfoldable pub qclose : Queue → Done (Unit {0})
qclose q = record {
  result = tt;
  signals = reader ∷ writer ∷ [];
  queue = record q {
    closed = true;
    flow = false;
    starve = false;
    err = hungup;
    blocks = [];
    len = 0;
    dlen = 0;
    noblock = false;
  };
}

-- `msg` of ERRMAX - 1 bytes at most; an empty one and nil are the same.
unfoldable pub qhangup : List ℕ → Queue → Done (Unit {0})
qhangup msg q = record {
  result = tt;
  signals = reader ∷ writer ∷ [];
  queue = record q { closed = true; err = if length msg == 0 then hungup else msg };
}

unfoldable pub qreopen : Queue → Done (Unit {0})
qreopen q = record {
  result = tt;
  signals = [];
  queue = record q { closed = false; starve = true; eof = 0; limit = q.inilim };
}

unfoldable pub qflush : Queue → Done (Unit {0})
qflush q = record {
  result = tt;
  signals = writer ∷ [];
  queue = record q { blocks = []; len = 0; dlen = 0 };
}

unfoldable pub qsetlimit : ℕ → Queue → Done (Unit {0})
qsetlimit limit q = record { result = tt; signals = []; queue = record q { limit = limit } }

unfoldable pub qnoblock : Bool → Queue → Done (Unit {0})
qnoblock onoff q = record { result = tt; signals = []; queue = record q { noblock = onoff } }

-- Space before flow control, not below 0.
unfoldable pub qwindow : Queue → ℕ
qwindow q = q.limit - q.len

unfoldable pub qnotfull : Queue → Bool
qnotfull q = ltb q.len q.limit || q.closed

unfoldable pub qlen : Queue → ℕ
qlen q = q.dlen

unfoldable pub qcanread : Queue → Bool
qcanread q = ltb 0 (length q.blocks)

unfoldable pub qisclosed : Queue → Bool
qisclosed q = q.closed

unfoldable pub qfull : Queue → Bool
qfull q = q.flow

-- `none` is a read through nil. `len` stays as it is.
unfoldable pub pullup_first : Allocator → ℕ → List Block → Queue → Option Queue
pullup_first m n [] q = none
pullup_first m n (b ∷ rest) q =
    if leb n (blen b)
    then some q
    else Option.map (λ bs. record q { blocks = bs }) (pullupblock m n (b ∷ rest))

unfoldable pub pullupqueue : Allocator → ℕ → Queue → Option Queue
pullupqueue m n q = pullup_first m n q.blocks q
