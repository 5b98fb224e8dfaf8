-- ===== src/Qio/Queue/Fifo.antt =====
-- A queue is a pipe of bytes: what is read is what was written, in its order.
use mathlib.Core.Option
use drawterm_android.Base.{
  ℕ, ◌≡◌, ◌∙◌, ap, sym, refl, leb, if◌then◌else◌, Bool, true, false, ◌&&◌, Option, none, some, List,
  [], ◌∷◌, ◌++◌, append_assoc, append-nil,
}
use drawterm_android.Qio.{Block, Allocator, content}
use drawterm_android.Qio.Queue.{Queue, Done}
use drawterm_android.Qio.Queue.Counts.{IsCounted, qaddlist-IsCounted}
use drawterm_android.Qio.Queue.Read.{qread}
use drawterm_android.Qio.Queue.ReadLaws.{taken, qread-keeps}
use drawterm_android.Qio.Queue.Added.{qaddlist-content}
use drawterm_android.Qio.Queue.Write.{
  Written, queued, dropped, bypassed, refused, announce, qbwrite,
}

-- What two processes do, one that writes blocks and one that reads bytes.
pub data Use : Type 0 where
  send : List Block → Use
  receive : ℕ → Use

abbrev pub accepted : Written → List Block → List ℕ
accepted (queued n) bs = content bs
accepted (dropped n) bs = []
accepted (bypassed n) bs = []
accepted (refused e) bs = []

-- The bytes that were queued, those that were read, and the queue afterwards.
pub record Trade : Type 0 where
  pub sent : List ℕ
  pub received : List ℕ
  pub left : Queue

abbrev pub more_sent : List ℕ → Option Trade → Option Trade
more_sent p = Option.map (λ (t : Trade). record t { sent = p ++ t.sent })

abbrev pub more_received : List ℕ → Option Trade → Option Trade
more_received p = Option.map (λ (t : Trade). record t { received = p ++ t.received })

unfoldable pub trade : Allocator → List Use → Queue → Option Trade
trade m [] q = some (record { sent = []; received = []; left = q })
trade m (send bs ∷ us) q =
    let d = qbwrite bs q in more_sent (accepted d.result bs) (trade m us d.queue)
trade m (receive n ∷ us) q = elim (qread m n q) [
  | none ↦ none
  | some d ↦ more_received (taken d.result) (trade m us d.queue)
]

record IsSent (q : Queue) (p : List ℕ) (next : Queue) : Type 0 where
  counted : IsCounted next
  plain : next.msg ≡ false
  added : content next.blocks ≡ content q.blocks ++ p

IsSent-if :
    (c : Bool) (q : Queue) (bs : List Block) (d e : Done Written)
    → IsSent q (accepted d.result bs) d.queue
    → IsSent q (accepted e.result bs) e.queue
    → IsSent q (accepted (if c then d else e).result bs) (if c then d else e).queue
IsSent-if true q bs d e h k = h
IsSent-if false q bs d e h k = k

qbwrite-IsSent :
    (bs : List Block) (q : Queue)
    → IsCounted q
    → q.msg ≡ false
    → IsSent q (accepted (qbwrite bs q).result bs) (qbwrite bs q).queue
unfolding qbwrite announce
qbwrite-IsSent bs q h f =
    let c = qaddlist-IsCounted bs q h in
    let same : IsSent q [] q = record {
      counted = h;
      plain = f;
      added = sym (append-nil (content q.blocks));
    } in
    IsSent-if q.has_bypass q bs _ _ same (
      IsSent-if q.closed q bs _ _ same (
        IsSent-if (leb q.limit q.len && q.noblock) q bs _ _ same (record {
          counted = record { allocated = c.allocated; filled = c.filled };
          plain = f;
          added = qaddlist-content bs q;
        })))

-- The pipe: the bytes that were in the queue and those that were sent are those that were received
-- and those that are left.
IsTrade : Queue → Trade → Type 0
IsTrade q t = content q.blocks ++ t.sent ≡ t.received ++ content t.left.blocks

trade_from :
    (m : Allocator) (us : List Use) (q : Queue)
    → IsCounted q
    → q.msg ≡ false
    → (t : Trade) × (trade m us q ≡ some t) × IsTrade q t
unfolding trade IsTrade
trade_from m [] q h f =
    (record { sent = []; received = []; left = q }, refl, append-nil (content q.blocks))
trade_from m (send bs ∷ us) q h f =
    let s = qbwrite-IsSent bs q h f in
    let p = accepted (qbwrite bs q).result bs in
    let (t, e, k) = trade_from m us ((qbwrite bs q).queue) s.counted s.plain in
    (
      record t { sent = p ++ t.sent },
      ap (more_sent p) e,
      sym (append_assoc (content q.blocks) p t.sent) ∙ ap (λ x. x ++ t.sent) (sym s.added) ∙ k,
    )
trade_from m (receive n ∷ us) q h f =
    let (d, r, c, g, v) = qread-keeps m n q h f in
    let (t, e, k) = trade_from m us d.queue c g in
    (
      record t { received = taken d.result ++ t.received },
      rw (trade, r) (ap (more_received (taken d.result)) e),
      ap (λ x. x ++ t.sent) (sym v)
          ∙ append_assoc (taken d.result) (content d.queue.blocks) t.sent
          ∙ ap (λ x. taken d.result ++ x) k
          ∙ sym (append_assoc (taken d.result) t.received (content t.left.blocks)),
    )

-- A queue that is no message queue is a pipe of bytes: in every sequence of `qbwrite` and `qread`,
-- from a queue whose counts are right, nothing is accessed outside a block, and the bytes that were
-- in the queue followed by those that `qbwrite` has queued are the bytes that `qread` has handed out
-- followed by those left in the queue.
pub trade_lem :
    (m : Allocator) (us : List Use) (q : Queue)
    → IsCounted q
    → q.msg ≡ false
    → (t : Trade) × (trade m us q ≡ some t)
      × (content q.blocks ++ t.sent ≡ t.received ++ content t.left.blocks)
unfolding IsTrade
trade_lem m us q h f = trade_from m us q h f
