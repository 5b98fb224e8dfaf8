-- ===== src/Mnt/Reply.antt =====
-- The reader of a connection: doread and mntrpcread of kern/devmnt.c. What the channel to the server
-- still gives is a list of blocks; behind the last one `bread` returns nil.
mod Stream
pub mod Header
pub mod Framing
use mathlib.Core.Option
use drawterm_android.Base.{
  ℕ, ◌+◌, ◌-◌, ◌^◌, ltb, leb, ◌==◌, if◌then◌else◌, Bool, true, false, Option, none, some, List, [],
  ◌∷◌, ◌++◌, length, take, drop, le_value,
}
use drawterm_android.Fcall.{Fcall}
use drawterm_android.Fcall.Decode.{Parsed, conv_m2s}
use drawterm_android.Qio.{Block, blen, put, advance, shorten, Allocator}
use drawterm_android.Qio.Queue.{Queue, unlink, qaddlist, qdiscard, pullupqueue}
use drawterm_android.Qio.Queue.Read.{qputback}

-- Whether the queue has `len` bytes, what the channel still gives, and the queue.
unfoldable pub doread : ℕ → List Block → Queue → Bool × List Block × Queue
doread len [] q = (leb len q.dlen, [], q)
doread len (b ∷ bs) q =
    let next = qaddlist (b ∷ []) q in
    let later = doread len bs next in
    if leb len q.dlen then (true, b ∷ bs, q) else if blen b == 0 then (false, bs, next) else later

-- -1; the reply with its data, what the channel still gives, and the queue; or an access outside a
-- block or through nil.
pub data Rpcread : Type 0 where
  minus_one : List Block → Queue → Rpcread
  got : Fcall → List Block → List Block → Queue → Rpcread
  outside : Rpcread

-- The loop that hangs the data off, with the block `b` taken off the queue and the blocks behind it.
unfoldable pub split_data : Allocator → ℕ → Block → Queue → Option (List Block × Queue)
split_data m len b q =
    Option.map (λ (nb : Block). (shorten b len ∷ [], qputback nb q))
      (put (m.allocb (blen b - len)) (drop len b.bytes))

unfoldable pub hang : Allocator → ℕ → Block → List Block → Queue → Option (List Block × Queue)
hang m len b [] q =
    if leb (blen b) len
    then (if len - blen b == 0 then some (b ∷ [], q) else none)
    else split_data m len b q
hang m len b (c ∷ rest) q =
    let more = hang m (len - blen b) c rest (unlink c rest q) in
    let joined = Option.map (λ (r : List Block × Queue). (b ∷ r.0, r.1)) more in
    if leb (blen b) len
    then (if len - blen b == 0 then some (b ∷ [], q) else joined)
    else split_data m len b q

unfoldable pub with_data : Fcall → List Block → Option (List Block × Queue) → Rpcread
with_data f s none = outside
with_data f s (some (bs, next)) = got f bs s next

-- What is done when convM2S has returned.
unfoldable pub hung :
    Allocator → ℕ → ℕ → Option Parsed → Block → List Block → List Block → Queue → Rpcread
hung m len hlen none nb rest s q = outside
hung m len hlen (some p) nb rest s q =
    let data_of = hang m (len - hlen) (advance nb hlen) rest (unlink nb rest q) in
    if p.ret == 0
    then minus_one s (qdiscard len q).queue
    else if ltb len hlen
    then outside
    else with_data p.fcall s data_of

-- The header is pulled up and decoded. `beyond` is what lies in memory behind the first block.
unfoldable pub with_header :
    Allocator → ℕ → ℕ → List ℕ → Fcall → List Block → List Block → Queue → Rpcread
with_header m len hlen beyond f s [] q = outside
with_header m len hlen beyond f s (nb ∷ rest) q =
    hung m len hlen (conv_m2s (take len (nb.bytes ++ beyond)) f) nb rest s q

unfoldable pub headed : Allocator → ℕ → ℕ → List ℕ → Fcall → List Block → Option Queue → Rpcread
headed m len hlen beyond f s none = outside
headed m len hlen beyond f s (some q) = with_header m len hlen beyond f s q.blocks q

abbrev pub header_len : ℕ → ℕ → ℕ
header_len t len = if t == 117 then 11 else len

unfoldable pub rest_read : Allocator → ℕ → ℕ → List ℕ → Fcall → Bool × List Block × Queue → Rpcread
rest_read m len t beyond f (ok, s, q) =
    if ok
    then headed m len (header_len t len) beyond f s (pullupqueue m (header_len t len) q)
    else minus_one s q

-- The size of the message is an `int`: one of 2^31 or more is negative and passes the tests.
unfoldable pub with_size :
    Allocator → ℕ → List ℕ → Fcall → List Block → List Block → Queue → Rpcread
with_size m msize beyond f s [] q = outside
with_size m msize beyond f s (nb ∷ rest) q =
    let len = le_value (take 4 nb.bytes) in
    let t = le_value (take 1 (drop 4 nb.bytes)) in
    if leb (2 ^ 31) len
    then outside
    else if ltb msize len
    then minus_one s (qdiscard q.dlen q).queue
    else rest_read m len t beyond f (doread len s q)

unfoldable pub sized : Allocator → ℕ → List ℕ → Fcall → List Block → Option Queue → Rpcread
sized m msize beyond f s none = outside
sized m msize beyond f s (some q) = with_size m msize beyond f s q.blocks q

unfoldable pub started : Allocator → ℕ → List ℕ → Fcall → Bool × List Block × Queue → Rpcread
started m msize beyond f (ok, s, q) =
    if ok then sized m msize beyond f s (pullupqueue m 7 q) else minus_one s q

-- `type` and `tag` of the reply are set to 0 first.
unfoldable pub mntrpcread : Allocator → ℕ → List ℕ → Fcall → List Block → Queue → Rpcread
mntrpcread m msize beyond f stream q =
    started m msize beyond (record f { type = 0; tag = 0 }) (doread 7 stream q)
