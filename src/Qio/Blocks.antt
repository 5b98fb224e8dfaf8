-- ===== src/Qio/Blocks.antt =====
-- The functions of kern/qio.c on chains of blocks.
pub mod Content
pub mod Pullup
pub mod Trim
use mathlib.Core.Option
use drawterm_android.Base.{
  ℕ, ◌+◌, ◌-◌, ltb, leb, ◌==◌, if◌then◌else◌, Bool, true, false, Option, none, some, List, [], ◌∷◌,
  ◌++◌, length, take, drop, replicate, ◌*◌,
}
use drawterm_android.Qio.{Block, blen, balloc, put, advance, shorten, Allocator, blocklen}

-- `padblock` with a size of 0 or more: `rp` goes down by the length of `old`, which is what lies in
-- that memory, of the block itself or of the fresh one.
unfoldable pub pad_front : Allocator → List ℕ → Block → Option Block
pad_front m old b =
    if leb (length old) b.front
    then some (record { front = b.front - length old; bytes = old ++ b.bytes; back = b.back })
    else put (m.allocb (length old + blen b)) (old ++ b.bytes)

-- `padblock` with a size of `-size`.
unfoldable pub pad_back : Allocator → ℕ → Block → Option Block
pad_back m size b = if leb size b.back then some b else put (m.allocb (blen b + size)) b.bytes

-- The loop of `pullupblock`: `n` bytes are still wanted in `bp`, and the chain goes on behind it.
-- The empty chain is nil.
unfoldable pub pullup_loop : ℕ → Block → List Block → Option (List Block)
pullup_loop n bp [] = some []
pullup_loop n bp (nbp ∷ rest) = elim (ltb n (blen nbp)) [
  | true ↦ Option.map (λ b. b ∷ advance nbp n ∷ rest) (put bp (take n nbp.bytes))
  | false ↦ elim (put bp nbp.bytes) [
    | none ↦ none
    | some b ↦ elim (n - blen nbp == 0) [
      | true ↦ some (b ∷ rest)
      | false ↦ pullup_loop (n - blen nbp) b rest
    ]
  ]
]

unfoldable pub pullupblock : Allocator → ℕ → List Block → Option (List Block)
pullupblock m n [] = none
pullupblock m n (bp ∷ rest) =
    if leb n (blen bp)
    then some (bp ∷ rest)
    else if ltb (blen bp + bp.back) n
    then pullup_loop n (m.allocb n) (bp ∷ rest)
    else pullup_loop (n - blen bp) bp rest

-- A single block is given back as it is.
unfoldable pub concatblock : Allocator → List Block → Option (List Block)
concatblock m [] = none
concatblock m (bp ∷ []) = some (bp ∷ [])
concatblock m (bp ∷ b ∷ rest) = pullupblock m (blocklen (bp ∷ b ∷ rest)) (bp ∷ b ∷ rest)

-- The first loop of `trimblock`.
unfoldable pub trim_front : ℕ → List Block → Option (List Block)
trim_front offset [] = none
trim_front offset (bp ∷ rest) =
    let skipped = trim_front (offset - blen bp) rest in
    if ltb (blen bp) offset then skipped else some (advance bp offset ∷ rest)

-- The second loop of `trimblock`, and what is done at its end.
unfoldable pub trim_back : ℕ → List Block → Option (List Block)
trim_back len [] = none
trim_back len (bp ∷ rest) =
    let kept = Option.map (λ bs. bp ∷ bs) (trim_back (len - blen bp) rest) in
    if ltb (blen bp) len then kept else some (shorten bp len ∷ [])

unfoldable pub trimmed : ℕ → Option (List Block) → Option (List Block)
trimmed len none = none
trimmed len (some bs) = trim_back len bs

unfoldable pub trimblock : ℕ → ℕ → List Block → Option (List Block)
trimblock offset len bp =
    if ltb (blocklen bp) (offset + len) then some [] else trimmed len (trim_front offset bp)

-- The loop of `copyblock` and the zeros behind it.
unfoldable pub copy_loop : ℕ → Block → List Block → Option Block
copy_loop count nbp [] = put nbp (replicate count 0)
copy_loop count nbp (bp ∷ rest) = elim (put nbp (take count bp.bytes)) [
  | none ↦ none
  | some b ↦ copy_loop (count - blen bp) b rest
]

unfoldable pub copyblock : Allocator → ℕ → List Block → Option Block
copyblock m count bp = copy_loop count (m.allocb count) bp

-- `adjustblock` with a length of 0 or more, on the chain that begins with the block.
unfoldable pub adjustblock : Allocator → ℕ → List Block → Option (List Block)
adjustblock m len [] = none
adjustblock m len (bp ∷ rest) =
    if ltb (blen bp + bp.back) len
    then Option.map (λ b. b ∷ []) (copyblock m len (bp ∷ rest))
    else if ltb (blen bp) len
    then Option.map (λ b. b ∷ rest) (put bp (replicate (len - blen bp) 0))
    else some (shorten bp len ∷ rest)

-- The number of bytes thrown away, and the chain afterwards.
unfoldable pub pullblock : ℕ → List Block → ℕ × List Block
pullblock count [] = (0, [])
pullblock count (bp ∷ rest) =
    let pulled = pullblock (count - blen bp) rest in
    if count == 0
    then (0, bp ∷ rest)
    else if ltb count (blen bp)
    then (count, advance bp count ∷ rest)
    else (blen bp + pulled.0, pulled.1)

-- A round of `packblock`.
unfoldable pub pack_one : Allocator → Block → Option Block
pack_one m bp = if ltb (blen bp * 4) (balloc bp) then put (m.allocb (blen bp)) bp.bytes else some bp

unfoldable pub packblock : Allocator → List Block → Option (List Block)
packblock m [] = some []
packblock m (bp ∷ rest) = elim (pack_one m bp) [
  | none ↦ none
  | some b ↦ Option.map (λ bs. b ∷ bs) (packblock m rest)
]

-- What is copied to memory: up to `n` bytes, from offset `o` on.
unfoldable pub readblist : ℕ → ℕ → List Block → List ℕ
readblist n o [] = []
readblist n o (b ∷ rest) =
    let skipped = readblist n (o - blen b) rest in
    let m = if ltb n (blen b - o) then n else blen b - o in
    let copied = take m (drop o b.bytes) ++ readblist (n - m) 0 rest in
    if n == 0 then [] else if leb (blen b) o then skipped else copied

-- The block that is left at `*h` and the block returned: the head and the tail of `n` bytes.
unfoldable pub splitblock : Allocator → ℕ → Block → Option (Block × Block)
splitblock m n a =
    let k = blen a - n in
    if ltb k n
    then Option.map (λ b. (b, advance a k)) (put (m.allocb k) (take k a.bytes))
    else Option.map (λ b. (shorten a k, b)) (put (m.allocb n) (drop k a.bytes))
