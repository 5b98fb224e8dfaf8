-- ===== src/Qio/System/Feeds.antt =====
-- The calls that do not take from a queue: one that wakes a reader leaves it something to find, and
-- none takes away what there is.
use mathlib.Core.Option
use drawterm_android.Base.{
  ℕ, ◌≡◌, ◌⊎◌, refl, Bool, true, false, Option, none, some, List, [], ◌∷◌, ◌++◌, length, arith,
}
use drawterm_android.Qio.{Block, Allocator, put}
use drawterm_android.Qio.Queue.{
  Queue, Done, feed, qpassnolim, qpass, filled, qproduce, qclose, qhangup, qsetlimit, qnoblock,
}
use drawterm_android.Qio.Queue.{produce as make}
use drawterm_android.Qio.Queue.Write.{announce, qbwrite, qflow, iwrite_piece}
use drawterm_android.Qio.System.{
  Wait, goes, or_ends, Event, get, discard, consume, bread, read, pass, passnolim, produce, bwrite,
  iwrite, set_flow, close, hangup, reopen, flush, set_limit, set_noblock, act, wakes_reader,
}
use drawterm_android.Qio.System.World.{takes, has_blocks, notempty}

abbrev pub Feeds : Queue → Done Wait → Type 0
Feeds q d =
    ((wakes_reader d.signals ≡ false) ⊎ (notempty d.queue ≡ true))
    × ((notempty q ≡ false) ⊎ (notempty d.queue ≡ true))

abbrev pub Feeding : Queue → Option (Done Wait) → Type 0
Feeding q none = Unit
Feeding q (some d) = Feeds q d

blocks_more : (bs cs : List Block) (b : Block) → has_blocks (bs ++ b ∷ cs) ≡ true
blocks_more [] cs b = refl
blocks_more (c ∷ bs) cs b = refl

passnolim-Feeds : (b : Block) (bs : List Block) (q : Queue) → Feeds q (goes (qpassnolim (b ∷ bs) q))
unfolding qpassnolim feed
passnolim-Feeds b bs q = ground (arith, blocks_more q.blocks bs b)

pass-Feeds : (b : Block) (bs : List Block) (q : Queue) → Feeds q (goes (qpass (b ∷ bs) q))
unfolding qpass
pass-Feeds b bs q = ground (arith, passnolim-Feeds b bs q)

bwrite-Feeds : (b : Block) (bs : List Block) (q : Queue) → Feeds q (goes (qbwrite (b ∷ bs) q))
unfolding qbwrite announce
bwrite-Feeds b bs q = ground (arith, blocks_more q.blocks bs b)

produced-Feeds : (b : Block) (q : Queue) → Feeds q (goes (make b q))
unfolding make feed
produced-Feeds b q = ground (arith, blocks_more q.blocks [] b)

produce-Feeding : (o : Option Block) (q : Queue) → Feeding q (Option.map goes (filled q o))
unfolding filled
produce-Feeding none q = tt
produce-Feeding (some b) q = produced-Feeds b q

piece-Feeds :
    (woken : Bool) (b : Block) (q : Queue) → Feeds q (goes (or_ends (iwrite_piece woken b q) q))
unfolding iwrite_piece
piece-Feeds woken b q = ground (arith, blocks_more q.blocks [] b)

piece-Feeding :
    (woken : Bool) (o : Option Block) (q : Queue)
    → Feeding q (Option.map (λ b. goes (or_ends (iwrite_piece woken b q) q)) o)
piece-Feeding woken none q = tt
piece-Feeding woken (some b) q = piece-Feeds woken b q

others_feed :
    (msg : List ℕ) (n : ℕ) (b : Bool) (q : Queue)
    → Feeds q (goes (qclose q))
      × Feeds q (goes (qhangup msg q))
      × Feeds q (goes (qsetlimit n q))
      × Feeds q (goes (qnoblock b q))
unfolding qclose qhangup qsetlimit qnoblock
others_feed msg n b q = (ground arith, ground arith, ground arith, ground arith)

no_taker : {A : Type 0} → true ≡ false → A
no_taker h = ground arith

pub act-Feeding : (m : Allocator) (e : Event) (q : Queue) → takes e ≡ false → Feeding q (act m e q)
unfolding act qproduce qflow
act-Feeding m get q h = no_taker h
act-Feeding m (discard n) q h = no_taker h
act-Feeding m (consume n) q h = no_taker h
act-Feeding m (bread n) q h = no_taker h
act-Feeding m (read n) q h = no_taker h
act-Feeding m (pass b bs) q h = pass-Feeds b bs q
act-Feeding m (passnolim b bs) q h = passnolim-Feeds b bs q
act-Feeding m (produce p) q h = produce-Feeding (put (m.allocb (length p)) p) q
act-Feeding m (bwrite b bs) q h = bwrite-Feeds b bs q
act-Feeding m (iwrite woken p) q h = piece-Feeding woken (put (m.allocb (length p)) p) q
act-Feeding m set_flow q h = ground arith
act-Feeding m close q h = let (a, b', c, d) = others_feed [] 0 true q in a
act-Feeding m (hangup msg) q h = let (a, b', c, d) = others_feed msg 0 true q in b'
act-Feeding m reopen q h = no_taker h
act-Feeding m flush q h = no_taker h
act-Feeding m (set_limit n) q h = let (a, b', c, d) = others_feed [] n true q in c
act-Feeding m (set_noblock b) q h = let (a, b', c, d) = others_feed [] 0 b q in d
