-- ===== src/Qio/System/Awake.antt =====
-- The processes that sleep on a queue, with one process that takes and any number that put.
use drawterm_android.Base.{
  ℕ, zero, suc, ◌≤◌, ◌≡◌, ◌⊎◌, refl, Bool, true, false, inl, ◌&&◌, some, List, [], ◌∷◌, length,
  arith,
}
use drawterm_android.Qio.{Allocator}
use drawterm_android.Qio.Queue.{Queue}
use drawterm_android.Qio.System.Laws.{Reads, Writes}
use drawterm_android.Qio.System.Live.{opened, opened-Lives}
use drawterm_android.Qio.System.World.{
  Reader, running, flagged, asleep, Writer, awake, slept, World, Happening, notempty, pass_by,
  reader_left, asleep_alone, slept_alone, writer_left,
}
use drawterm_android.Qio.System.Sound.{
  ReaderSound, WriterSound, IsSound, IsFairly, Next, happen-IsSound,
}

abbrev pub AreFairly : List Happening → Type 0
AreFairly [] = Unit
AreFairly (x ∷ xs) = IsFairly x × AreFairly xs

pass_by-IsSound :
    (m : Allocator) (xs : List Happening) (w : World)
    → AreFairly xs
    → IsSound w
    → Next (pass_by m xs w)
unfolding pass_by
pass_by-IsSound m [] w f h = (w, refl, h)
pass_by-IsSound m (x ∷ xs) w f h =
    let (v, r, k) = happen-IsSound m x w f.0 h in
    let (u, z, l) = pass_by-IsSound m xs v f.1 k in (u, rw (pass_by, r) z, l)

-- A queue that `qopen` has made, with all processes awake.
abbrev pub fresh : ℕ → Bool → Bool → Bool → World
fresh limit msg kicks has_kick = record {
  system = opened limit msg kicks has_kick;
  reader = running;
  writer = awake;
  to_reader = 0;
  to_writer = 0;
}

fresh-IsSound :
    (limit : ℕ) (msg kicks has_kick : Bool) → 2 ≤ limit → IsSound (fresh limit msg kicks has_kick)
fresh-IsSound limit msg kicks has_kick h = record {
  lives = opened-Lives limit msg kicks has_kick h;
  reads = tt;
  writes = tt;
}

alone_reader :
    (p : Reader) (n : ℕ) (q : Queue) (r : Bool)
    → Reads q r
    → ReaderSound p n r (notempty q)
    → (asleep_alone p n ≡ false) ⊎ ((q.starve ≡ true) × (q.blocks ≡ []) × (q.closed ≡ false))
alone_reader running n q r h k = inl refl
alone_reader flagged n q r h k = inl refl
alone_reader asleep zero q r h k = ground (arith, h, k)
alone_reader asleep (suc n) q r h k = inl refl

alone_writer :
    (p : Writer) (n : ℕ) (q : Queue) (r : Bool)
    → Writes q r
    → WriterSound p n r
    → (slept_alone p n ≡ false) ⊎ ((q.flow ≡ true) × (1 ≤ length q.blocks))
alone_writer awake n q r h k = inl refl
alone_writer (slept false) n q r h k = inl refl
alone_writer (slept true) zero q r h k = ground (arith, h, k)
alone_writer (slept true) (suc n) q r h k = inl refl

-- On a queue that `qopen` has made with a limit of 2 or more and without Qcoalesce, one process takes
-- (qget, qdiscard, qconsume, qbread, qread, and also qflush and qreopen) and any number of processes
-- put, close and set the queue (the other functions of `run-IsCounted`, under its conditions); the
-- reader and one writer at a time may sleep, and wakeups reach a sleeper any time after they are
-- sent. Then in every run nothing is accessed outside a block; while the reader sleeps and no wakeup
-- is on its way to it, the queue is empty and open and Qstarve is set; while a writer sleeps that
-- went to sleep with Qflow set, and no wakeup is on its way, the queue has a block and Qflow is
-- still set; so the reader and such a writer are never left asleep together.
pub run_awake :
    (m : Allocator) (xs : List Happening) (limit : ℕ) (msg kicks has_kick : Bool)
    → AreFairly xs
    → 2 ≤ limit
    → (w : World) × (pass_by m xs (fresh limit msg kicks has_kick) ≡ some w)
      × ((reader_left w ≡ false)
          ⊎ ((w.system.queue.starve ≡ true)
              × (w.system.queue.blocks ≡ [])
              × (w.system.queue.closed ≡ false)))
      × ((writer_left w ≡ false)
          ⊎ ((w.system.queue.flow ≡ true) × (1 ≤ length w.system.queue.blocks)))
      × ((reader_left w && writer_left w) ≡ false)
run_awake m xs limit msg kicks has_kick f h =
    let (w, e, k) = pass_by-IsSound m xs _ f (fresh-IsSound limit msg kicks has_kick h) in
    let q = w.system.queue in
    let a = alone_reader w.reader w.to_reader q w.system.reader_due k.lives.reads k.reads in
    let b = alone_writer w.writer w.to_writer q w.system.writer_due k.lives.writes k.writes in
    (w, e, a, b, ground (arith, a, b))
