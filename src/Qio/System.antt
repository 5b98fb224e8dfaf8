-- ===== src/Qio/System.antt =====
-- A queue and the wakeups that are due to the processes that wait on it. An event is what one process
-- does while it holds the lock of the queue, with the wakeups that follow; a run is any sequence of
-- events, by any processes. A process that waits sets a flag under the lock, gives the lock up and
-- only then sleeps, so that other events may come between.
mod Laws
mod Steps
mod Sleeps
pub mod Live
pub mod World
mod Feeds
mod Sound
pub mod Awake
pub mod Coalesced
use mathlib.Core.Option
use drawterm_android.Base.{
  ℕ, ltb, if◌then◌else◌, Bool, true, false, ◌||◌, Option, none, some, List, [], ◌∷◌, length,
}
use drawterm_android.Qio.{Block, Allocator, put}
use drawterm_android.Qio.Queue.{
  Queue, Done, Signal, reader, writer, kick, qget, qdiscard, qconsume, qpass, qpassnolim, qproduce,
  qclose, qhangup, qreopen, qflush, qsetlimit, qnoblock,
}
use drawterm_android.Qio.Queue.Read.{Outcome, value, ended, failed, asleep, qbread, qread}
use drawterm_android.Qio.Queue.Write.{qbwrite, qflow, iwrite_piece}

-- `reader_due` says that a process has set Qstarve in qwait, and that no wakeup of `q->rr` has been sent
-- since; `writer_due` that a process has set Qflow in qflow while the queue had blocks, and that no
-- wakeup of `q->wr` has been sent since.
pub record System : Type 0 where
  pub queue : Queue
  pub reader_due : Bool
  pub writer_due : Bool

abbrev pub wakes_reader : List Signal → Bool
wakes_reader [] = false
wakes_reader (reader ∷ l) = true
wakes_reader (writer ∷ l) = wakes_reader l
wakes_reader (kick ∷ l) = wakes_reader l

abbrev pub wakes_writer : List Signal → Bool
wakes_writer [] = false
wakes_writer (reader ∷ l) = wakes_writer l
wakes_writer (writer ∷ l) = true
wakes_writer (kick ∷ l) = wakes_writer l

-- The wakeups that are still due after an operation.
abbrev pub after : {A : Type 0} → Done A → Bool → Bool → System
after d r w = record {
  queue = d.queue;
  reader_due = if wakes_reader d.signals then false else r;
  writer_due = if wakes_writer d.signals then false else w;
}

-- What the process does behind its event: it goes on, or it is about to sleep in qwait, or in qflow.
pub data Wait : Type 0 where
  goes_on : Wait
  for_blocks : Wait
  for_room : Wait

abbrev pub waits : {A : Type 0} → Outcome A → Wait
waits (value a) = goes_on
waits ended = goes_on
waits (failed e) = goes_on
waits asleep = for_blocks

abbrev pub due_reader : Wait → Bool → Bool
due_reader goes_on r = r
due_reader for_blocks r = true
due_reader for_room r = r

abbrev pub due_writer : Wait → Queue → Bool → Bool
due_writer goes_on q w = w
due_writer for_blocks q w = w
due_writer for_room q w = w || ltb 0 (length q.blocks)

abbrev pub goes : {A : Type 0} → Done A → Done Wait
goes d = record { result = goes_on; signals = d.signals; queue = d.queue }

abbrev pub may_wait : {A : Type 0} → Done (Outcome A) → Done Wait
may_wait d = record { result = waits d.result; signals = d.signals; queue = d.queue }

-- A round of qiwrite that ends the loop does nothing to the queue.
abbrev pub or_ends : Option (Done ℕ) → Queue → Done ℕ
or_ends none q = record { result = 0; signals = []; queue = q }
or_ends (some d) q = d

pub data Event : Type 0 where
  get : Event
  discard : ℕ → Event
  consume : ℕ → Event
  bread : ℕ → Event
  read : ℕ → Event
  pass : Block → List Block → Event
  passnolim : Block → List Block → Event
  produce : List ℕ → Event
  bwrite : Block → List Block → Event
  iwrite : Bool → List ℕ → Event
  set_flow : Event
  close : Event
  hangup : List ℕ → Event
  reopen : Event
  flush : Event
  set_limit : ℕ → Event
  set_noblock : Bool → Event

-- What an event does to the queue. `none` is an access outside a block.
unfoldable pub act : Allocator → Event → Queue → Option (Done Wait)
act m get q = some (goes (qget q))
act m (discard n) q = some (goes (qdiscard n q))
act m (consume n) q = some (goes (qconsume n q))
act m (bread n) q = Option.map may_wait (qbread m n q)
act m (read n) q = Option.map may_wait (qread m n q)
act m (pass b bs) q = some (goes (qpass (b ∷ bs) q))
act m (passnolim b bs) q = some (goes (qpassnolim (b ∷ bs) q))
act m (produce p) q = Option.map goes (qproduce m p q)
act m (bwrite b bs) q = some (goes (qbwrite (b ∷ bs) q))
act m (iwrite woken p) q =
    Option.map (λ b. goes (or_ends (iwrite_piece woken b q) q)) (put (m.allocb (length p)) p)
act m set_flow q = some (record { result = for_room; signals = []; queue = qflow q })
act m close q = some (goes (qclose q))
act m (hangup msg) q = some (goes (qhangup msg q))
act m reopen q = some (goes (qreopen q))
act m flush q = some (goes (qflush q))
act m (set_limit n) q = some (goes (qsetlimit n q))
act m (set_noblock b) q = some (goes (qnoblock b q))

abbrev pub then_due : System → Done Wait → System
then_due s d =
    let t = after d s.reader_due s.writer_due in
    record {
      queue = t.queue;
      reader_due = due_reader d.result t.reader_due;
      writer_due = due_writer d.result t.queue t.writer_due;
    }

abbrev pub step : Allocator → Event → System → Option System
step m e s = Option.map (then_due s) (act m e s.queue)

unfoldable pub run : Allocator → List Event → System → Option System
run m [] s = some s
run m (e ∷ es) s = elim (step m e s) [ none ↦ none | some t ↦ run m es t ]
