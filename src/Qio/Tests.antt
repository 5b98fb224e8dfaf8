-- ===== src/Qio/Tests.antt =====
-- The theorems on queues and blocks at concrete inputs.
use drawterm_android.Base.{
  ℕ, ◌+◌, ◌-◌, ◌≤◌, ◌≡◌, ◌⊎◌, refl, true, false, ◌&&◌, ◌||◌, ◌==◌, if◌then◌else◌, Bool, Option,
  none, some, List, [], ◌∷◌, ◌++◌, length, replicate, arith,
}
use drawterm_android.Qio.{Block, Allocator, content, blocklen, blockalloclen}
use drawterm_android.Qio.Queue.{
  Queue, Done, cleared, hungup, qget, get_first, qopen, restart, qnotfull,
}
use drawterm_android.Qio.Queue.Write.{qflow, qbwrite, announce}
use drawterm_android.Qio.Queue.Counts.{IsCounted}
use drawterm_android.Qio.Queue.Read.{Outcome, qread, same_text, read_first, wait_empty}
use drawterm_android.Qio.Queue.ReadLaws.{taken, qread-IsCounted}
use drawterm_android.Qio.Queue.Order.{reads, endings, reads_lem}
use drawterm_android.Qio.Queue.Fifo.{send, receive, Trade, trade, trade_lem}
use drawterm_android.Qio.System.{System, Event, get, read, bwrite, set_flow, set_limit, run, act}
use drawterm_android.Qio.System.World.{
  World, Writer, awake, asleep, running, slept, Happening, call, reader_sleeps, wake_reader,
  writer_sleeps, wake_writer, happen, pass_by, reader_left, writer_left,
}
use drawterm_android.Qio.System.Awake.{AreFairly, fresh, run_awake}
use drawterm_android.Qio.System.Live.{AreFair, opened, run-IsCounted, run-wakes_writer}
use drawterm_android.Qio.System.Coalesced.{coalesced_sleep}

-- A block as _allocb makes it: room in front and behind.
abbrev memory : Allocator
memory = record {
  allocb = λ n. record { front = 64; bytes = []; back = n + 16 };
  allocb_empty = λ n. refl;
  allocb_fits = λ n. omega arith;
}

abbrev block : List ℕ → Block
block p = record { front = 0; bytes = p; back = 1 }

abbrev blocks_of_five : List Block
blocks_of_five = block (1 ∷ 2 ∷ 3 ∷ []) ∷ block (4 ∷ 5 ∷ []) ∷ []

-- A stream with two blocks in it, one that is closed, and one with a block that is empty.
abbrev stream : Queue
stream = record cleared {
  blocks = blocks_of_five;
  len = 7;
  dlen = 5;
  limit = 8;
  inilim = 8;
  coalesce = true;
}

abbrev shut : Queue
shut = record cleared { limit = 8; inilim = 8; closed = true; err = hungup }

abbrev hollow : Queue
hollow = record cleared {
  blocks = block [] ∷ [];
  len = 1;
  limit = 8;
  inilim = 8;
  coalesce = true;
  flow = true;
}

stream-IsCounted : IsCounted stream
unfolding blocklen blockalloclen
stream-IsCounted = record { allocated = refl; filled = refl }

abbrev write_five : Event
write_five = bwrite (block (1 ∷ 2 ∷ 3 ∷ [])) (block (4 ∷ 5 ∷ []) ∷ [])

-- A writer goes over the limit and sets Qflow, and a reader takes what is there.
abbrev busy : List Event
busy = write_five ∷ set_flow ∷ read 2 ∷ read 8 ∷ set_limit 3 ∷ write_five ∷ set_flow ∷ []

busy-AreFair : AreFair busy
busy-AreFair = (tt, (tt, (tt, (tt, (omega arith, (tt, (tt, tt)))))))

run-IsCounted_example :
    (t : System) × (run memory busy (opened 4 false false true) ≡ some t) × IsCounted t.queue
run-IsCounted_example = run-IsCounted memory busy 4 false false true busy-AreFair (omega arith)

run-wakes_writer_example :
    (t : System) × (run memory busy (opened 4 false false true) ≡ some t)
    × ((t.writer_due ≡ false) ⊎ ((t.queue.flow ≡ true) × (1 ≤ length t.queue.blocks)))
    × (u : System) × (run memory (replicate (length t.queue.blocks) get) t ≡ some u)
    × (u.queue.blocks ≡ [])
    × (u.writer_due ≡ false)
run-wakes_writer_example =
    run-wakes_writer memory busy 4 false false true busy-AreFair (omega arith)

-- A reader sleeps, is woken by a writer, and takes the first block late; the writer sleeps meanwhile.
abbrev rest : List Happening
rest =
    call (read 8)
    ∷ reader_sleeps
    ∷ call write_five
    ∷ call set_flow
    ∷ writer_sleeps
    ∷ wake_reader
    ∷ call (read 2)
    ∷ []

rest-AreFairly : AreFairly rest
rest-AreFairly = (tt, (tt, (tt, (tt, (tt, (tt, (tt, tt)))))))

run_awake_example :
    (w : World) × (pass_by memory rest (fresh 4 false false true) ≡ some w)
    × ((reader_left w ≡ false)
        ⊎ ((w.system.queue.starve ≡ true)
            × (w.system.queue.blocks ≡ [])
            × (w.system.queue.closed ≡ false)))
    × ((writer_left w ≡ false)
        ⊎ ((w.system.queue.flow ≡ true) × (1 ≤ length w.system.queue.blocks)))
    × ((reader_left w && writer_left w) ≡ false)
run_awake_example = run_awake memory rest 4 false false true rest-AreFairly (omega arith)

-- Between the flag and the sleep of a writer, the reader takes all and clears the flag, and another
-- writer fills the queue: the first sleeps with the flag clear, and is not woken.
abbrev two_writers : List Happening
two_writers =
    call write_five
    ∷ wake_reader
    ∷ call set_flow
    ∷ call get
    ∷ call get
    ∷ wake_writer
    ∷ call write_five
    ∷ writer_sleeps
    ∷ call get
    ∷ call get
    ∷ call (read 8)
    ∷ reader_sleeps
    ∷ []

abbrev slept_unflagged : Writer → Bool
slept_unflagged awake = false
slept_unflagged (slept flag) = if flag then false else true

-- Reader and writer sleep on an empty queue, and no wakeup is on its way.
abbrev both_forgotten : Option World → Bool
both_forgotten none = false
both_forgotten (some w) =
    reader_left w
    && slept_unflagged w.writer
    && (w.to_writer == 0)
    && (length w.system.queue.blocks == 0)

forgotten : both_forgotten (pass_by memory two_writers (fresh 4 false false true)) ≡ true
unfolding pass_by happen act qget get_first qflow qbwrite qopen announce restart blockalloclen
    qnotfull qread read_first wait_empty blocklen
forgotten = refl

trade_lem_example :
    (t : Trade) × (trade memory (receive 4 ∷ send blocks_of_five ∷ receive 9 ∷ []) stream ≡ some t)
    × (content stream.blocks ++ t.sent ≡ t.received ++ content t.left.blocks)
trade_lem_example =
    trade_lem memory (receive 4 ∷ send blocks_of_five ∷ receive 9 ∷ []) stream stream-IsCounted refl

qread-IsCounted_example :
    (d : Done (Outcome (List ℕ))) × (qread memory 4 stream ≡ some d)
    × IsCounted d.queue
    × (length (taken d.result) ≤ 4)
qread-IsCounted_example = qread-IsCounted memory 4 stream stream-IsCounted

reads_lem_example :
    reads memory 8 5 shut
    ≡ some (
      endings 5 (if length shut.err == 0 || same_text shut.err hungup then 3 - 0 else 0) hungup,
      record shut { eof = 5 },
    )
reads_lem_example = reads_lem memory 8 5 shut refl refl

coalesced_sleep_example :
    (next : Queue) × (pass_by memory (call (read 8) ∷ reader_sleeps ∷ []) (record {
      system = record { queue = hollow; reader_due = false; writer_due = true };
      reader = running;
      writer = slept true;
      to_reader = 0;
      to_writer = 0;
    })
      ≡ some (record {
        system = record { queue = next; reader_due = true; writer_due = true };
        reader = asleep;
        writer = slept true;
        to_reader = 0;
        to_writer = 0;
      }))
    × (next.blocks ≡ [])
coalesced_sleep_example = coalesced_sleep memory 8 hollow refl refl refl
