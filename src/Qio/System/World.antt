-- ===== src/Qio/System/World.antt =====
-- Processes that sleep on a queue: one that takes from it, any number that put into it, and of these
-- the one that holds `q->wlock` in qflow. A call and a sleep are separate events, and a wakeup reaches
-- a sleeper some time after it is sent.
use mathlib.Core.Option
use drawterm_android.Base.{
  ℕ, zero, suc, ◌+◌, if◌then◌else◌, Bool, true, false, ◌&&◌, ◌||◌, Option, none, some, List, [],
  ◌∷◌,
}
use drawterm_android.Qio.{Block, Allocator}
use drawterm_android.Qio.Queue.{Queue, Done, qnotfull}
use drawterm_android.Qio.System.{
  System, Wait, goes_on, for_blocks, for_room, Event, get, discard, consume, bread, read, pass,
  passnolim, produce, bwrite, iwrite, set_flow, close, hangup, reopen, flush, set_limit,
  set_noblock, act, then_due, wakes_reader, wakes_writer,
}

-- The process that takes: it runs, or has set Qstarve and is about to sleep, or sleeps on `q->rr`.
pub data Reader : Type 0 where
  running : Reader
  flagged : Reader
  asleep : Reader

-- Who sleeps on `q->wr`: no process, or one, with whether Qflow was set when it went to sleep.
pub data Writer : Type 0 where
  awake : Writer
  slept : Bool → Writer

-- `to_reader` and `to_writer` count the wakeups that are sent and have not been delivered.
pub record World : Type 0 where
  pub system : System
  pub reader : Reader
  pub writer : Writer
  pub to_reader : ℕ
  pub to_writer : ℕ

pub data Happening : Type 0 where
  call : Event → Happening
  reader_sleeps : Happening
  wake_reader : Happening
  writer_sleeps : Happening
  wake_writer : Happening

abbrev pub is_running : Reader → Bool
is_running running = true
is_running flagged = false
is_running asleep = false

-- The calls of the process that takes. qreopen and qflush are its own too, for either can undo what a
-- reader that has set its flag was to find.
abbrev pub takes : Event → Bool
takes get = true
takes (discard n) = true
takes (consume n) = true
takes (bread n) = true
takes (read n) = true
takes (pass b bs) = false
takes (passnolim b bs) = false
takes (produce p) = false
takes (bwrite b bs) = false
takes (iwrite woken p) = false
takes set_flow = false
takes close = false
takes (hangup msg) = false
takes reopen = true
takes flush = true
takes (set_limit n) = false
takes (set_noblock b) = false

abbrev pub reader_after : Wait → Reader → Reader
reader_after goes_on p = p
reader_after for_blocks p = flagged
reader_after for_room p = p

abbrev pub sent : Bool → ℕ → ℕ
sent false n = n
sent true n = n + 1

abbrev pub called : World → Done Wait → World
called w d = record {
  system = then_due w.system d;
  reader = reader_after d.result w.reader;
  writer = w.writer;
  to_reader = sent (wakes_reader d.signals) w.to_reader;
  to_writer = sent (wakes_writer d.signals) w.to_writer;
}

abbrev pub has_blocks : List Block → Bool
has_blocks [] = false
has_blocks (b ∷ bs) = true

-- `notempty`
abbrev pub notempty : Queue → Bool
notempty q = q.closed || has_blocks q.blocks

-- `sleep(&q->rr, notempty, q)`: the process sleeps where the test fails.
abbrev pub sleep_reader : Reader → Bool → Reader
sleep_reader running ready = running
sleep_reader flagged ready = if ready then running else asleep
sleep_reader asleep ready = asleep

-- `sleep(&q->wr, qnotfull, q)` by the process that holds `q->wlock`, where the test gives `ready`. The
-- wakeup of a process that goes to sleep while Qflow is set is due.
abbrev pub sleep_writer : Writer → Bool → World → World
sleep_writer awake true w = w
sleep_writer awake false w =
    let flag = w.system.queue.flow in
    record w {
      writer = slept flag;
      system = record w.system { writer_due = w.system.writer_due || flag };
    }
sleep_writer (slept flag) ready w = w

abbrev pub woken_reader : Reader → Reader
woken_reader running = running
woken_reader flagged = flagged
woken_reader asleep = running

abbrev pub deliver_reader : World → ℕ → World
deliver_reader w zero = w
deliver_reader w (suc n) = record w { reader = woken_reader w.reader; to_reader = n }

abbrev pub deliver_writer : World → ℕ → World
deliver_writer w zero = w
deliver_writer w (suc n) = record w { writer = awake; to_writer = n }

-- A call of the process that takes does nothing while that process is about to sleep or sleeps.
unfoldable pub happen : Allocator → Happening → World → Option World
happen m (call e) w =
    if takes e && (if is_running w.reader then false else true)
    then some w
    else Option.map (called w) (act m e w.system.queue)
happen m reader_sleeps w =
    some (record w { reader = sleep_reader w.reader (notempty w.system.queue) })
happen m wake_reader w = some (deliver_reader w w.to_reader)
happen m writer_sleeps w = some (sleep_writer w.writer (qnotfull w.system.queue) w)
happen m wake_writer w = some (deliver_writer w w.to_writer)

unfoldable pub pass_by : Allocator → List Happening → World → Option World
pass_by m [] w = some w
pass_by m (h ∷ hs) w = elim (happen m h w) [ none ↦ none | some x ↦ pass_by m hs x ]

abbrev pub asleep_alone : Reader → ℕ → Bool
asleep_alone running n = false
asleep_alone flagged n = false
asleep_alone asleep zero = true
asleep_alone asleep (suc n) = false

abbrev pub slept_alone : Writer → ℕ → Bool
slept_alone awake n = false
slept_alone (slept false) n = false
slept_alone (slept true) zero = true
slept_alone (slept true) (suc n) = false

-- The reader sleeps, and no wakeup is on its way.
abbrev pub reader_left : World → Bool
reader_left w = asleep_alone w.reader w.to_reader

-- A writer sleeps that went to sleep while Qflow was set, and no wakeup is on its way.
abbrev pub writer_left : World → Bool
writer_left w = slept_alone w.writer w.to_writer
