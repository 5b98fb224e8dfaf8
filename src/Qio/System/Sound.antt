-- ===== src/Qio/System/Sound.antt =====
-- What every event keeps: to a process that sleeps a wakeup is due or on its way.
use mathlib.Core.Option
use mathlib.Core.Path.{subst}
use drawterm_android.Base.{
  ℕ, zero, suc, ◌∙◌, ◌≤◌, ◌≡◌, ◌⊎◌, ap, refl, if◌then◌else◌, if_true, if_false, Bool, true, false,
  Bool-cases, inl, inr, ◌&&◌, ◌||◌, Option, some, arith,
}
use drawterm_android.Qio.{Allocator}
use drawterm_android.Qio.Queue.{Queue, Done, qnotfull}
use drawterm_android.Qio.System.{
  Wait, due_reader, due_writer, Event, goes_on, for_blocks, for_room, act, then_due, wakes_writer,
}
use drawterm_android.Qio.System.Laws.{IsLive, Lives, Writes, no_blocks}
use drawterm_android.Qio.System.Live.{IsFair, act-Lives}
use drawterm_android.Qio.System.Feeds.{Feeds, Feeding, act-Feeding}
use drawterm_android.Qio.System.World.{
  Reader, running, flagged, asleep, Writer, awake, slept, World, Happening, call, reader_sleeps,
  wake_reader, writer_sleeps, wake_writer, is_running, takes, reader_after, sent, called, notempty,
  sleep_reader, sleep_writer, woken_reader, deliver_reader, deliver_writer, happen,
}

-- By the wakeups that are on their way, whether one is due, and whether the queue is not empty.
abbrev pub ReaderSound : Reader → ℕ → Bool → Bool → Type 0
ReaderSound running n due ready = Unit
ReaderSound flagged n due ready = (due ≡ true) ⊎ (ready ≡ true)
ReaderSound asleep n due ready = (due ≡ true) ⊎ (1 ≤ n)

abbrev pub WriterSound : Writer → ℕ → Bool → Type 0
WriterSound awake n due = Unit
WriterSound (slept false) n due = Unit
WriterSound (slept true) n due = (due ≡ true) ⊎ (1 ≤ n)

pub record IsSound (w : World) : Type 0 where
  pub lives : Lives w.system
  pub reads : ReaderSound w.reader w.to_reader w.system.reader_due (notempty w.system.queue)
  pub writes : WriterSound w.writer w.to_writer w.system.writer_due

-- What the process that takes does itself.
reader_own :
    (w : World) (d : Done Wait)
    → w.reader ≡ running
    → ReaderSound
        (called w d).reader
        (called w d).to_reader
        (called w d).system.reader_due
        (notempty d.queue)
reader_own w d e = by_wait d.result w.reader _ _ _ e
  where
    by_wait :
        (k : Wait) (p : Reader) (n : ℕ) (due ready : Bool)
        → p ≡ running
        → ReaderSound (reader_after k p) n (due_reader k due) ready
    by_wait goes_on p n due ready e = rw e tt
    by_wait for_blocks p n due ready e = inl refl
    by_wait for_room p n due ready e = rw e tt

-- What another process does.
others_keep :
    (k : Wait) (p : Reader) (n : ℕ) (due woken before ready : Bool)
    → (woken ≡ false) ⊎ (ready ≡ true)
    → (before ≡ false) ⊎ (ready ≡ true)
    → ReaderSound p n due before
    → ReaderSound
        (reader_after k p)
        (sent woken n)
        (due_reader k (if woken then false else due))
        ready
others_keep goes_on running n due woken before ready f g h = tt
others_keep goes_on flagged n due woken before ready f g h = ground arith
others_keep goes_on asleep n due woken before ready f g h = ground arith
others_keep for_blocks p n due woken before ready f g h = inl refl
others_keep for_room running n due woken before ready f g h = tt
others_keep for_room flagged n due woken before ready f g h = ground arith
others_keep for_room asleep n due woken before ready f g h = ground arith

writer_keeps :
    (k : Wait) (p : Writer) (q : Queue) (n : ℕ) (due woken : Bool)
    → WriterSound p n due
    → WriterSound p (sent woken n) (due_writer k q (if woken then false else due))
writer_keeps k awake q n due woken h = tt
writer_keeps k (slept false) q n due woken h = tt
writer_keeps goes_on (slept true) q n due woken h = ground arith
writer_keeps for_blocks (slept true) q n due woken h = ground arith
writer_keeps for_room (slept true) q n due woken h = ground arith

-- A wakeup that reaches a sleeper.
reader_delivered : (w : World) (n : ℕ) → IsSound w → IsSound (deliver_reader w n)
reader_delivered w zero h = h
reader_delivered w (suc n) h = record {
  lives = h.lives;
  reads = still w.reader _ _ _ _ h.reads;
  writes = h.writes;
}
  where
    still :
        (p : Reader) (k j : ℕ) (due ready : Bool)
        → ReaderSound p k due ready
        → ReaderSound (woken_reader p) j due ready
    still running k j due ready h = tt
    still flagged k j due ready h = h
    still asleep k j due ready h = tt

writer_delivered : (w : World) (n : ℕ) → IsSound w → IsSound (deliver_writer w n)
writer_delivered w zero h = h
writer_delivered w (suc n) h = record { lives = h.lives; reads = h.reads; writes = tt }

reader_put :
    (p : Reader) (n : ℕ) (due ready : Bool)
    → ReaderSound p n due ready
    → ReaderSound (sleep_reader p ready) n due ready
reader_put running n due ready h = tt
reader_put flagged n due true h = tt
reader_put flagged n due false h = ground arith
reader_put asleep n due ready h = h

-- A writer that goes to sleep while Qflow is set is owed a wakeup, for a full queue has blocks.
full-Writes : (q : Queue) (r w : Bool) → IsLive q r w → qnotfull q ≡ false → Writes q (w || q.flow)
unfolding qnotfull
full-Writes q r w h e = ground (arith, no_blocks q.blocks, h.counted.allocated)

slept-WriterSound : (flag : Bool) (n : ℕ) (due : Bool) → WriterSound (slept flag) n (due || flag)
slept-WriterSound false n due = tt
slept-WriterSound true n true = inl refl
slept-WriterSound true n false = inl refl

writer_put :
    (p : Writer) (ready : Bool) (w : World)
    → qnotfull w.system.queue ≡ ready
    → IsSound w
    → IsSound (sleep_writer p ready w)
writer_put awake true w e h = h
writer_put awake false w e h =
    let q = w.system.queue in
    let k = h.lives in
    record {
      lives = record {
        counted = k.counted;
        limit_ge = k.limit_ge;
        inilim_ge = k.inilim_ge;
        plain = k.plain;
        reads = k.reads;
        writes = full-Writes q w.system.reader_due w.system.writer_due k e;
      };
      reads = h.reads;
      writes = slept-WriterSound q.flow w.to_writer w.system.writer_due;
    }
writer_put (slept flag) ready w e h = h

abbrev pub IsFairly : Happening → Type 0
IsFairly (call e) = IsFair e
IsFairly reader_sleeps = Unit
IsFairly wake_reader = Unit
IsFairly writer_sleeps = Unit
IsFairly wake_writer = Unit

abbrev pub Next : Option World → Type 0
Next o = (x : World) × (o ≡ some x) × IsSound x

fed : (q : Queue) (o : Option (Done Wait)) (d : Done Wait) → o ≡ some d → Feeding q o → Feeds q d
fed q o d e f = subst (Feeding q) e f

-- A call in a world where it is not held back.
called-IsSound :
    (m : Allocator) (e : Event) (w : World) (d : Done Wait)
    → (takes e ≡ false) ⊎ (w.reader ≡ running)
    → act m e w.system.queue ≡ some d
    → Lives (then_due w.system d)
    → IsSound w
    → IsSound (called w d)
called-IsSound m e w d g x k h = record {
  lives = k;
  reads = elim g [
    | inl other ↦
        let (f, z) = fed w.system.queue _ d x (act-Feeding m e w.system.queue other) in
        others_keep d.result w.reader w.to_reader w.system.reader_due _ _ _ f z h.reads
    | inr own ↦ reader_own w d own
  ];
  writes =
      writer_keeps d.result w.writer d.queue w.to_writer w.system.writer_due
        (wakes_writer d.signals) h.writes;
}

let_through :
    (t : Bool) (p : Reader)
    → (t && (if is_running p then false else true)) ≡ false
    → (t ≡ false) ⊎ (p ≡ running)
let_through false p h = inl refl
let_through true running h = inr refl
let_through true flagged h = ground arith
let_through true asleep h = ground arith

pub happen-IsSound :
    (m : Allocator) (x : Happening) (w : World) → IsFairly x → IsSound w → Next (happen m x w)
unfolding happen
happen-IsSound m (call e) w f h =
    elim (Bool-cases (takes e && (if is_running w.reader then false else true))) [
      | inl held ↦
          (w, if_true (takes e && (if is_running w.reader then false else true)) _ _ held, h)
      | inr free ↦
          let (d, x, k) =
            act-Lives m e w.system.queue w.system.reader_due w.system.writer_due f h.lives in
          (
            called w d,
            if_false (takes e && (if is_running w.reader then false else true)) _ _ free
                ∙ ap (Option.map (called w)) x,
            called-IsSound m e w d (let_through (takes e) w.reader free) x k h,
          )
    ]
happen-IsSound m reader_sleeps w f h = (
  _,
  refl,
  record {
    lives = h.lives;
    reads = reader_put w.reader w.to_reader w.system.reader_due (notempty w.system.queue) h.reads;
    writes = h.writes;
  },
)
happen-IsSound m wake_reader w f h = (_, refl, reader_delivered w w.to_reader h)
happen-IsSound m writer_sleeps w f h =
    (_, refl, writer_put w.writer (qnotfull w.system.queue) w refl h)
happen-IsSound m wake_writer w f h = (_, refl, writer_delivered w w.to_writer h)
