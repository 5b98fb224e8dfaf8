-- ===== src/Rwlock.antt =====
-- Readers and writers: kern/rwlock.c, over the queueing locks of Qlock. What the process that holds
-- the lock `x` does next is its stage; each step of rlock, wlock, wunlock and runlock between two
-- calls on a queueing lock is an event.
pub mod Sound
pub mod Leave
pub mod Exclusion
mod Tests
use drawterm_android.Base.{
  ℕ, suc, ◌-◌, ◌==◌, Bool, true, false, if◌then◌else◌, Option, none, some, List, [], ◌∷◌,
}
use drawterm_android.Qlock.{QLock, qlock, canqlock, qunlock}

pub record RwLock : Type 0 where
  pub readers : ℕ
  pub x : QLock
  pub k : QLock

-- rlock between its qlock and its qunlock.
unfoldable pub reader_in : ℕ → RwLock → RwLock
reader_in p l = record { readers = suc l.readers; x = l.x; k = (canqlock p l.k).1 }

unfoldable pub let_writer : Bool → ℕ → RwLock → Option ℕ × RwLock
let_writer true n l = let r = qunlock l.k in (r.0, record { readers = n; x = l.x; k = r.1 })
let_writer false n l = (none, record { readers = n; x = l.x; k = l.k })

-- The process that is woken, and the lock. Only a reader calls it, so that `readers` is not 0.
unfoldable pub runlock : RwLock → Option ℕ × RwLock
runlock l = let n = l.readers - 1 in let_writer (n == 0) n l

-- Where the holder of `x` is: a reader before and behind reader_in, a writer before its qlock of `k`,
-- asleep in it, in its own section, and between its two qunlocks.
pub data Stage : Type 0 where
  open_lock : Stage
  r_start : ℕ → Stage
  r_done : ℕ → Stage
  w_start : ℕ → Stage
  w_wait : ℕ → Stage
  w_in : ℕ → Stage
  w_out : ℕ → Stage

-- `inside` are the readers between reader_in and their runlock, and `writer` tells of a process that
-- waits for `x` whether it is in wlock.
pub record RwState : Type 0 where
  pub lock : RwLock
  pub stage : Stage
  pub inside : List ℕ
  pub writer : ℕ → Bool

pub data RwEvent : Type 0 where
  ask : ℕ → Bool → RwEvent
  go : RwEvent
  leave : ℕ → RwEvent

abbrev pub starts : ℕ → Bool → Stage
starts p true = w_start p
starts p false = r_start p

abbrev pub next_stage : Option ℕ → (ℕ → Bool) → Stage
next_stage none writer = open_lock
next_stage (some p) writer = starts p (writer p)

-- The holder of `x` gives it up, and the process that is woken begins.
unfoldable pub give_x : RwState → RwState
give_x s =
    let r = qunlock s.lock.x in
    record {
      lock = record { readers = s.lock.readers; x = r.1; k = s.lock.k };
      stage = next_stage (r.0) s.writer;
      inside = s.inside;
      writer = s.writer;
    }

abbrev pub w_next : ℕ → Bool → Stage
w_next p true = w_in p
w_next p false = w_wait p

abbrev pub woken_stage : Option ℕ → Stage → Stage
woken_stage none st = st
woken_stage (some p) st = w_in p

abbrev pub asked_stage : ℕ → Bool → Bool → Stage → Stage
asked_stage p w true st = starts p w
asked_stage p w false st = st

abbrev pub keep : ℕ → Option (List ℕ) → Option (List ℕ)
keep q none = none
keep q (some qs) = some (q ∷ qs)

unfoldable pub erase : ℕ → List ℕ → Option (List ℕ)
erase p [] = none
erase p (q ∷ qs) = let rest = erase p qs in if p == q then some qs else keep q rest

-- `qlock(&l->x)` of rlock or wlock.
unfoldable pub ask_x : ℕ → Bool → RwState → RwState
ask_x p w s =
    let r = qlock p s.lock.x in
    record {
      lock = record { readers = s.lock.readers; x = r.1; k = s.lock.k };
      stage = asked_stage p w (r.0) s.stage;
      inside = s.inside;
      writer = λ q. if q == p then w else s.writer q;
    }

unfoldable pub enter_reader : ℕ → RwState → RwState
enter_reader p s = record {
  lock = reader_in p s.lock;
  stage = r_done p;
  inside = p ∷ s.inside;
  writer = s.writer;
}

-- `qlock(&l->k)` of wlock.
unfoldable pub ask_k : ℕ → RwState → RwState
ask_k p s =
    let r = qlock p s.lock.k in
    record {
      lock = record { readers = s.lock.readers; x = s.lock.x; k = r.1 };
      stage = w_next p (r.0);
      inside = s.inside;
      writer = s.writer;
    }

-- `qunlock(&l->k)` of wunlock.
unfoldable pub give_k : ℕ → RwState → RwState
give_k p s = record {
  lock = record { readers = s.lock.readers; x = s.lock.x; k = (qunlock s.lock.k).1 };
  stage = w_out p;
  inside = s.inside;
  writer = s.writer;
}

unfoldable pub go_from : Stage → RwState → RwState
go_from open_lock s = s
go_from (r_start p) s = enter_reader p s
go_from (r_done p) s = give_x s
go_from (w_start p) s = ask_k p s
go_from (w_wait p) s = s
go_from (w_in p) s = give_k p s
go_from (w_out p) s = give_x s

unfoldable pub leave_to : Option (List ℕ) → RwState → RwState
leave_to none s = s
leave_to (some ps) s =
    let r = runlock s.lock in
    record { lock = r.1; stage = woken_stage (r.0) s.stage; inside = ps; writer = s.writer }

-- A process that is not inside does not leave.
unfoldable pub step : RwEvent → RwState → RwState
step (ask p w) s = ask_x p w s
step go s = go_from s.stage s
step (leave p) s = leave_to (erase p s.inside) s

unfoldable pub run : List RwEvent → RwState → RwState
run [] s = s
run (e ∷ es) s = run es (step e s)
