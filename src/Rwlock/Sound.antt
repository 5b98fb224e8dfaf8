-- ===== src/Rwlock/Sound.antt =====
-- The invariant of a readers' and writers' lock, and the steps of rlock, wlock and wunlock that keep it.
use drawterm_android.Base.{
  ℕ, suc, ◌<◌, ◌≡◌, ◌∙◌, sym, ap, refl, arith, ltb, ◌==◌, Bool, true, false, if◌then◌else◌, Option,
  none, some, List, [], ◌∷◌, length,
}
use drawterm_android.Qlock.{
  QLock, Waits, held_on, lock_by, qlock, try_by, canqlock, hand_over, qunlock, queue,
}
use drawterm_android.Rwlock.{
  RwState, Stage, open_lock, r_start, r_done, w_start, w_wait, w_in, w_out, reader_in, starts,
  next_stage, give_x, w_next, asked_stage, enter_reader, ask_k, give_k, go_from,
}

abbrev pub has : Option ℕ → Bool
has none = false
has (some p) = true

-- Who holds `x`, by the stage.
abbrev pub XHeld : Stage → Option ℕ → Type 0
XHeld open_lock h = h ≡ none
XHeld (r_start p) h = h ≡ some p
XHeld (r_done p) h = h ≡ some p
XHeld (w_start p) h = h ≡ some p
XHeld (w_wait p) h = h ≡ some p
XHeld (w_in p) h = h ≡ some p
XHeld (w_out p) h = h ≡ some p

-- `k` is held just as there are readers, and nobody waits for it.
abbrev pub Quiet : ℕ → QLock → Type 0
Quiet n k = (has k.hold ≡ ltb 0 n) × (k.waiting ≡ [])

-- The lock `k`, by the stage and the number of readers.
abbrev pub KHeld : Stage → ℕ → QLock → Type 0
KHeld open_lock n k = Quiet n k
KHeld (r_start p) n k = Quiet n k
KHeld (r_done p) n k = Quiet n k
KHeld (w_start p) n k = Quiet n k
KHeld (w_wait p) n k = (0 < n) × (has k.hold ≡ true) × (k.waiting ≡ p ∷ [])
KHeld (w_in p) n k = (n ≡ 0) × (has k.hold ≡ true) × (k.waiting ≡ [])
KHeld (w_out p) n k = Quiet n k

pub record IsSound (s : RwState) : Type 0 where
  pub count : s.lock.readers ≡ length s.inside
  pub x_held : XHeld s.stage s.lock.x.hold
  pub x_waits : Waits s.lock.x.hold s.lock.x.waiting
  pub k_held : KHeld s.stage s.lock.readers s.lock.k

starts-XHeld : (p : ℕ) (w : Bool) → XHeld (starts p w) (some p)
starts-XHeld p true = refl
starts-XHeld p false = refl

starts-KHeld : (p : ℕ) (w : Bool) (n : ℕ) (k : QLock) → Quiet n k → KHeld (starts p w) n k
starts-KHeld p true n k q = q
starts-KHeld p false n k q = q

-- A lock `x` that nobody holds is at the stage where `k` is quiet.
open-Quiet :
    (st : Stage) (h : Option ℕ) (n : ℕ) (k : QLock)
    → XHeld st h
    → h ≡ none
    → KHeld st n k
    → Quiet n k
open-Quiet open_lock h n k x e q = q
open-Quiet (r_start p) h n k x e q = q
open-Quiet (r_done p) h n k x e q = q
open-Quiet (w_start p) h n k x e q = q
open-Quiet (w_wait p) h n k x e q = ground (arith, x, e)
open-Quiet (w_in p) h n k x e q = ground (arith, x, e)
open-Quiet (w_out p) h n k x e q = q

pub asked-IsSound :
    (p : ℕ) (w : Bool) (h : Option ℕ) (s : RwState)
    → s.lock.x.hold ≡ h
    → IsSound s
    → IsSound (record {
      lock = record { readers = s.lock.readers; x = (lock_by p h s.lock.x).1; k = s.lock.k };
      stage = asked_stage p w ((lock_by p h s.lock.x).0) s.stage;
      inside = s.inside;
      writer = λ q. if q == p then w else s.writer q;
    })
unfolding lock_by
asked-IsSound p w none s e i = record {
  count = i.count;
  x_held = starts-XHeld p w;
  x_waits = tt;
  k_held =
      starts-KHeld p w s.lock.readers s.lock.k
        (open-Quiet s.stage s.lock.x.hold s.lock.readers s.lock.k i.x_held e i.k_held);
}
asked-IsSound p w (some q) s e i = record {
  count = i.count;
  x_held = i.x_held;
  x_waits = held_on q s.lock.x.hold (queue p s.lock.x.waiting) e;
  k_held = i.k_held;
}

given-IsSound :
    (ps : List ℕ) (s : RwState)
    → s.lock.readers ≡ length s.inside
    → Quiet s.lock.readers s.lock.k
    → IsSound (record {
      lock = record { readers = s.lock.readers; x = (hand_over ps s.lock.x).1; k = s.lock.k };
      stage = next_stage ((hand_over ps s.lock.x).0) s.writer;
      inside = s.inside;
      writer = s.writer;
    })
unfolding hand_over
given-IsSound [] s c q = record { count = c; x_held = refl; x_waits = refl; k_held = q }
given-IsSound (p ∷ ps) s c q = record {
  count = c;
  x_held = starts-XHeld p (s.writer p);
  x_waits = tt;
  k_held = starts-KHeld p (s.writer p) s.lock.readers s.lock.k q;
}

-- A reader takes `k` for all readers, or it is taken.
try_by-Quiet :
    (p : ℕ) (h : Option ℕ) (n : ℕ) (k : QLock)
    → k.hold ≡ h
    → Quiet n k
    → Quiet (suc n) ((try_by p h k).1)
unfolding try_by
try_by-Quiet p none n k e (a, b) = (ground arith, b)
try_by-Quiet p (some q) n k e (a, b) = (ap has e ∙ ground arith, b)

-- A writer gets `k` or waits for the readers.
lock_by-KHeld :
    (p : ℕ) (h : Option ℕ) (n : ℕ) (k : QLock)
    → k.hold ≡ h
    → Quiet n k
    → KHeld (w_next p ((lock_by p h k).0)) n ((lock_by p h k).1)
unfolding lock_by
lock_by-KHeld p none n k e (a, b) = let z = sym (ap has e) ∙ a in (ground (arith, z), refl, b)
lock_by-KHeld p (some q) n k e (a, b) =
    let z = sym (ap has e) ∙ a in (ground (arith, z), ap has e, ap (queue p) b)

w_next-XHeld : (p : ℕ) (b : Bool) (h : Option ℕ) → h ≡ some p → XHeld (w_next p b) h
w_next-XHeld p true h e = e
w_next-XHeld p false h e = e

-- The unlock of `k` by a writer leaves it free.
hand_over-Quiet : (ps : List ℕ) (n : ℕ) (k : QLock) → ps ≡ [] → n ≡ 0 → Quiet n ((hand_over ps k).1)
unfolding hand_over
hand_over-Quiet [] n k e z = (ground (arith, z), refl)
hand_over-Quiet (p ∷ ps) n k e z = ground (arith, e)

pub go_from-IsSound : (st : Stage) (s : RwState) → s.stage ≡ st → IsSound s → IsSound (go_from st s)
unfolding go_from enter_reader reader_in canqlock ask_k qlock give_k give_x qunlock
go_from-IsSound open_lock s e i = i
go_from-IsSound (r_start p) s e i =
    let h = rw e at i.x_held in
    let q = rw e at i.k_held in
    record {
      count = ap suc i.count;
      x_held = h;
      x_waits = i.x_waits;
      k_held = try_by-Quiet p s.lock.k.hold s.lock.readers s.lock.k refl q;
    }
go_from-IsSound (r_done p) s e i =
    let q = rw e at i.k_held in given-IsSound s.lock.x.waiting s i.count q
go_from-IsSound (w_start p) s e i =
    let h = rw e at i.x_held in
    let q = rw e at i.k_held in
    record {
      count = i.count;
      x_held = w_next-XHeld p ((lock_by p s.lock.k.hold s.lock.k).0) s.lock.x.hold h;
      x_waits = i.x_waits;
      k_held = lock_by-KHeld p s.lock.k.hold s.lock.readers s.lock.k refl q;
    }
go_from-IsSound (w_wait p) s e i = i
go_from-IsSound (w_in p) s e i =
    let h = rw e at i.x_held in
    let (z, t, w) = rw e at i.k_held in
    record {
      count = i.count;
      x_held = h;
      x_waits = i.x_waits;
      k_held = hand_over-Quiet s.lock.k.waiting s.lock.readers s.lock.k w z;
    }
go_from-IsSound (w_out p) s e i =
    let q = rw e at i.k_held in given-IsSound s.lock.x.waiting s i.count q
