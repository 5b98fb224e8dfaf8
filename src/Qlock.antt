-- ===== src/Qlock.antt =====
-- Queueing locks: kern/qlock.c. Each function holds the spin lock of the QLock throughout. The list
-- from `first` to `last` along `qnext` is a list of processes; a process in it sleeps.
mod Tests
use drawterm_android.Base.{
  ℕ, ◌≡◌, ◌⊎◌, inl, inr, ◌∙◌, ap, sym, refl, arith, ◌==◌, Bool, true, false, Option, none, some,
  List, [], ◌∷◌, ◌++◌, append_assoc, append-nil,
}

pub record QLock : Type 0 where
  pub hold : Option ℕ
  pub waiting : List ℕ

abbrev pub queue : ℕ → List ℕ → List ℕ
queue up ps = ps ++ up ∷ []

-- Whether the process goes on holding the lock; otherwise it sleeps.
unfoldable pub lock_by : ℕ → Option ℕ → QLock → Bool × QLock
lock_by up none q = (true, record q { hold = some up })
lock_by up (some p) q = (false, record q { waiting = queue up q.waiting })

unfoldable pub qlock : ℕ → QLock → Bool × QLock
qlock up q = lock_by up q.hold q

unfoldable pub try_by : ℕ → Option ℕ → QLock → Bool × QLock
try_by up none q = (true, record q { hold = some up })
try_by up (some p) q = (false, q)

unfoldable pub canqlock : ℕ → QLock → Bool × QLock
canqlock up q = try_by up q.hold q

-- The process that is woken, which then holds the lock.
unfoldable pub hand_over : List ℕ → QLock → Option ℕ × QLock
hand_over [] q = (none, record { hold = none; waiting = [] })
hand_over (p ∷ ps) q = (some p, record { hold = some p; waiting = ps })

unfoldable pub qunlock : QLock → Option ℕ × QLock
qunlock q = hand_over q.waiting q

unfoldable pub held_by : ℕ → Option ℕ → Bool
held_by up none = false
held_by up (some p) = p == up

unfoldable pub holdqlock : ℕ → QLock → Bool
holdqlock up q = held_by up q.hold

-- What processes do to a lock.
pub data Call : Type 0 where
  lock : ℕ → Call
  try_lock : ℕ → Call
  unlock : Call

-- The processes that asked for the lock and were not sent away, in their order; those that got it, in
-- theirs; and the lock.
pub record Log : Type 0 where
  pub asked : List ℕ
  pub got : List ℕ
  pub left : QLock

abbrev pub one_more : Bool → ℕ → List ℕ → List ℕ
one_more true p ps = ps ++ p ∷ []
one_more false p ps = ps

abbrev pub woken_too : Option ℕ → List ℕ → List ℕ
woken_too none ps = ps
woken_too (some p) ps = ps ++ p ∷ []

unfoldable pub calls : List Call → Log → Log
calls [] l = l
calls (lock p ∷ cs) l =
    let r = qlock p l.left in
    calls cs (record { asked = l.asked ++ p ∷ []; got = one_more (r.0) p l.got; left = r.1 })
calls (try_lock p ∷ cs) l =
    let r = canqlock p l.left in
    calls cs (record { asked = one_more (r.0) p l.asked; got = one_more (r.0) p l.got; left = r.1 })
calls (unlock ∷ cs) l =
    let r = qunlock l.left in calls cs (record l { got = woken_too (r.0) l.got; left = r.1 })

-- A lock that nobody holds has nobody waiting.
abbrev pub Waits : Option ℕ → List ℕ → Type 0
Waits none ps = ps ≡ []
Waits (some p) ps = Unit {0}

record IsFifo (l : Log) : Type 0 where
  order : l.got ++ l.left.waiting ≡ l.asked
  waits : Waits l.left.hold l.left.waiting

pub held_on : (u : ℕ) (h : Option ℕ) (ps : List ℕ) → h ≡ some u → Waits h ps
held_on u none ps e = ground arith
held_on u (some v) ps e = tt

lock_by-IsFifo :
    (p : ℕ) (h : Option ℕ) (l : Log)
    → l.left.hold ≡ h
    → l.got ++ l.left.waiting ≡ l.asked
    → Waits h l.left.waiting
    → IsFifo (record {
      asked = l.asked ++ p ∷ [];
      got = one_more ((lock_by p h l.left).0) p l.got;
      left = (lock_by p h l.left).1;
    })
unfolding lock_by
lock_by-IsFifo p none l e o w = record {
  order =
      ap (λ t. (l.got ++ p ∷ []) ++ t) w
      ∙ append-nil (l.got ++ p ∷ [])
      ∙ ap (λ t. t ++ p ∷ []) (sym (append-nil l.got) ∙ ap (λ t. l.got ++ t) (sym w) ∙ o);
  waits = tt;
}
lock_by-IsFifo p (some u) l e o w = record {
  order = sym (append_assoc l.got l.left.waiting (p ∷ [])) ∙ ap (λ t. t ++ p ∷ []) o;
  waits = held_on u l.left.hold (l.left.waiting ++ p ∷ []) e;
}

try_by-IsFifo :
    (p : ℕ) (h : Option ℕ) (l : Log)
    → l.left.hold ≡ h
    → l.got ++ l.left.waiting ≡ l.asked
    → Waits h l.left.waiting
    → IsFifo (record {
      asked = one_more ((try_by p h l.left).0) p l.asked;
      got = one_more ((try_by p h l.left).0) p l.got;
      left = (try_by p h l.left).1;
    })
unfolding try_by
try_by-IsFifo p none l e o w = record {
  order =
      ap (λ t. (l.got ++ p ∷ []) ++ t) w
      ∙ append-nil (l.got ++ p ∷ [])
      ∙ ap (λ t. t ++ p ∷ []) (sym (append-nil l.got) ∙ ap (λ t. l.got ++ t) (sym w) ∙ o);
  waits = tt;
}
try_by-IsFifo p (some u) l e o w = record {
  order = o;
  waits = held_on u l.left.hold l.left.waiting e;
}

hand_over-IsFifo :
    (ps : List ℕ) (l : Log)
    → l.got ++ ps ≡ l.asked
    → IsFifo (record l {
      got = woken_too ((hand_over ps l.left).0) l.got;
      left = (hand_over ps l.left).1;
    })
unfolding hand_over
hand_over-IsFifo [] l o = record { order = o; waits = refl }
hand_over-IsFifo (p ∷ ps) l o = record { order = append_assoc l.got (p ∷ []) ps ∙ o; waits = tt }

calls-IsFifo : (cs : List Call) (l : Log) → IsFifo l → IsFifo (calls cs l)
unfolding calls qlock canqlock qunlock
calls-IsFifo [] l h = h
calls-IsFifo (lock p ∷ cs) l h =
    calls-IsFifo cs _ (lock_by-IsFifo p l.left.hold l refl h.order h.waits)
calls-IsFifo (try_lock p ∷ cs) l h =
    calls-IsFifo cs _ (try_by-IsFifo p l.left.hold l refl h.order h.waits)
calls-IsFifo (unlock ∷ cs) l h = calls-IsFifo cs _ (hand_over-IsFifo l.left.waiting l h.order)

abbrev pub free_lock : Log
free_lock = record { asked = []; got = []; left = record { hold = none; waiting = [] } }

-- In every sequence of `qlock`, `canqlock` and `qunlock` on a free lock, the processes get the lock
-- in the order in which they asked for it: those that got it, followed by those that wait, are those
-- that asked, where a `canqlock` that fails does not count.
pub calls_lem :
    (cs : List Call)
    → (calls cs free_lock).got ++ (calls cs free_lock).left.waiting ≡ (calls cs free_lock).asked
calls_lem cs = (calls-IsFifo cs free_lock (record { order = refl; waits = refl })).order
