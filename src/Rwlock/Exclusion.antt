-- ===== src/Rwlock/Exclusion.antt =====
-- A writer is alone, and neither a writer nor a reader waits for nothing.
use drawterm_android.Base.{
  ◌-◌, ◌==◌, ap, true, some, if_true, ==-refl, ℕ, ◌<◌, ◌≡◌, ◌∙◌, sym, refl, arith, false, none,
  List, [], ◌∷◌, length,
}
use drawterm_android.Qlock.{QLock, Waits, qlock, qunlock, hand_over}
use drawterm_android.Rwlock.{
  leave_to, runlock, let_writer, RwState, RwEvent, Stage, open_lock, r_start, r_done, w_start,
  w_wait, w_in, w_out, erase, ask_x, step, run, ask, go, leave,
}
use drawterm_android.Rwlock.Sound.{KHeld, IsSound, asked-IsSound, go_from-IsSound}
use drawterm_android.Rwlock.Leave.{leave_to-IsSound}

step-IsSound : (e : RwEvent) (s : RwState) → IsSound s → IsSound (step e s)
unfolding step ask_x qlock
step-IsSound (ask p w) s i = asked-IsSound p w s.lock.x.hold s refl i
step-IsSound go s i = go_from-IsSound s.stage s refl i
step-IsSound (leave p) s i = leave_to-IsSound p (erase p s.inside) s refl i

abbrev pub unlocked : RwState
unlocked = record {
  lock = record {
    readers = 0;
    x = record { hold = none; waiting = [] };
    k = record { hold = none; waiting = [] };
  };
  stage = open_lock;
  inside = [];
  writer = λ _. false;
}

run-IsSound : (es : List RwEvent) (s : RwState) → IsSound s → IsSound (run es s)
unfolding run
run-IsSound [] s i = i
run-IsSound (e ∷ es) s i = run-IsSound es (step e s) (step-IsSound e s i)

unlocked-IsSound : IsSound unlocked
unlocked-IsSound = record { count = refl; x_held = refl; x_waits = refl; k_held = (refl, refl) }

-- A writer in its section is alone; one that sleeps waits for readers that are inside, and is the
-- only one that `k` has to wake.
abbrev pub Excludes : Stage → List ℕ → List ℕ → Type 0
Excludes open_lock inside ws = ws ≡ []
Excludes (r_start p) inside ws = ws ≡ []
Excludes (r_done p) inside ws = ws ≡ []
Excludes (w_start p) inside ws = ws ≡ []
Excludes (w_wait p) inside ws = (0 < length inside) × (ws ≡ p ∷ [])
Excludes (w_in p) inside ws = (inside ≡ []) × (ws ≡ [])
Excludes (w_out p) inside ws = ws ≡ []

no_length : (xs : List ℕ) → 0 ≡ length xs → xs ≡ []
no_length [] e = refl
no_length (x ∷ xs) e = ground (arith, e)

sound-Excludes :
    (st : Stage) (n : ℕ) (inside : List ℕ) (k : QLock)
    → n ≡ length inside
    → KHeld st n k
    → Excludes st inside k.waiting
sound-Excludes open_lock n xs k c (a, b) = b
sound-Excludes (r_start p) n xs k c (a, b) = b
sound-Excludes (r_done p) n xs k c (a, b) = b
sound-Excludes (w_start p) n xs k c (a, b) = b
sound-Excludes (w_wait p) n xs k c (a, b, d) = (omega (arith, a, c), d)
sound-Excludes (w_in p) n xs k c (a, b, d) = (no_length xs (sym a ∙ c), d)
sound-Excludes (w_out p) n xs k c (a, b) = b

-- In every sequence of steps of rlock, runlock, wlock and wunlock on a free lock, `readers` is the
-- number of the readers inside; a writer in its section is alone, and one that sleeps in wlock for
-- the readers is the only process that waits for `k`, with a reader inside; and nobody waits for `x`
-- when nobody holds it.
pub run-Excludes :
    (es : List RwEvent)
    → ((run es unlocked).lock.readers ≡ length (run es unlocked).inside)
      × Excludes (run es unlocked).stage (run es unlocked).inside (run es unlocked).lock.k.waiting
      × Waits (run es unlocked).lock.x.hold (run es unlocked).lock.x.waiting
run-Excludes es =
    let s = run es unlocked in
    let i = run-IsSound es unlocked unlocked-IsSound in
    (i.count, sound-Excludes s.stage s.lock.readers s.inside s.lock.k i.count i.k_held, i.x_waits)

last_out_stage :
    (s : RwState) (p q : ℕ)
    → IsSound s
    → s.stage ≡ w_wait p
    → s.inside ≡ q ∷ []
    → (step (leave q) s).stage ≡ w_in p
unfolding step erase leave_to runlock let_writer qunlock hand_over
last_out_stage s p q i e f =
    let (a, b, c) = rw e at i.k_held in
    let l = ap (λ t. length t) f in
    let n : (s.lock.readers - 1 == 0) ≡ true = ground (arith, i.count, l) in
    let r : erase q s.inside ≡ some [] = ap (erase q) f ∙ if_true (q == q) _ _ (==-refl q) in
    rw (r, n, c) refl

-- When the last reader that is inside leaves while a writer sleeps in wlock, on any sequence of steps
-- so far, that writer is in its section.
pub last_reader_lem :
    (es : List RwEvent) (p q : ℕ)
    → (run es unlocked).stage ≡ w_wait p
    → (run es unlocked).inside ≡ q ∷ []
    → (step (leave q) (run es unlocked)).stage ≡ w_in p
last_reader_lem es p q e f =
    last_out_stage (run es unlocked) p q (run-IsSound es unlocked unlocked-IsSound) e f
