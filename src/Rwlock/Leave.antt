-- ===== src/Rwlock/Leave.antt =====
-- runlock: what it keeps of the invariant, by the stage of the holder of `x`.
use drawterm_android.Base.{
  ℕ, suc, ◌-◌, ◌≡◌, ◌∙◌, sym, ap, refl, arith, ◌==◌, Bool, true, false, if◌then◌else◌, Option, none,
  some, List, [], ◌∷◌, length, ==→eq,
}
use mathlib.Core.Option.{some-injective}
use drawterm_android.Qlock.{QLock, hand_over, qunlock}
use drawterm_android.Rwlock.{
  RwState, Stage, open_lock, r_start, r_done, w_start, w_wait, w_in, w_out, let_writer, runlock,
  keep, woken_stage, erase, leave_to,
}
use drawterm_android.Rwlock.Sound.{XHeld, KHeld, IsSound}

length-keep :
    (b : Bool) (q : ℕ) (qs : List ℕ) (r : Option (List ℕ)) (ps : List ℕ)
    → ((rs : List ℕ) → r ≡ some rs → length qs ≡ suc (length rs))
    → (if b then some qs else keep q r) ≡ some ps
    → suc (length qs) ≡ suc (length ps)
length-keep true q qs r ps h e = ap (λ t. suc (length t)) (some-injective _ _ e)
length-keep false q qs none ps h e = ground (arith, e)
length-keep false q qs (some rs) ps h e =
    ap suc (h rs refl) ∙ ap (λ t. suc (length t)) (some-injective _ _ e)

pub length-erase : (p : ℕ) (qs ps : List ℕ) → erase p qs ≡ some ps → length qs ≡ suc (length ps)
unfolding erase
length-erase p [] ps e = ground (arith, e)
length-erase p (q ∷ qs) ps e = length-keep (p == q) q qs (erase p qs) ps (length-erase p qs) e

-- What runlock keeps by the stage: of the lock `k`, and of the holder of `x`.
pub record Left (st : Stage) (h : Option ℕ) (m : ℕ) (k : QLock) : Type 0 where
  pub k_left : KHeld st m k
  pub x_left : XHeld st h

pub none_wait :
    (st : Stage) (h : Option ℕ) (n m : ℕ) (k : QLock)
    → k.waiting ≡ []
    → KHeld st n k
    → XHeld st h
    → n ≡ suc m
    → m ≡ 0
    → Left st h m (record { hold = none; waiting = [] })
none_wait open_lock h n m k w q x e z = record { k_left = (ground (arith, z), refl); x_left = x }
none_wait (r_start p) h n m k w q x e z = record { k_left = (ground (arith, z), refl); x_left = x }
none_wait (r_done p) h n m k w q x e z = record { k_left = (ground (arith, z), refl); x_left = x }
none_wait (w_start p) h n m k w q x e z = record { k_left = (ground (arith, z), refl); x_left = x }
none_wait (w_wait p) h n m k w (a, b, c) x e z = let d = sym w ∙ c in ground (arith, d)
none_wait (w_in p) h n m k w (a, b, c) x e z = ground (arith, a, e)
none_wait (w_out p) h n m k w q x e z = record { k_left = (ground (arith, z), refl); x_left = x }

pub writer_waits :
    (p : ℕ) (ps : List ℕ) (st : Stage) (h : Option ℕ) (n m : ℕ) (k : QLock)
    → k.waiting ≡ p ∷ ps
    → KHeld st n k
    → XHeld st h
    → m ≡ 0
    → Left (w_in p) h m (record { hold = some p; waiting = ps })
writer_waits p ps open_lock h n m k w (a, b) x z = let d = sym w ∙ b in ground (arith, d)
writer_waits p ps (r_start q) h n m k w (a, b) x z = let d = sym w ∙ b in ground (arith, d)
writer_waits p ps (r_done q) h n m k w (a, b) x z = let d = sym w ∙ b in ground (arith, d)
writer_waits p ps (w_start q) h n m k w (a, b) x z = let d = sym w ∙ b in ground (arith, d)
writer_waits p ps (w_wait q) h n m k w (a, b, c) x z =
    let d = sym w ∙ c in
    record { k_left = (z, refl, ground (arith, d)); x_left = x ∙ ground (arith, d) }
writer_waits p ps (w_in q) h n m k w (a, b, c) x z = let d = sym w ∙ c in ground (arith, d)
writer_waits p ps (w_out q) h n m k w (a, b) x z = let d = sym w ∙ b in ground (arith, d)

pub others_stay :
    (st : Stage) (n m : ℕ) (k : QLock) → KHeld st n k → n ≡ suc m → (m == 0) ≡ false → KHeld st m k
others_stay open_lock n m k (a, b) e f = (a ∙ ground (arith, e, f), b)
others_stay (r_start p) n m k (a, b) e f = (a ∙ ground (arith, e, f), b)
others_stay (r_done p) n m k (a, b) e f = (a ∙ ground (arith, e, f), b)
others_stay (w_start p) n m k (a, b) e f = (a ∙ ground (arith, e, f), b)
others_stay (w_wait p) n m k (a, b, c) e f = (ground (arith, f), b, c)
others_stay (w_in p) n m k (a, b, c) e f = ground (arith, a, e)
others_stay (w_out p) n m k (a, b) e f = (a ∙ ground (arith, e, f), b)

last_out :
    (ws : List ℕ) (s : RwState) (m : ℕ)
    → s.lock.k.waiting ≡ ws
    → IsSound s
    → s.lock.readers ≡ suc m
    → m ≡ 0
    → Left
        (woken_stage ((hand_over ws s.lock.k).0) s.stage)
        s.lock.x.hold
        m
        ((hand_over ws s.lock.k).1)
unfolding hand_over
last_out [] s m w i e z =
    none_wait s.stage s.lock.x.hold s.lock.readers m s.lock.k w i.k_held i.x_held e z
last_out (p ∷ ps) s m w i e z =
    writer_waits p ps s.stage s.lock.x.hold s.lock.readers m s.lock.k w i.k_held i.x_held z

let_writer-IsSound :
    (b : Bool) (s : RwState) (m : ℕ) (ps : List ℕ)
    → (m == 0) ≡ b
    → IsSound s
    → s.lock.readers ≡ suc m
    → m ≡ length ps
    → IsSound (record {
      lock = (let_writer b m s.lock).1;
      stage = woken_stage ((let_writer b m s.lock).0) s.stage;
      inside = ps;
      writer = s.writer;
    })
unfolding let_writer qunlock
let_writer-IsSound true s m ps z i e c =
    let l = last_out s.lock.k.waiting s m refl i e (==→eq m 0 z) in
    record { count = c; x_held = l.x_left; x_waits = i.x_waits; k_held = l.k_left }
let_writer-IsSound false s m ps z i e c = record {
  count = c;
  x_held = i.x_held;
  x_waits = i.x_waits;
  k_held = others_stay s.stage s.lock.readers m s.lock.k i.k_held e z;
}

pub leave_to-IsSound :
    (p : ℕ) (r : Option (List ℕ)) (s : RwState)
    → erase p s.inside ≡ r
    → IsSound s
    → IsSound (leave_to r s)
unfolding leave_to runlock
leave_to-IsSound p none s e i = i
leave_to-IsSound p (some ps) s e i =
    let l = length-erase p s.inside ps e in
    let m = s.lock.readers - 1 in
    let_writer-IsSound (m == 0) s m ps refl i (omega (arith, i.count, l))
      (omega (arith, i.count, l))
