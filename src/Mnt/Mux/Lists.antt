-- ===== src/Mnt/Mux/Lists.antt =====
-- What the gate and the dispatch of the answers do to the list of requests.
use drawterm_android.Base.{
  ℕ, ◌≡◌, ◌⊎◌, ◌∙◌, ap, sym, refl, arith, ◌==◌, if_true, if_false, Bool, true, false, Bool-cases,
  inl, inr, ◌&&◌, ◌||◌, Option, none, some, List, [], ◌∷◌,
}
use drawterm_android.Fcall.{Fcall}
use drawterm_android.Mnt.Mux.{
  Mntrpc, Mnt, not, find_rpc, remove, put_to_sleep, wake_first, mountmux,
}

-- A request that is done is out of the queue and has a reply with its tag; the others wait in it;
-- and a process sleeps only while its request waits.
pub record IsRpc (r : Mntrpc) : Type 0 where
  pub in_queue : r.queued ≡ not r.done
  pub waits : (r.asleep ≡ false) ⊎ (r.done ≡ false)
  pub answered : (r.done ≡ false) ⊎ ((f : Fcall) × (r.reply ≡ some f) × (f.tag ≡ r.tag))

abbrev pub AreRpcs : List Mntrpc → Type 0
AreRpcs [] = Unit
AreRpcs (r ∷ rs) = IsRpc r × AreRpcs rs

-- Whether any process sleeps; whether one is awake with its request not done; and whether that of a
-- tag is awake.
abbrev pub sleeping : List Mntrpc → Bool
sleeping [] = false
sleeping (r ∷ rs) = r.asleep || sleeping rs

abbrev pub ready : List Mntrpc → Bool
ready [] = false
ready (r ∷ rs) = (not r.asleep && not r.done) || ready rs

abbrev pub awake_at : ℕ → List Mntrpc → Bool
awake_at t [] = false
awake_at t (r ∷ rs) = (r.tag == t && not r.asleep) || awake_at t rs

-- The gate: the reader is awake; where there is none and a process sleeps, one is ready to read.
abbrev pub Gate : List Mntrpc → Option ℕ → Type 0
Gate rs none = (sleeping rs ≡ false) ⊎ (ready rs ≡ true)
Gate rs (some t) = awake_at t rs ≡ true

pub record IsMnt (m : Mnt) : Type 0 where
  pub rpcs : AreRpcs m.rpcs
  pub gate : Gate m.rpcs m.rip

pub remove-AreRpcs : (t : ℕ) (rs : List Mntrpc) → AreRpcs rs → AreRpcs (remove t rs)
unfolding remove
remove-AreRpcs t [] h = h
remove-AreRpcs t (r ∷ rs) h = elim (Bool-cases (r.tag == t)) [
  | inl this ↦ rw this (h.1)
  | inr other ↦ rw other (h.0, remove-AreRpcs t rs h.1)
]

pub found_here :
    (t : ℕ) (r q : Mntrpc) (rs : List Mntrpc)
    → (r.tag == t) ≡ true
    → find_rpc t (r ∷ rs) ≡ some q
    → q ≡ r
unfolding find_rpc
found_here t r q rs this e =
    let k : some q ≡ some r = sym e ∙ if_true (r.tag == t) _ _ this in ground arith

pub found_later :
    (t : ℕ) (r q : Mntrpc) (rs : List Mntrpc)
    → (r.tag == t) ≡ false
    → find_rpc t (r ∷ rs) ≡ some q
    → find_rpc t rs ≡ some q
unfolding find_rpc
found_later t r q rs other e = sym (if_false (r.tag == t) _ _ other) ∙ e

sleeper-IsRpc : (r : Mntrpc) → r.done ≡ false → IsRpc r → IsRpc (record r { asleep = true })
sleeper-IsRpc r d h = record { in_queue = h.in_queue; waits = inr d; answered = h.answered }

pub put_to_sleep-AreRpcs :
    (t : ℕ) (q : Mntrpc) (rs : List Mntrpc)
    → find_rpc t rs ≡ some q
    → q.done ≡ false
    → AreRpcs rs
    → AreRpcs (put_to_sleep t rs)
unfolding put_to_sleep
put_to_sleep-AreRpcs t q [] e d h = h
put_to_sleep-AreRpcs t q (r ∷ rs) e d h = elim (Bool-cases (r.tag == t)) [
  | inl this ↦ rw this (
    sleeper-IsRpc r (sym (ap (λ (x : Mntrpc). x.done) (found_here t r q rs this e)) ∙ d) h.0,
    h.1,
  )
  | inr other ↦ rw other (h.0, put_to_sleep-AreRpcs t q rs (found_later t r q rs other e) d h.1)
]

pub put_to_sleep-awake_at :
    (t u : ℕ) (rs : List Mntrpc)
    → (u == t) ≡ false
    → awake_at u rs ≡ true
    → awake_at u (put_to_sleep t rs) ≡ true
unfolding put_to_sleep
put_to_sleep-awake_at t u [] n h = h
put_to_sleep-awake_at t u (r ∷ rs) n h = elim (Bool-cases (r.tag == t)) [
  | inl this ↦ rw this (ground (arith, h, n, this))
  | inr other ↦ rw other (ground (arith, h, put_to_sleep-awake_at t u rs n))
]

pub remove-awake_at :
    (t u : ℕ) (rs : List Mntrpc)
    → (u == t) ≡ false
    → awake_at u rs ≡ true
    → awake_at u (remove t rs) ≡ true
unfolding remove
remove-awake_at t u [] n h = h
remove-awake_at t u (r ∷ rs) n h = elim (Bool-cases (r.tag == t)) [
  | inl this ↦ rw this (ground (arith, h, n, this))
  | inr other ↦ rw other (ground (arith, h, remove-awake_at t u rs n))
]

pub remove-sleeping :
    (t : ℕ) (rs : List Mntrpc) → sleeping rs ≡ false → sleeping (remove t rs) ≡ false
unfolding remove
remove-sleeping t [] h = h
remove-sleeping t (r ∷ rs) h = elim (Bool-cases (r.tag == t)) [
  | inl this ↦ rw this (ground (arith, h))
  | inr other ↦ rw other (ground (arith, h, remove-sleeping t rs))
]

pub remove-ready :
    (t : ℕ) (q : Mntrpc) (rs : List Mntrpc)
    → find_rpc t rs ≡ some q
    → q.done ≡ true
    → ready rs ≡ true
    → ready (remove t rs) ≡ true
unfolding remove
remove-ready t q [] e d h = h
remove-ready t q (r ∷ rs) e d h = elim (Bool-cases (r.tag == t)) [
  | inl this ↦
      let done : r.done ≡ true =
        sym (ap (λ (x : Mntrpc). x.done) (found_here t r q rs this e)) ∙ d in
      rw this (ground (arith, h, done))
  | inr other ↦ rw other (ground (arith, h, remove-ready t q rs (found_later t r q rs other e) d))
]

pub none_there : (t : ℕ) (q : Mntrpc) → find_rpc t [] ≡ some q → false ≡ true
unfolding find_rpc
none_there t q e = ground arith

pub find_rpc-awake_at :
    (t : ℕ) (q : Mntrpc) (rs : List Mntrpc)
    → find_rpc t rs ≡ some q
    → q.asleep ≡ false
    → awake_at t rs ≡ true
find_rpc-awake_at t q [] e d = none_there t q e
find_rpc-awake_at t q (r ∷ rs) e d = elim (Bool-cases (r.tag == t)) [
  | inl this ↦
      let up : r.asleep ≡ false =
        sym (ap (λ (x : Mntrpc). x.asleep) (found_here t r q rs this e)) ∙ d in
      ground (arith, this, up)
  | inr other ↦ ground (arith, find_rpc-awake_at t q rs (found_later t r q rs other e) d)
]

-- `mntgate` finds a sleeper where there is one.
pub wake_first-Gate :
    (rs : List Mntrpc)
    → AreRpcs rs
    → (sleeping (wake_first rs) ≡ false) ⊎ (ready (wake_first rs) ≡ true)
unfolding wake_first
wake_first-Gate [] h = inl refl
wake_first-Gate (r ∷ rs) h = elim (Bool-cases (r.queued && (not r.done && r.asleep))) [
  | inl this ↦ rw this (inr (ground (arith, this)))
  | inr other ↦ rw other (ground (arith, other, h.0, wake_first-Gate rs h.1))
]

pub wake_first-AreRpcs : (rs : List Mntrpc) → AreRpcs rs → AreRpcs (wake_first rs)
unfolding wake_first
wake_first-AreRpcs [] h = h
wake_first-AreRpcs (r ∷ rs) h = elim (Bool-cases (r.queued && (not r.done && r.asleep))) [
  | inl this ↦ rw this (ground (arith, h.0), h.1)
  | inr other ↦ rw other (h.0, wake_first-AreRpcs rs h.1)
]

pub mountmux-AreRpcs : (f : Fcall) (rs : List Mntrpc) → AreRpcs rs → AreRpcs (mountmux f rs)
unfolding mountmux
mountmux-AreRpcs f [] h = h
mountmux-AreRpcs f (r ∷ rs) h = elim (Bool-cases (r.queued && (r.tag == f.tag))) [
  | inl this ↦ rw this (
    record { in_queue = refl; waits = inl refl; answered = inr (f, refl, ground (arith, this)) },
    h.1,
  )
  | inr other ↦ rw other (h.0, mountmux-AreRpcs f rs h.1)
]

pub mountmux-awake_at :
    (f : Fcall) (t : ℕ) (rs : List Mntrpc)
    → awake_at t rs ≡ true
    → awake_at t (mountmux f rs) ≡ true
unfolding mountmux
mountmux-awake_at f t [] h = h
mountmux-awake_at f t (r ∷ rs) h = elim (Bool-cases (r.queued && (r.tag == f.tag))) [
  | inl this ↦ rw this (ground (arith, h))
  | inr other ↦ rw other (ground (arith, h, mountmux-awake_at f t rs))
]
