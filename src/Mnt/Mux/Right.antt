-- ===== src/Mnt/Mux/Right.antt =====
-- Every process gets the answer to its own request, and no sleeper is left without a reader.
use drawterm_android.Base.{
  ℕ, ◌≡◌, ◌⊎◌, ◌∙◌, refl, arith, ◌==◌, Bool, true, false, Bool-cases, inl, inr, ◌&&◌, Option, none,
  some, List, [], ◌∷◌,
}
use drawterm_android.Fcall.{Fcall}
use drawterm_android.Mnt.Mux.{
  Mntrpc, Mnt, find_rpc, remove, mntgate, MntEvent, enter, look, answer, fail, leave, entered,
  to_sleep, at_gate, looked, reading, leaving, by_reader, step, run,
}
use drawterm_android.Mnt.Mux.Lists.{
  IsRpc, AreRpcs, sleeping, ready, Gate, IsMnt, remove-AreRpcs, found_here, found_later,
  put_to_sleep-AreRpcs, put_to_sleep-awake_at, remove-awake_at, remove-sleeping, remove-ready,
  none_there, find_rpc-awake_at, wake_first-Gate, wake_first-AreRpcs, mountmux-AreRpcs,
  mountmux-awake_at,
}

mntgate-IsMnt : (rs : List Mntrpc) → AreRpcs rs → IsMnt (mntgate rs)
unfolding mntgate
mntgate-IsMnt rs h = record { rpcs = wake_first-AreRpcs rs h; gate = wake_first-Gate rs h }

entered-IsMnt : (t : ℕ) (o : Option Mntrpc) (m : Mnt) → IsMnt m → IsMnt (entered t o m)
unfolding entered
entered-IsMnt t none m h = record {
  rpcs = (record { in_queue = refl; waits = inl refl; answered = inl refl }, h.rpcs);
  gate = new_gate t m.rpcs m.rip h.gate;
}
  where
    new_gate :
        (t : ℕ) (rs : List Mntrpc) (rip : Option ℕ)
        → Gate rs rip
        → Gate
            (record {
              tag = t;
              queued = true;
              done = false;
              asleep = false;
              woken = false;
              reply = none;
            }
              ∷ rs)
            rip
    new_gate t rs none g = inr refl
    new_gate t rs (some u) g = ground arith
entered-IsMnt t (some r) m h = h

at_gate-IsMnt :
    (t : ℕ) (q : Mntrpc) (rip : Option ℕ) (rs : List Mntrpc)
    → find_rpc t rs ≡ some q
    → q.asleep ≡ false
    → IsMnt (record { rpcs = rs; rip = rip })
    → IsMnt (at_gate t q rip (record { rpcs = rs; rip = rip }))
unfolding at_gate to_sleep
at_gate-IsMnt t q none rs e a h = elim (Bool-cases (q.woken && q.done)) [
  | inl over ↦ rw over (record {
    rpcs = remove-AreRpcs t rs h.rpcs;
    gate = (elim h.gate [
      | inl s ↦ inl (remove-sleeping t rs s)
      | inr r ↦ inr (remove-ready t q rs e (ground (arith, over)) r)
    ]);
  })
  | inr on ↦ rw on (record { rpcs = h.rpcs; gate = find_rpc-awake_at t q rs e a })
]
at_gate-IsMnt t q (some u) rs e a h = elim (Bool-cases (u == t)) [
  | inl same ↦ rw same h
  | inr other ↦ elim (Bool-cases q.done) [
    | inl over ↦
        rw (other, over)
          (record { rpcs = remove-AreRpcs t rs h.rpcs; gate = remove-awake_at t u rs other h.gate })
    | inr on ↦
        rw (other, on)
          (record {
            rpcs = put_to_sleep-AreRpcs t q rs e on h.rpcs;
            gate = put_to_sleep-awake_at t u rs other h.gate;
          })
  ]
]

looked-IsMnt :
    (t : ℕ) (o : Option Mntrpc) (m : Mnt) → find_rpc t m.rpcs ≡ o → IsMnt m → IsMnt (looked t o m)
unfolding looked at_gate to_sleep
looked-IsMnt t none m e h = h
looked-IsMnt t (some q) m e h = elim (Bool-cases q.asleep) [
  | inl down ↦ rw down h
  | inr up ↦ rw up (at_gate-IsMnt t q m.rip m.rpcs e up h)
]

reading-IsMnt :
    (f : Fcall) (t : ℕ) (o : Option Mntrpc) (rs : List Mntrpc)
    → IsMnt (record { rpcs = rs; rip = some t })
    → IsMnt (reading f o (record { rpcs = rs; rip = some t }))
unfolding reading
reading-IsMnt f t none rs h = h
reading-IsMnt f t (some q) rs h = elim (Bool-cases q.done) [
  | inl over ↦ rw over h
  | inr on ↦
      rw on (record { rpcs = mountmux-AreRpcs f rs h.rpcs; gate = mountmux-awake_at f t rs h.gate })
]

leaving-IsMnt : (t : ℕ) (o : Option Mntrpc) (m : Mnt) → IsMnt m → IsMnt (leaving t o m)
unfolding leaving
leaving-IsMnt t none m h = h
leaving-IsMnt t (some q) m h = elim (Bool-cases q.done) [
  | inl over ↦ rw over (mntgate-IsMnt (remove t m.rpcs) (remove-AreRpcs t m.rpcs h.rpcs))
  | inr on ↦ rw on h
]

answer-IsMnt :
    (f : Fcall) (rs : List Mntrpc) (rip : Option ℕ)
    → IsMnt (record { rpcs = rs; rip = rip })
    → IsMnt (step (answer f) (record { rpcs = rs; rip = rip }))
unfolding step by_reader
answer-IsMnt f rs none h = h
answer-IsMnt f rs (some t) h = reading-IsMnt f t (find_rpc t rs) rs h

fail-IsMnt :
    (rs : List Mntrpc) (rip : Option ℕ)
    → IsMnt (record { rpcs = rs; rip = rip })
    → IsMnt (step fail (record { rpcs = rs; rip = rip }))
unfolding step by_reader
fail-IsMnt rs none h = h
fail-IsMnt rs (some t) h = mntgate-IsMnt (remove t rs) (remove-AreRpcs t rs h.rpcs)

leave-IsMnt :
    (rs : List Mntrpc) (rip : Option ℕ)
    → IsMnt (record { rpcs = rs; rip = rip })
    → IsMnt (step leave (record { rpcs = rs; rip = rip }))
unfolding step by_reader
leave-IsMnt rs none h = h
leave-IsMnt rs (some t) h = leaving-IsMnt t (find_rpc t rs) _ h

step-IsMnt : (e : MntEvent) (m : Mnt) → IsMnt m → IsMnt (step e m)
unfolding step
step-IsMnt (enter t) m h = entered-IsMnt t (find_rpc t m.rpcs) m h
step-IsMnt (look t) m h = looked-IsMnt t (find_rpc t m.rpcs) m refl h
step-IsMnt (answer f) m h = answer-IsMnt f m.rpcs m.rip h
step-IsMnt fail m h = fail-IsMnt m.rpcs m.rip h
step-IsMnt leave m h = leave-IsMnt m.rpcs m.rip h

run-IsMnt : (es : List MntEvent) (m : Mnt) → IsMnt m → IsMnt (run es m)
unfolding run
run-IsMnt [] m h = h
run-IsMnt (e ∷ es) m h = run-IsMnt es (step e m) (step-IsMnt e m h)

-- A connection on which nothing is asked yet.
abbrev pub idle : Mnt
idle = record { rpcs = []; rip = none }

-- Whether there is a reader.
abbrev pub has_reader : Option ℕ → Bool
has_reader none = false
has_reader (some t) = true

no_reader :
    (rs : List Mntrpc) (rip : Option ℕ)
    → Gate rs rip
    → (has_reader rip ≡ true) ⊎ (sleeping rs ≡ false) ⊎ (ready rs ≡ true)
no_reader rs none g = inr g
no_reader rs (some t) g = inl refl

found-IsRpc :
    (t : ℕ) (q : Mntrpc) (rs : List Mntrpc)
    → find_rpc t rs ≡ some q
    → AreRpcs rs
    → IsRpc q × (q.tag ≡ t)
found-IsRpc t q [] e h = let z = none_there t q e in ground (arith, z)
found-IsRpc t q (r ∷ rs) e h = elim (Bool-cases (r.tag == t)) [
  | inl this ↦ let same = found_here t r q rs this e in rw same (h.0, ground (arith, this))
  | inr other ↦ found-IsRpc t q rs (found_later t r q rs other e) h.1
]

answers :
    (t : ℕ) (o : Option Mntrpc) (rs : List Mntrpc)
    → find_rpc t rs ≡ o
    → AreRpcs rs
    → (o ≡ none)
      ⊎ ((q : Mntrpc) × (o ≡ some q)
          × ((q.done ≡ false) ⊎ ((f : Fcall) × (q.reply ≡ some f) × (f.tag ≡ t))))
answers t none rs e h = inl refl
answers t (some q) rs e h =
    let (k, tag) = found-IsRpc t q rs e h in
    inr (
      q,
      refl,
      (elim k.answered [
        | inl waits ↦ inl waits
        | inr (f, reply, same) ↦ inr (f, reply, same ∙ tag)
      ]),
    )

-- Whatever the processes on a connection do, in whatever order: a request with the tag `t` whose
-- process is still there is done only with a reply with this tag; and where any process sleeps,
-- there is a process that reads or one that is awake at the gate with its request not done.
pub run-answers :
    (t : ℕ) (es : List MntEvent)
    → ((find_rpc t (run es idle).rpcs ≡ none)
        ⊎ ((q : Mntrpc) × (find_rpc t (run es idle).rpcs ≡ some q)
            × ((q.done ≡ false) ⊎ ((f : Fcall) × (q.reply ≡ some f) × (f.tag ≡ t)))))
      × ((has_reader (run es idle).rip ≡ true)
          ⊎ (sleeping (run es idle).rpcs ≡ false)
          ⊎ (ready (run es idle).rpcs ≡ true))
run-answers t es =
    let h = run-IsMnt es idle (record { rpcs = tt; gate = inl refl }) in
    let m = run es idle in
    (answers t (find_rpc t m.rpcs) m.rpcs refl h.rpcs, no_reader m.rpcs m.rip h.gate)
