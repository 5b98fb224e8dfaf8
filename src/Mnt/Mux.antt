-- ===== src/Mnt/Mux.antt =====
-- The processes in `mountio` of kern/devmnt.c, which share one connection to a server: one of them
-- reads the answers, for itself and for the others, while these sleep.
pub mod Lists
pub mod Right
use drawterm_android.Base.{
  ℕ, ◌==◌, if◌then◌else◌, Bool, true, false, ◌&&◌, ◌||◌, Option, none, some, List, [], ◌∷◌,
}
use drawterm_android.Fcall.{Fcall}

-- A request of a process, by its tag: whether it is in `m->queue`, its `done`, whether its process
-- sleeps or comes from sleep, and its reply.
pub record Mntrpc : Type 0 where
  pub tag : ℕ
  pub queued : Bool
  pub done : Bool
  pub asleep : Bool
  pub woken : Bool
  pub reply : Option Fcall

-- The requests, the newest first, and `rip`, the one whose process reads.
pub record Mnt : Type 0 where
  pub rpcs : List Mntrpc
  pub rip : Option ℕ

abbrev pub not : Bool → Bool
not true = false
not false = true

unfoldable pub find_rpc : ℕ → List Mntrpc → Option Mntrpc
find_rpc t [] = none
find_rpc t (r ∷ rs) = let later = find_rpc t rs in if r.tag == t then some r else later

unfoldable pub remove : ℕ → List Mntrpc → List Mntrpc
remove t [] = []
remove t (r ∷ rs) = let later = remove t rs in if r.tag == t then rs else r ∷ later

-- `sleep(r->z, rpcattn, r)`.
unfoldable pub put_to_sleep : ℕ → List Mntrpc → List Mntrpc
put_to_sleep t [] = []
put_to_sleep t (r ∷ rs) =
    let later = put_to_sleep t rs in
    if r.tag == t then record r { asleep = true } ∷ rs else r ∷ later

-- The loop of `mntgate`: the first sleeper that still waits is woken.
unfoldable pub wake_first : List Mntrpc → List Mntrpc
wake_first [] = []
wake_first (r ∷ rs) =
    let later = wake_first rs in
    if r.queued && (not r.done && r.asleep)
    then record r { asleep = false; woken = true } ∷ rs
    else r ∷ later

unfoldable pub mntgate : List Mntrpc → Mnt
mntgate rs = record { rpcs = wake_first rs; rip = none }

-- A reply goes to the request in the queue that has its tag; else it is dropped.
unfoldable pub mountmux : Fcall → List Mntrpc → List Mntrpc
mountmux f [] = []
mountmux f (r ∷ rs) =
    let later = mountmux f rs in
    if r.queued && (r.tag == f.tag)
    then record r {
      queued = false;
      done = true;
      asleep = false;
      woken = r.woken || r.asleep;
      reply = some f;
    }
      ∷ rs
    else r ∷ later

-- What a process does: it queues a request with a tag that no other has; it comes to the gate; the
-- one that reads gets an answer from `mntrpcread`, or -1, or leaves.
pub data MntEvent : Type 0 where
  enter : ℕ → MntEvent
  look : ℕ → MntEvent
  answer : Fcall → MntEvent
  fail : MntEvent
  leave : MntEvent

unfoldable pub entered : ℕ → Option Mntrpc → Mnt → Mnt
entered t none m = record m {
  rpcs =
      record { tag = t; queued = true; done = false; asleep = false; woken = false; reply = none }
      ∷ m.rpcs;
}
entered t (some r) m = m

-- The loop at the gate. A process that comes from sleep first tests `done`; where `done` is set, its
-- next sleep returns at once.
unfoldable pub to_sleep : ℕ → Mntrpc → Mnt → Mnt
to_sleep t r m =
    if r.done
    then record m { rpcs = remove t m.rpcs }
    else record m { rpcs = put_to_sleep t m.rpcs }

unfoldable pub at_gate : ℕ → Mntrpc → Option ℕ → Mnt → Mnt
at_gate t r none m =
    if r.woken && r.done then record m { rpcs = remove t m.rpcs } else record m { rip = some t }
at_gate t r (some u) m = if u == t then m else to_sleep t r m

-- Nothing is done by a process that sleeps or is not there.
unfoldable pub looked : ℕ → Option Mntrpc → Mnt → Mnt
looked t none m = m
looked t (some r) m = if r.asleep then m else at_gate t r m.rip m

-- The loop of the reader, where its request is not done.
unfoldable pub reading : Fcall → Option Mntrpc → Mnt → Mnt
reading f none m = m
reading f (some r) m = if r.done then m else record m { rpcs = mountmux f m.rpcs }

-- Behind the loop: the reader opens the gate and removes its request.
unfoldable pub leaving : ℕ → Option Mntrpc → Mnt → Mnt
leaving t none m = m
leaving t (some r) m = if r.done then mntgate (remove t m.rpcs) else m

-- The reader, where there is one.
unfoldable pub by_reader : (ℕ → Mnt) → Mnt → Option ℕ → Mnt
by_reader f m none = m
by_reader f m (some t) = f t

-- `error(Emountrpc)` in the reader opens the gate, too, and removes the request.
unfoldable pub step : MntEvent → Mnt → Mnt
step (enter t) m = entered t (find_rpc t m.rpcs) m
step (look t) m = looked t (find_rpc t m.rpcs) m
step (answer f) m = by_reader (λ t. reading f (find_rpc t m.rpcs) m) m m.rip
step fail m = by_reader (λ t. mntgate (remove t m.rpcs)) m m.rip
step leave m = by_reader (λ t. leaving t (find_rpc t m.rpcs) m) m m.rip

unfoldable pub run : List MntEvent → Mnt → Mnt
run [] m = m
run (e ∷ es) m = run es (step e m)
