-- ===== src/Fd/System/Safe.antt =====
-- No sequence of events panics, and each keeps the invariant.
use drawterm_android.Base.{
  ℕ, ◌+◌, ◌≡◌, refl, arith, ◌==◌, Bool, true, false, if◌then◌else◌, Option, none, some, List, [],
  ◌∷◌, All,
}
use drawterm_android.Fd.{Fgrp}
use drawterm_android.Fd.Groups.Counts.{ref-incref}
use drawterm_android.Fd.System.{
  on, on_group, step, run, less, boot, arrive, release, take_chan, opening, pipe, dupping, closing,
  fork, share, leave, World, FdEvent, group_at,
}
use drawterm_android.Fd.System.Sound.{IsBalanced, total, group_at-Stands, Stands}
use drawterm_android.Fd.System.Tables.{
  more_lem, opening_goes, piping_goes, dupping_goes, closing_goes,
}
use drawterm_android.Fd.System.Events.{
  Goes, taking_goes, forking_goes, booting_goes, releasing_goes, leaving_goes, sharing_goes,
}

-- A test for a reference that nobody holds leaves everything as it is.
if_held :
    (b : Bool) (w : World) (r : Option World)
    → IsBalanced w
    → (b ≡ false → Goes r)
    → Goes (if b then some w else r)
if_held true w r b k = (w, refl, b)
if_held false w r b k = k refl

at_group :
    (v : FdEvent) (o : Option Fgrp) (w : World)
    → IsBalanced w
    → ((f : Fgrp) → o ≡ some f → Goes (on v f w))
    → Goes (on_group v o w)
unfolding on_group
at_group v none w b k = (w, refl, b)
at_group v (some f) w b k = k f refl

step_goes : (v : FdEvent) (w : World) → IsBalanced w → Goes (step v w)
unfolding step on
step_goes boot w b = booting_goes w b
step_goes (arrive c) w b = (
  _,
  refl,
  record {
    tables = b.tables;
    counts = λ d. omega (arith, ref-incref d c w.store, more_lem (some c) w.held d, b.counts d);
  },
)
step_goes (release c) w b = if_held (w.held c == 0) w _ b (λ p. releasing_goes c w b p)
step_goes (take_chan i fd mode chkmnt) w b =
    at_group _ (group_at w.groups i) w b (λ f e. taking_goes fd mode chkmnt f w b)
step_goes (opening i mem c) w b =
    at_group _ (group_at w.groups i) w b
      (λ f e. if_held (w.held c == 0) w _ b (λ p. (_, refl, opening_goes i mem c f w b e p)))
step_goes (pipe i mem0 mem1 c0 c1) w b = at_group _ (group_at w.groups i) w b (λ f e.
    if_held (w.held c0 == 0) w _ b (λ p.
      if_held (less c0 w.held c1 == 0) w _ b
        (λ q. (_, refl, piping_goes i mem0 mem1 c0 c1 f w b e p q))))
step_goes (dupping i mem fd c) w b =
    at_group _ (group_at w.groups i) w b
      (λ f e. if_held (w.held c == 0) w _ b (λ p. (_, refl, dupping_goes i mem fd c f w b e p)))
step_goes (closing i fd) w b =
    at_group _ (group_at w.groups i) w b (λ f e. (_, refl, closing_goes i fd f w b e))
step_goes (fork i mem) w b =
    at_group _ (group_at w.groups i) w b
      (λ f e. let (t, r) = group_at-Stands w.groups i f b.tables e in forking_goes mem f w b t)
step_goes (share i) w b =
    at_group _ (group_at w.groups i) w b (λ f e. (_, refl, sharing_goes i f w b e))
step_goes (leave i) w b = at_group _ (group_at w.groups i) w b (λ f e. leaving_goes i f w b e)

after :
    (r : Option World) (es : List FdEvent)
    → Goes r
    → ((v : World) → IsBalanced v → Goes (run es v))
    → Goes (elim r [ none ↦ none | some v ↦ run es v ])
after r es (v, e, b) k = rw e (k v b)

run_goes : (es : List FdEvent) (w : World) → IsBalanced w → Goes (run es w)
unfolding run
run_goes [] w b = (w, refl, b)
run_goes (v ∷ es) w b = after (step v w) es (step_goes v w b) (λ u c. run_goes es u c)

-- Before the first event: no table, and no channel that counts a reference.
abbrev pub nobody : World
nobody = record {
  groups = [];
  store = record { ref = λ _. 0; flag = λ _. 0; mode = λ _. 0 };
  held = λ _. 0;
}

-- In every sequence of events no call panics; afterwards each table has a multiple of DELTAFD and at
-- most 5000 entries, of which those above `maxfd` are free, and the reference count of each channel
-- is the number of descriptors of all tables that hold it and of the references in use elsewhere.
pub run_lem :
    (es : List FdEvent)
    → (w : World) × (run es nobody ≡ some w)
      × All Stands w.groups
      × ((c : ℕ) → w.store.ref c ≡ total c w.groups + w.held c)
unfolding total
run_lem es =
    let (w, e, b) = run_goes es nobody (record { tables = tt; counts = λ c. refl }) in
    (w, e, b.tables, b.counts)
