-- ===== src/Fd/System.antt =====
-- The tables of all processes together with the channels: sequences of the functions on tables, each
-- of which holds a lock throughout. `held` counts the references that functions between two such
-- steps have in their variables.
pub mod Sound
pub mod Tables
pub mod Events
pub mod Safe
use drawterm_android.Base.{
  ℕ, zero, suc, ◌+◌, ◌-◌, ◌++◌, ltb, ◌==◌, Bool, true, false, if◌then◌else◌, Option, none, some,
  List, [], ◌∷◌, ℤ, set,
}
use drawterm_android.Fd.{Fgrp, newfd, newfd2, dup_to, closefd}
use drawterm_android.Fd.Channels.{Store, Fetch, got, incref, cclose, fdtochan}
use drawterm_android.Fd.Count.{is}
use drawterm_android.Fd.Groups.{dupfgrp, closefgrp}

pub record World : Type 0 where
  pub groups : List (Option Fgrp)
  pub store : Store
  pub held : ℕ → ℕ

unfoldable pub group_at : List (Option Fgrp) → ℕ → Option Fgrp
group_at [] i = none
group_at (o ∷ os) zero = o
group_at (o ∷ os) (suc i) = group_at os i

-- The first number of an event on a table is that of the table.
pub data FdEvent : Type 0 where
  boot : FdEvent
  arrive : ℕ → FdEvent
  take_chan : ℕ → ℤ → ℤ → Bool → FdEvent
  opening : ℕ → Bool → ℕ → FdEvent
  pipe : ℕ → Bool → Bool → ℕ → ℕ → FdEvent
  dupping : ℕ → Bool → ℕ → ℕ → FdEvent
  closing : ℕ → ℕ → FdEvent
  release : ℕ → FdEvent
  fork : ℕ → Bool → FdEvent
  share : ℕ → FdEvent
  leave : ℕ → FdEvent

unfoldable pub more : Option ℕ → (ℕ → ℕ) → ℕ → ℕ
more o h d = h d + is d o

unfoldable pub less : ℕ → (ℕ → ℕ) → ℕ → ℕ
less c h d = h d - is d (some c)

abbrev pub new_group : Option (Fgrp × Store) → World → Option World
new_group none w = some w
new_group (some (g, t)) w = some (record w { groups = w.groups ++ some g ∷ []; store = t })

abbrev pub fetched : Option (Fetch × Store) → World → Option World
fetched none w = none
fetched (some (Fetch.bad_fd, t)) w = some (record w { store = t })
fetched (some (Fetch.bad_use, t)) w = some (record w { store = t })
fetched (some (Fetch.got c, t)) w = some (record w { store = t; held = more (some c) w.held })

abbrev pub opened : ℕ → ℕ → Option ℕ × Fgrp → World → World
opened i c (none, g) w = record w { groups = set w.groups i (some g) }
opened i c (some fd, g) w = record w { groups = set w.groups i (some g); held = less c w.held }

abbrev pub opened_two : ℕ → ℕ → ℕ → Option (ℕ × ℕ) × Fgrp → World → World
opened_two i c0 c1 (none, g) w = record w { groups = set w.groups i (some g) }
opened_two i c0 c1 (some fds, g) w = record w {
  groups = set w.groups i (some g);
  held = less c1 (less c0 w.held);
}

abbrev pub dupped : ℕ → ℕ → Option (Option ℕ) × Fgrp → World → World
dupped i c (none, g) w = record w { groups = set w.groups i (some g) }
dupped i c (some o, g) w = record w {
  groups = set w.groups i (some g);
  held = more o (less c w.held);
}

abbrev pub left : ℕ → Option (Option Fgrp × Store) → World → Option World
left i none w = none
left i (some (o, t)) w = some (record w { groups = set w.groups i o; store = t })

abbrev pub released : Option Store → ℕ → World → Option World
released none c w = none
released (some t) c w = some (record w { store = t; held = less c w.held })

-- An event on a table that is there.
unfoldable pub on : FdEvent → Fgrp → World → Option World
on (take_chan i fd mode chkmnt) f w = fetched (fdtochan fd mode chkmnt true f w.store) w
on (opening i mem c) f w = if w.held c == 0 then some w else some (opened i c (newfd mem c f) w)
on (pipe i mem0 mem1 c0 c1) f w =
    if w.held c0 == 0
    then some w
    else if less c0 w.held c1 == 0
    then some w
    else some (opened_two i c0 c1 (newfd2 mem0 mem1 c0 c1 f) w)
on (dupping i mem fd c) f w =
    if w.held c == 0 then some w else some (dupped i c (dup_to mem fd c f) w)
on (closing i fd) f w =
    let r = closefd fd f in
    some (record w { groups = set w.groups i (some (r.1)); held = more (r.0) w.held })
on (fork i mem) f w = new_group (dupfgrp mem (some f) w.store) w
on (share i) f w = some (record w { groups = set w.groups i (some (record f { ref = suc f.ref })) })
on (leave i) f w = left i (closefgrp (some f) w.store) w
on e f w = some w

unfoldable pub on_group : FdEvent → Option Fgrp → World → Option World
on_group e none w = some w
on_group e (some f) w = on e f w

-- `none` is a panic. An event whose table is not there, or whose channel nobody holds, does nothing.
unfoldable pub step : FdEvent → World → Option World
step boot w = new_group (dupfgrp true none w.store) w
step (arrive c) w = some (record w { store = incref c w.store; held = more (some c) w.held })
step (release c) w = if w.held c == 0 then some w else released (cclose c w.store) c w
step (take_chan i fd mode chkmnt) w = on_group (take_chan i fd mode chkmnt) (group_at w.groups i) w
step (opening i mem c) w = on_group (opening i mem c) (group_at w.groups i) w
step (pipe i mem0 mem1 c0 c1) w = on_group (pipe i mem0 mem1 c0 c1) (group_at w.groups i) w
step (dupping i mem fd c) w = on_group (dupping i mem fd c) (group_at w.groups i) w
step (closing i fd) w = on_group (closing i fd) (group_at w.groups i) w
step (fork i mem) w = on_group (fork i mem) (group_at w.groups i) w
step (share i) w = on_group (share i) (group_at w.groups i) w
step (leave i) w = on_group (leave i) (group_at w.groups i) w

unfoldable pub run : List FdEvent → World → Option World
run [] w = some w
run (e ∷ es) w = elim (step e w) [ none ↦ none | some v ↦ run es v ]
