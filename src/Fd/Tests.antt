-- ===== src/Fd/Tests.antt =====
-- The theorems on file descriptors at concrete inputs.
use drawterm_android.Base.{
  ℕ, ◌+◌, ◌≡◌, All, leb, ◌||◌, ◌⊎◌, true, false, none, some, List, [], ◌∷◌, pos,
}
use drawterm_android.Fd.{Fgrp, entry, unlockfgrp, newfd}
use drawterm_android.Fd.Newfd.{used, Opens, Full, newfd_lem}
use drawterm_android.Fd.Channels.{
  Store, bad_fd, bad_use, got, entry_at, usable, taken, fdtochan, fdtochan_lem,
}
use drawterm_android.Fd.Groups.{fresh, dupfgrp, Copies}
use drawterm_android.Fd.Groups.Counts.{fresh-IsTable, dupfgrp_lem}
use drawterm_android.Fd.Count.{uses}
use drawterm_android.Fd.System.{
  World, FdEvent, run, boot, arrive, opening, dupping, fork, closing, leave, release,
}
use drawterm_android.Fd.System.Sound.{total, Stands}
use drawterm_android.Fd.System.Safe.{nobody, run_lem}

abbrev some_calls : List FdEvent
some_calls =
    boot
    ∷ arrive 7
    ∷ opening 0 true 7
    ∷ arrive 8
    ∷ dupping 0 true 0 8
    ∷ release 7
    ∷ fork 0 true
    ∷ closing 0 0
    ∷ release 8
    ∷ leave 1
    ∷ []

run_lem_example :
    (w : World) × (run some_calls nobody ≡ some w)
    × All Stands w.groups
    × ((c : ℕ) → w.store.ref c ≡ total c w.groups + w.held c)
run_lem_example = run_lem some_calls

newfd_lem_example :
    ((fd : ℕ) × (g : Fgrp) × (newfd true 5 fresh ≡ (some fd, g))
      × Opens fd 5 fresh g
      × ((i : ℕ) → (leb fd i || used (entry fresh.fd i)) ≡ true))
    ⊎ ((newfd true 5 fresh ≡ (none, unlockfgrp fresh)) × Full true 0 fresh)
newfd_lem_example = newfd_lem true 5 fresh fresh-IsTable

abbrev one_open : Fgrp
one_open = record fresh { fd = some 5 ∷ fresh.fd }

abbrev for_reading : Store
for_reading = record { ref = λ _. 1; flag = λ _. 0; mode = λ _. 0 }

fdtochan_lem_example :
    ((entry_at (pos 0) one_open ≡ none)
      × (fdtochan (pos 0) (pos 1) true true one_open for_reading ≡ some (bad_fd, for_reading)))
    ⊎ ((c : ℕ) × (entry_at (pos 0) one_open ≡ some c)
        × (usable (pos 1) true c for_reading ≡ true)
        × (fdtochan (pos 0) (pos 1) true true one_open for_reading
            ≡ some (got c, taken true c for_reading)))
    ⊎ ((c : ℕ) × (entry_at (pos 0) one_open ≡ some c)
        × (usable (pos 1) true c for_reading ≡ false)
        × (fdtochan (pos 0) (pos 1) true true one_open for_reading ≡ some (bad_use, for_reading)))
fdtochan_lem_example = fdtochan_lem (pos 0) (pos 1) true true one_open for_reading

dupfgrp_lem_example :
    (g : Fgrp) × (t : Store) × (dupfgrp true (some fresh) for_reading ≡ some (g, t))
    × Copies fresh g
    × ((d : ℕ) → t.ref d ≡ for_reading.ref d + uses d fresh.fd)
dupfgrp_lem_example = dupfgrp_lem fresh for_reading fresh-IsTable
