-- ===== src/Fd.antt =====
-- File descriptors: struct Fgrp of kern/dat.h and the functions on it in kern/sysfile.c. Each function
-- here is what happens while the lock of the table is held. A channel stands by a number; an entry
-- that is 0 in C is `none`. The warning that unlockfgrp prints is left out.
pub mod Entries
pub mod Table
pub mod Count
pub mod Newfd
pub mod Dup
pub mod Close
pub mod Channels
pub mod Groups
pub mod System
mod Tests
use drawterm_android.Base.{
  ℕ, zero, suc, ◌+◌, ◌*◌, ◌/◌, ltb, leb, ◌==◌, ◌++◌, Bool, true, false, if◌then◌else◌, Option, none,
  some, List, [], ◌∷◌, length, set, drop, replicate,
}

pub record Fgrp : Type 0 where
  pub ref : ℕ
  pub fd : List (Option ℕ)
  pub maxfd : ℕ
  pub exceed : ℕ

abbrev pub deltafd : ℕ
deltafd = 20

-- `f->nfd`
abbrev pub nfd : Fgrp → ℕ
nfd f = length f.fd

-- `f->fd[fd]`
unfoldable pub entry : List (Option ℕ) → ℕ → Option ℕ
entry [] i = none
entry (o ∷ os) zero = o
entry (o ∷ os) (suc i) = entry os i

unfoldable pub unlockfgrp : Fgrp → Fgrp
unlockfgrp f = record f { exceed = 0 }

-- The table with more entries, all of them free, and `exceed` for the warning.
unfoldable pub grown : ℕ → Fgrp → Fgrp
grown fd f = record {
  ref = f.ref;
  fd = f.fd ++ replicate deltafd none;
  maxfd = if ltb f.maxfd fd then fd else f.maxfd;
  exceed =
      if ltb f.maxfd fd
      then if ltb (f.maxfd / 100) (fd / 100) then (fd / 100) * 100 else f.exceed
      else f.exceed;
}

-- `none` is the result -1. The callers treat the results 0 and 1 alike. The first argument is whether
-- malloc has memory.
unfoldable pub growfd : Bool → ℕ → Fgrp → Option Fgrp
growfd mem fd f =
    if ltb fd (nfd f)
    then some f
    else if leb (nfd f + deltafd) fd
    then none
    else if leb 5000 (nfd f)
    then none
    else if mem
    then some (grown fd f)
    else none

-- The place of the first free entry, or the number of entries.
unfoldable pub first_free : List (Option ℕ) → ℕ
first_free [] = 0
first_free (none ∷ os) = 0
first_free (some c ∷ os) = suc (first_free os)

unfoldable pub found_at : ℕ → Option Fgrp → Option (ℕ × Fgrp)
found_at fd none = none
found_at fd (some g) = some (fd, g)

unfoldable pub findfreefd : Bool → ℕ → Fgrp → Option (ℕ × Fgrp)
findfreefd mem start f =
    let fd = start + first_free (drop start f.fd) in found_at fd (growfd mem fd f)

-- `if(fd > f->maxfd) f->maxfd = fd; f->fd[fd] = c;`
unfoldable pub put : ℕ → Option ℕ → Fgrp → Fgrp
put fd c f = record {
  ref = f.ref;
  fd = set f.fd fd c;
  maxfd = if ltb f.maxfd fd then fd else f.maxfd;
  exceed = f.exceed;
}

unfoldable pub newfd_at : ℕ → Option (ℕ × Fgrp) → Fgrp → Option ℕ × Fgrp
newfd_at c none f = (none, unlockfgrp f)
newfd_at c (some (fd, g)) f = (some fd, unlockfgrp (put fd (some c) g))

-- The descriptor, if there is one, and the table.
unfoldable pub newfd : Bool → ℕ → Fgrp → Option ℕ × Fgrp
newfd mem c f = newfd_at c (findfreefd mem 0 f) f

-- The end of newfd2, where `maxfd` follows the second descriptor.
unfoldable pub newfd2_at : ℕ → ℕ → ℕ → Option (ℕ × Fgrp) → Fgrp → Option (ℕ × ℕ) × Fgrp
newfd2_at c0 c1 fd0 none f = (none, unlockfgrp f)
newfd2_at c0 c1 fd0 (some (fd1, g)) f =
    (some (fd0, fd1), unlockfgrp (put fd1 (some c1) (record g { fd = set g.fd fd0 (some c0) })))

unfoldable pub newfd2_from : Bool → ℕ → ℕ → Option (ℕ × Fgrp) → Fgrp → Option (ℕ × ℕ) × Fgrp
newfd2_from mem c0 c1 none f = (none, unlockfgrp f)
newfd2_from mem c0 c1 (some (fd0, g)) f = newfd2_at c0 c1 fd0 (findfreefd mem (suc fd0) g) g

unfoldable pub newfd2 : Bool → Bool → ℕ → ℕ → Fgrp → Option (ℕ × ℕ) × Fgrp
newfd2 mem0 mem1 c0 c1 f = newfd2_from mem1 c0 c1 (findfreefd mem0 0 f) f

unfoldable pub dup_at : ℕ → ℕ → Option Fgrp → Fgrp → Option (Option ℕ) × Fgrp
dup_at fd c none f = (none, unlockfgrp f)
dup_at fd c (some g) f = (some (entry g.fd fd), unlockfgrp (put fd (some c) g))

-- The part of _sysdup between lock and unlockfgrp, for a descriptor that is not negative. `none` is
-- the error Ebadfd; otherwise the channel that was there before.
unfoldable pub dup_to : Bool → ℕ → ℕ → Fgrp → Option (Option ℕ) × Fgrp
dup_to mem fd c f = dup_at fd c (growfd mem fd f) f

-- One turn of the loop of closefd: over a free entry it goes on.
unfoldable pub past : Option ℕ → ℕ → ℕ → ℕ
past none below i = below
past (some c) below i = i

-- The loop of closefd from `i` down: `maxfd` follows `i` over free entries.
unfoldable pub lower : List (Option ℕ) → ℕ → ℕ
lower os zero = 0
lower os (suc i) = past (entry os i) (lower os i) (suc i)

-- The table after the entry was taken out.
unfoldable pub cleared : ℕ → Fgrp → Fgrp
cleared fd f =
    let os = set f.fd fd none in
    record f { fd = os; maxfd = if fd == f.maxfd then lower os fd else f.maxfd }

unfoldable pub close_at : Option ℕ → ℕ → Fgrp → Option ℕ × Fgrp
close_at none fd f = (none, f)
close_at (some c) fd f = (some c, cleared fd f)

-- closefd with its flag 0, up to the unlock: the channel to close. It is only called with that flag.
unfoldable pub closefd : ℕ → Fgrp → Option ℕ × Fgrp
closefd fd f = close_at (entry f.fd fd) fd f
