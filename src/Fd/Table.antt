-- ===== src/Fd/Table.antt =====
-- What a table keeps through the functions of Fd: its size is a multiple of
-- DELTAFD and at most 5000, and no descriptor above `maxfd` is in use.
use drawterm_android.Base.{
  ℕ, ◌+◌, ◌%◌, ◌≤◌, ◌<◌, ◌≡◌, ◌∙◌, ◌⊎◌, inl, inr, refl, sym, arith, ltb, leb, ◌++◌, Bool, true,
  false, if◌then◌else◌, none, some, replicate, length-set, length-append,
}
use mathlib.Core.Option.{some-injective}
use drawterm_android.Fd.{Fgrp, deltafd, nfd, entry, unlockfgrp, grown, growfd, put}
use drawterm_android.Fd.Entries.{entry-set_other, entry-more}

pub record IsTable (f : Fgrp) : Type 0 where
  pub within : f.maxfd < nfd f
  pub quantum : nfd f % 20 ≡ 0
  pub limit : nfd f ≤ 5000
  pub above : (i : ℕ) → f.maxfd < i → entry f.fd i ≡ none

pub unlockfgrp-IsTable : (f : Fgrp) → IsTable f → IsTable (unlockfgrp f)
unfolding unlockfgrp
unlockfgrp-IsTable f h = record {
  within = h.within;
  quantum = h.quantum;
  limit = h.limit;
  above = h.above;
}

pub nfd-grown : (fd : ℕ) (f : Fgrp) → nfd (grown fd f) ≡ nfd f + 20
unfolding grown
nfd-grown fd f = omega (arith, length-append f.fd (replicate deltafd none))

grown-IsTable :
    (fd : ℕ) (f : Fgrp)
    → nfd f ≤ fd
    → fd < nfd f + 20
    → nfd f < 5000
    → IsTable f
    → IsTable (grown fd f)
unfolding grown
grown-IsTable fd f lo hi l h = record {
  within = ground (arith, nfd-grown fd f);
  quantum = ground (arith, nfd-grown fd f, h.quantum);
  limit = ground (arith, nfd-grown fd f, h.quantum);
  above = λ i a. entry-more f.fd 20 i ∙ h.above i (ground (arith, h.within));
}

-- What a successful growfd leaves: a table with the same entries and room for the descriptor.
pub record Grows (f : Fgrp) (fd : ℕ) (g : Fgrp) : Type 0 where
  pub table : IsTable g
  pub room : fd < nfd g
  pub same : (i : ℕ) → entry g.fd i ≡ entry f.fd i
  pub longer : nfd f ≤ nfd g
  pub ref_same : g.ref ≡ f.ref
  pub more : (g.fd ≡ f.fd) ⊎ (g.fd ≡ f.fd ++ replicate 20 none)

-- The two ways in which growfd succeeds.
growth :
    (a b c mem : Bool) (f g grew : Fgrp)
    → (if a
        then some f
        else if b
        then none
        else if c
        then none
        else if mem
        then some grew
        else none)
      ≡ some g
    → ((a ≡ true) × (f ≡ g)) ⊎ ((a ≡ false) × (b ≡ false) × (c ≡ false) × (grew ≡ g))
growth true b c mem f g grew e = inl (refl, some-injective _ _ e)
growth false true c mem f g grew e = ground (arith, e)
growth false false true mem f g grew e = ground (arith, e)
growth false false false true f g grew e = inr (refl, refl, refl, some-injective _ _ e)
growth false false false false f g grew e = ground (arith, e)

fits-Grows : (fd : ℕ) (f : Fgrp) → ltb fd (nfd f) ≡ true → IsTable f → Grows f fd f
fits-Grows fd f a h = record {
  table = h;
  room = ground (arith, a);
  same = λ i. refl;
  longer = ground arith;
  ref_same = refl;
  more = inl refl;
}

grown-Grows :
    (fd : ℕ) (f : Fgrp)
    → ltb fd (nfd f) ≡ false
    → leb (nfd f + deltafd) fd ≡ false
    → leb 5000 (nfd f) ≡ false
    → IsTable f
    → Grows f fd (grown fd f)
unfolding grown
grown-Grows fd f a b c h = record {
  table = grown-IsTable fd f (ground (arith, a)) (ground (arith, b)) (ground (arith, c)) h;
  room = ground (arith, b, nfd-grown fd f);
  same = entry-more f.fd 20;
  longer = ground (arith, nfd-grown fd f);
  ref_same = refl;
  more = inr refl;
}

pub growfd-Grows :
    (mem : Bool) (fd : ℕ) (f g : Fgrp) → growfd mem fd f ≡ some g → IsTable f → Grows f fd g
unfolding growfd
growfd-Grows mem fd f g e h =
    elim (growth (ltb fd (nfd f)) (leb (nfd f + deltafd) fd) (leb 5000 (nfd f)) mem f g (grown fd f)
      e) [
        | inl (a, s) ↦ rw (sym s) (fits-Grows fd f a h)
        | inr (a, b, c, s) ↦ rw (sym s) (grown-Grows fd f a b c h)
      ]

pub put-IsTable : (fd : ℕ) (c : ℕ) (f : Fgrp) → fd < nfd f → IsTable f → IsTable (put fd (some c) f)
unfolding put
put-IsTable fd c f r h =
    let l = length-set f.fd fd (some c) in
    record {
      within = ground (arith, l, h.within);
      quantum = ground (arith, l, h.quantum);
      limit = ground (arith, l, h.limit);
      above = λ i a. entry-set_other f.fd fd i (some c) (ground arith) ∙ h.above i (ground arith);
    }
