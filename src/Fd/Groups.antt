-- ===== src/Fd/Groups.antt =====
-- dupfgrp and closefgrp of kern/pgrp.c, and the copy of a table.
pub mod Counts
use drawterm_android.Fd.Entries.{entry-more, entry-replicate}
use drawterm_android.Base.{
  ℕ, zero, suc, ◌+◌, ◌-◌, ◌%◌, ◌≤◌, ◌<◌, ◌≡◌, ◌∙◌, sym, ap, refl, arith, ltb, ◌==◌, ◌++◌, Bool,
  true, false, if◌then◌else◌, if_true, if_false, Option, none, some, List, [], ◌∷◌, take, replicate,
  length-append, length-take, length-replicate, ◌⊎◌, Bool-cases, inl, inr,
}
use drawterm_android.Fd.{Fgrp, nfd, entry, deltafd}
use drawterm_android.Fd.Channels.{Store, incref, cclose, decref}
use drawterm_android.Fd.Table.{IsTable}
use drawterm_android.Fd.Count.{is, uses, uses-append, uses-entry, uses-replicate}

abbrev no_chan : Option ℕ
no_chan = none

-- The size rounded up to a multiple of DELTAFD.
unfoldable pub quantized : ℕ → ℕ
quantized n = let i = n % deltafd in if i == 0 then n else n + (deltafd - i)

unfoldable pub copied : Fgrp → Fgrp
copied f =
    let n = suc f.maxfd in
    record {
      ref = 1;
      fd = take n f.fd ++ replicate (quantized n - n) none;
      maxfd = f.maxfd;
      exceed = 0;
    }

-- The increfs of the loop of dupfgrp.
unfoldable pub incref_all : List (Option ℕ) → Store → Store
incref_all [] s = s
incref_all (none ∷ os) s = incref_all os s
incref_all (some c ∷ os) s = incref_all os (incref c s)

abbrev pub fresh : Fgrp
fresh = record { ref = 1; fd = replicate deltafd none; maxfd = 0; exceed = 0 }

-- `none` is the error. The first argument is whether malloc has memory.
unfoldable pub dupfgrp : Bool → Option Fgrp → Store → Option (Fgrp × Store)
dupfgrp mem none s = some (fresh, s)
dupfgrp mem (some f) s =
    if mem then some (copied f, incref_all (take (suc f.maxfd) f.fd) s) else none

-- The loop of closefgrp.
unfoldable pub cclose_all : List (Option ℕ) → Store → Option Store
cclose_all [] s = some s
cclose_all (none ∷ os) s = cclose_all os s
cclose_all (some c ∷ os) s = elim (cclose c s) [ none ↦ none | some t ↦ cclose_all os t ]

unfoldable pub freed : Option Store → Option (Option Fgrp × Store)
freed none = none
freed (some s) = some (none, s)

-- `none` is a panic; otherwise the table, unless it is freed, and the channels.
unfoldable pub closefgrp : Option Fgrp → Store → Option (Option Fgrp × Store)
closefgrp none s = some (none, s)
closefgrp (some f) s =
    if f.ref == 0
    then none
    else if ltb 1 f.ref
    then some (some (record f { ref = f.ref - 1 }), s)
    else freed (cclose_all (take (suc f.maxfd) f.fd) s)

pub entry-take :
    (n : ℕ) (os : List (Option ℕ)) (i : ℕ)
    → ((j : ℕ) → n ≤ j → entry os j ≡ none)
    → entry (take n os) i ≡ entry os i
unfolding entry
entry-take zero os i h = sym (h i (omega arith))
entry-take (suc n) [] i h = refl
entry-take (suc n) (x ∷ os) zero h = refl
entry-take (suc n) (x ∷ os) (suc i) h = entry-take n os i (λ j l. h (suc j) (omega (arith, l)))

pub uses-none : (d : ℕ) (os : List (Option ℕ)) → ((j : ℕ) → entry os j ≡ none) → uses d os ≡ 0
unfolding entry uses is
uses-none d [] h = refl
uses-none d (x ∷ os) h =
    let z : is d x ≡ 0 = rw (h 0) refl in omega (arith, z, uses-none d os (λ j. h (suc j)))

pub uses-take :
    (d n : ℕ) (os : List (Option ℕ))
    → ((j : ℕ) → n ≤ j → entry os j ≡ none)
    → uses d (take n os) ≡ uses d os
unfolding entry uses
uses-take d zero os h = sym (uses-none d os (λ j. h j (omega arith)))
uses-take d (suc n) [] h = refl
uses-take d (suc n) (x ∷ os) h =
    ap (λ t. is d x + t) (uses-take d n os (λ j l. h (suc j) (omega (arith, l))))

-- The table `g` has the same descriptors as `f`.
pub record Copies (f g : Fgrp) : Type 0 where
  pub table : IsTable g
  pub same : (i : ℕ) → entry g.fd i ≡ entry f.fd i
  pub counts : (d : ℕ) → uses d g.fd ≡ uses d f.fd
  pub shorter : nfd g ≤ nfd f
  pub ref_one : g.ref ≡ 1

pub copied-Copies : (f : Fgrp) → IsTable f → Copies f (copied f)
unfolding copied quantized
copied-Copies f h =
    let n = suc f.maxfd in
    let front = take n f.fd in
    let a = length-append front (replicate (quantized n - n) none) in
    let l = length-take n f.fd (omega (arith, h.within)) in
    let r = length-replicate (quantized n - n) no_chan in
    let z = λ (j : ℕ) (b : n ≤ j). h.above j b in
    record {
      table = record {
        within = ground (arith, a, l, r);
        quantum = ground (arith, a, l, r);
        limit = ground (arith, a, l, r, h.within, h.limit, h.quantum);
        above = λ i b. entry-more front (quantized n - n) i ∙ entry-take n f.fd i z ∙ h.above i b;
      };
      same = λ i. entry-more front (quantized n - n) i ∙ entry-take n f.fd i z;
      counts = λ d.
          let p = uses-append d front (replicate (quantized n - n) none) in
          let q = uses-replicate d (quantized n - n) in omega (arith, p, q, uses-take d n f.fd z);
      shorter = ground (arith, a, l, r, h.within, h.quantum);
      ref_one = refl;
    }
