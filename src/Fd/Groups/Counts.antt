-- ===== src/Fd/Groups/Counts.antt =====
-- What dupfgrp and closefgrp do to the counts of channels.
use drawterm_android.Fd.Entries.{entry-replicate}
use drawterm_android.Base.{
  ℕ, suc, ◌+◌, ◌-◌, ◌≤◌, ◌<◌, ◌≡◌, ◌∙◌, ap, refl, arith, ltb, ◌==◌, Bool, true, false, if_true,
  if_false, Option, none, some, List, [], ◌∷◌, take, ◌⊎◌, Bool-cases, inl, inr,
}
use drawterm_android.Fd.{Fgrp, entry}
use drawterm_android.Fd.Channels.{Store, incref, cclose, decref}
use drawterm_android.Fd.Table.{IsTable}
use drawterm_android.Fd.Count.{is, uses, uses-entry}
use drawterm_android.Fd.Groups.{
  uses-take, copied-Copies, Copies, copied, incref_all, fresh, dupfgrp, cclose_all, freed,
  closefgrp,
}

pub ref-incref : (d c : ℕ) (s : Store) → (incref c s).ref d ≡ s.ref d + is d (some c)
unfolding incref is
ref-incref d c s = ground arith

pub ref-cclose :
    (c : ℕ) (s : Store)
    → 0 < s.ref c
    → (t : Store) × (cclose c s ≡ some t) × ((d : ℕ) → t.ref d + is d (some c) ≡ s.ref d)
unfolding cclose decref is
ref-cclose c s h = (
  decref c s,
  if_false (ltb (s.ref c) 1) none (some (decref c s)) (ground (arith, h)),
  λ d. ground (arith, h),
)

entry_head : (c : ℕ) (os : List (Option ℕ)) → entry (some c ∷ os) 0 ≡ some c
unfolding entry
entry_head c os = refl

is-none : (d : ℕ) → is d none ≡ 0
unfolding is
is-none d = refl

pub ref-incref_all :
    (d : ℕ) (os : List (Option ℕ)) (s : Store) → (incref_all os s).ref d ≡ s.ref d + uses d os
unfolding incref_all uses
ref-incref_all d [] s = omega arith
ref-incref_all d (none ∷ os) s = omega (arith, is-none d, ref-incref_all d os s)
ref-incref_all d (some c ∷ os) s = omega (arith, ref-incref d c s, ref-incref_all d os (incref c s))

step_some :
    (c : ℕ) (os : List (Option ℕ)) (s u : Store)
    → cclose c s ≡ some u
    → cclose_all (some c ∷ os) s ≡ cclose_all os u
unfolding cclose_all
step_some c os s u a = rw (cclose_all, a) refl

pub ref-cclose_all :
    (os : List (Option ℕ)) (s : Store)
    → ((d : ℕ) → uses d os ≤ s.ref d)
    → (t : Store) × (cclose_all os s ≡ some t) × ((d : ℕ) → t.ref d + uses d os ≡ s.ref d)
unfolding cclose_all uses
ref-cclose_all [] s h = (s, refl, λ d. omega arith)
ref-cclose_all (none ∷ os) s h =
    let (t, e, r) = ref-cclose_all os s (λ d. omega (arith, h d)) in
    (t, e, λ d. omega (arith, is-none d, r d))
ref-cclose_all (some c ∷ os) s h =
    let k = uses-entry c (some c ∷ os) 0 (entry_head c os) in
    let (u, a, b) = ref-cclose c s (omega (arith, h c, k)) in
    let (t, e, r) = ref-cclose_all os u (λ d. omega (arith, h d, b d)) in
    (t, step_some c os s u a ∙ e, λ d. omega (arith, b d, r d))

-- dupfgrp gives a table with the same descriptors that is no longer than the old one and keeps the
-- invariant, and counts one more reference of a channel for each descriptor that holds it.
pub dupfgrp_lem :
    (f : Fgrp) (s : Store)
    → IsTable f
    → (g : Fgrp) × (t : Store) × (dupfgrp true (some f) s ≡ some (g, t))
      × Copies f g
      × ((d : ℕ) → t.ref d ≡ s.ref d + uses d f.fd)
unfolding dupfgrp
dupfgrp_lem f s h =
    let n = suc f.maxfd in
    let z = λ (j : ℕ) (b : n ≤ j). h.above j b in
    let os = take n f.fd in
    (
      copied f,
      incref_all os s,
      refl,
      copied-Copies f h,
      λ d. ref-incref_all d os s ∙ ap (λ t. s.ref d + t) (uses-take d n f.fd z),
    )

pub dupfgrp-none : (f : Fgrp) (s : Store) → dupfgrp false (some f) s ≡ none
unfolding dupfgrp
dupfgrp-none f s = refl

pub dupfgrp-fresh : (mem : Bool) (s : Store) → dupfgrp mem none s ≡ some (fresh, s)
unfolding dupfgrp
dupfgrp-fresh mem s = refl

pub fresh-IsTable : IsTable fresh
fresh-IsTable = record {
  within = omega arith;
  quantum = refl;
  limit = omega arith;
  above = λ i a. entry-replicate 20 i;
}

-- closefgrp on a table that one process holds closes the channel of each descriptor once and does not
-- panic; on one that more processes hold it counts one process less.
pub closefgrp_lem :
    (f : Fgrp) (s : Store)
    → IsTable f
    → 0 < f.ref
    → ((d : ℕ) → uses d f.fd ≤ s.ref d)
    → ((f.ref ≡ 1)
        × ((t : Store) × (closefgrp (some f) s ≡ some (none, t))
            × ((d : ℕ) → t.ref d + uses d f.fd ≡ s.ref d)))
      ⊎ ((1 < f.ref) × (closefgrp (some f) s ≡ some (some (record f { ref = f.ref - 1 }), s)))
unfolding closefgrp freed
closefgrp_lem f s h p l =
    let n = suc f.maxfd in
    let z = λ (j : ℕ) (b : n ≤ j). h.above j b in
    let os = take n f.fd in
    let k = λ (d : ℕ). uses-take d n f.fd z in
    let n0 : (f.ref == 0) ≡ false = ground (arith, p) in
    elim (Bool-cases (ltb 1 f.ref)) [
      | inl e ↦
          inr (ground (arith, e), if_false (f.ref == 0) none _ n0 ∙ if_true (ltb 1 f.ref) _ _ e)
      | inr e ↦
          let (t, a, r) = ref-cclose_all os s (λ d. omega (arith, l d, k d)) in
          inl (
            ground (arith, e, p),
            (
              t,
              if_false (f.ref == 0) none _ n0 ∙ if_false (ltb 1 f.ref) _ _ e ∙ ap freed a,
              λ d. omega (arith, r d, k d),
            ),
          )
    ]
