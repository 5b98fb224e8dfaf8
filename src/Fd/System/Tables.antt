-- ===== src/Fd/System/Tables.antt =====
-- The events on one table keep the invariant of all.
use drawterm_android.Base.{
  ℕ, ◌+◌, ◌≡◌, refl, ap, arith, ◌==◌, Bool, false, Bool-cases, ==→eq, inl, inr, Option, none, some,
  set,
}
use drawterm_android.Fd.{Fgrp, entry, newfd, newfd2, dup_to, closefd, unlockfgrp}
use drawterm_android.Fd.Table.{unlockfgrp-IsTable}
use drawterm_android.Fd.Newfd.{newfd_lem}
use drawterm_android.Fd.Dup.{newfd2_lem, dup_to_lem}
use drawterm_android.Fd.Close.{closefd_lem}
use drawterm_android.Fd.Count.{is, uses}
use drawterm_android.Fd.System.{World, group_at, more, less, opened, opened_two, dupped}
use drawterm_android.Fd.System.Sound.{IsBalanced, replaced, group_at-Stands}

pub less_lem : (c : ℕ) (h : ℕ → ℕ) (d : ℕ) → (h c == 0) ≡ false → less c h d + is d (some c) ≡ h d
unfolding less is
less_lem c h d p = elim (Bool-cases (d == c)) [
  | inl e ↦ let a = ap h (==→eq d c e) in ground (arith, a, p, e)
  | inr e ↦ ground (arith, e)
]

pub more_lem : (o : Option ℕ) (h : ℕ → ℕ) (d : ℕ) → more o h d ≡ h d + is d o
unfolding more
more_lem o h d = refl

pub is-none : (d : ℕ) → is d none ≡ 0
unfolding is
is-none d = refl

unlocked : (f : Fgrp) → ((unlockfgrp f).fd ≡ f.fd) × ((unlockfgrp f).ref ≡ f.ref)
unfolding unlockfgrp
unlocked f = (refl, refl)

pub same_table :
    (w : World) (i : ℕ) (f : Fgrp)
    → IsBalanced w
    → group_at w.groups i ≡ some f
    → IsBalanced (record w { groups = set w.groups i (some (unlockfgrp f)) })
same_table w i f b e =
    let (t, r) = group_at-Stands w.groups i f b.tables e in
    let (u, v) = unlocked f in
    replaced w i f (unlockfgrp f) w.held b e (unlockfgrp-IsTable f t) (omega (arith, v, r))
      (λ c. ap (λ x. uses c x + w.held c) u)

pub opening_goes :
    (i : ℕ) (mem : Bool) (c : ℕ) (f : Fgrp) (w : World)
    → IsBalanced w
    → group_at w.groups i ≡ some f
    → (w.held c == 0) ≡ false
    → IsBalanced (opened i c (newfd mem c f) w)
opening_goes i mem c f w b e p =
    let (t, r) = group_at-Stands w.groups i f b.tables e in
    elim (newfd_lem mem c f t) [
      | inl (fd, g, q, o, l) ↦ rw q (
          replaced w i f g (less c w.held) b e o.table (omega (arith, o.same_ref, r))
            (λ d. omega (arith, o.counts d, less_lem c w.held d p)))
      | inr (q, l) ↦ rw q (same_table w i f b e)
    ]

pub piping_goes :
    (i : ℕ) (mem0 mem1 : Bool) (c0 c1 : ℕ) (f : Fgrp) (w : World)
    → IsBalanced w
    → group_at w.groups i ≡ some f
    → (w.held c0 == 0) ≡ false
    → (less c0 w.held c1 == 0) ≡ false
    → IsBalanced (opened_two i c0 c1 (newfd2 mem0 mem1 c0 c1 f) w)
piping_goes i mem0 mem1 c0 c1 f w b e p q =
    let (t, r) = group_at-Stands w.groups i f b.tables e in
    elim (newfd2_lem mem0 mem1 c0 c1 f t) [
      | inl (fd0, fd1, g, s, o) ↦ rw s (
          replaced w i f g (less c1 (less c0 w.held)) b e o.table (omega (arith, o.same_ref, r))
            (λ d.
              omega (arith, o.counts d, less_lem c0 w.held d p, less_lem c1 (less c0 w.held) d q)))
      | inr (g, s, k, m, n, x) ↦
          rw s (replaced w i f g w.held b e k (omega (arith, x, r)) (λ d. omega (arith, n d)))
    ]

pub dupping_goes :
    (i : ℕ) (mem : Bool) (fd c : ℕ) (f : Fgrp) (w : World)
    → IsBalanced w
    → group_at w.groups i ≡ some f
    → (w.held c == 0) ≡ false
    → IsBalanced (dupped i c (dup_to mem fd c f) w)
dupping_goes i mem fd c f w b e p =
    let (t, r) = group_at-Stands w.groups i f b.tables e in
    elim (dup_to_lem mem fd c f t) [
      | inl (g, q, o) ↦ rw q (
          replaced w i f g (more (entry f.fd fd) (less c w.held)) b e o.table
            (omega (arith, o.same_ref, r))
            (λ d. omega (
              arith,
              o.counts d,
              less_lem c w.held d p,
              more_lem (entry f.fd fd) (less c w.held) d,
            )))
      | inr (q, l, m) ↦ rw q (same_table w i f b e)
    ]

pub closing_goes :
    (i fd : ℕ) (f : Fgrp) (w : World)
    → IsBalanced w
    → group_at w.groups i ≡ some f
    → IsBalanced (record w {
      groups = set w.groups i (some ((closefd fd f).1));
      held = more ((closefd fd f).0) w.held;
    })
closing_goes i fd f w b e =
    let (t, r) = group_at-Stands w.groups i f b.tables e in
    let (a, k) = closefd_lem fd f t in
    replaced w i f ((closefd fd f).1) (more ((closefd fd f).0) w.held) b e k.table
      (omega (arith, k.same_ref, r))
      (λ d.
        let m = more_lem ((closefd fd f).0) w.held d in
        let z = ap (is d) a in omega (arith, k.counts d, m, z))
