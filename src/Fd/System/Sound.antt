-- ===== src/Fd/System/Sound.antt =====
-- The invariant of all tables together: each keeps its own invariant, and the count of a channel is
-- the number of descriptors that hold it and of the references in use.
use drawterm_android.Base.{
  ℕ, zero, suc, ◌+◌, ◌≤◌, ◌<◌, ◌≡◌, ◌∙◌, refl, ap, arith, ◌++◌, Option, none, some, List, [], ◌∷◌,
  set, All,
}
use drawterm_android.Fd.{Fgrp}
use drawterm_android.Fd.Table.{IsTable}
use drawterm_android.Fd.Count.{uses}
use drawterm_android.Fd.System.{World, group_at}

pub table_uses : ℕ → Option Fgrp → ℕ
table_uses c none = 0
table_uses c (some f) = uses c f.fd

-- The descriptors of all tables that hold the channel.
unfoldable pub total : ℕ → List (Option Fgrp) → ℕ
total c [] = 0
total c (o ∷ os) = table_uses c o + total c os

abbrev pub Stands : Option Fgrp → Type 0
Stands none = Unit {0}
Stands (some f) = IsTable f × (0 < f.ref)

pub record IsBalanced (w : World) : Type 0 where
  pub tables : All Stands w.groups
  pub counts : (c : ℕ) → w.store.ref c ≡ total c w.groups + w.held c

pub table_uses-none : (c : ℕ) → table_uses c none ≡ 0
unfolding table_uses
table_uses-none c = refl

pub table_uses-some : (c : ℕ) (f : Fgrp) → table_uses c (some f) ≡ uses c f.fd
unfolding table_uses
table_uses-some c f = refl

pub total-set :
    (c : ℕ) (os : List (Option Fgrp)) (i : ℕ) (f : Fgrp) (o : Option Fgrp)
    → group_at os i ≡ some f
    → total c (set os i o) + uses c f.fd ≡ total c os + table_uses c o
unfolding total group_at
total-set c [] i f o e = ground (arith, e)
total-set c (x ∷ os) zero f o e =
    let u = ap (table_uses c) e ∙ table_uses-some c f in omega (arith, u)
total-set c (x ∷ os) (suc i) f o e = omega (arith, total-set c os i f o e)

pub total-append :
    (c : ℕ) (os : List (Option Fgrp)) (f : Fgrp)
    → total c (os ++ some f ∷ []) ≡ total c os + uses c f.fd
unfolding total
total-append c [] f = omega (arith, table_uses-some c f)
total-append c (x ∷ os) f = omega (arith, total-append c os f)

pub total-at :
    (c : ℕ) (os : List (Option Fgrp)) (i : ℕ) (f : Fgrp)
    → group_at os i ≡ some f
    → uses c f.fd ≤ total c os
unfolding total group_at
total-at c [] i f e = ground (arith, e)
total-at c (x ∷ os) zero f e = let u = ap (table_uses c) e ∙ table_uses-some c f in omega (arith, u)
total-at c (x ∷ os) (suc i) f e = omega (arith, total-at c os i f e)

pub group_at-Stands :
    (os : List (Option Fgrp)) (i : ℕ) (f : Fgrp)
    → All Stands os
    → group_at os i ≡ some f
    → Stands (some f)
unfolding group_at
group_at-Stands [] i f h e = ground (arith, e)
group_at-Stands (x ∷ os) zero f (a, h) e = rw e at a
group_at-Stands (x ∷ os) (suc i) f (a, h) e = group_at-Stands os i f h e

pub set-Stands :
    (os : List (Option Fgrp)) (i : ℕ) (o : Option Fgrp)
    → All Stands os
    → Stands o
    → All Stands (set os i o)
set-Stands [] i o h s = h
set-Stands (x ∷ os) zero o (a, h) s = (s, h)
set-Stands (x ∷ os) (suc i) o (a, h) s = (a, set-Stands os i o h s)

pub append-Stands :
    (os : List (Option Fgrp)) (f : Fgrp)
    → All Stands os
    → Stands (some f)
    → All Stands (os ++ some f ∷ [])
append-Stands [] f h s = (s, tt)
append-Stands (x ∷ os) f (a, h) s = (a, append-Stands os f h s)

-- A table gives place to another, and what it no longer holds is in use, or the reverse.
pub replaced :
    (w : World) (i : ℕ) (f g : Fgrp) (held : ℕ → ℕ)
    → IsBalanced w
    → group_at w.groups i ≡ some f
    → IsTable g
    → 0 < g.ref
    → ((c : ℕ) → uses c g.fd + held c ≡ uses c f.fd + w.held c)
    → IsBalanced (record w { groups = set w.groups i (some g); held = held })
replaced w i f g held b e t r k = record {
  tables = set-Stands w.groups i (some g) b.tables (t, r);
  counts = λ c.
      let s = total-set c w.groups i f (some g) e in
      let m = total-at c w.groups i f e in
      omega (arith, b.counts c, k c, s, m, table_uses-some c g);
}
