-- ===== src/Fd/System/Events.antt =====
-- The events that go through the counts of channels, or add or take a table, keep the invariant of all.
use drawterm_android.Base.{
  ℕ, suc, ◌-◌, ◌≡◌, refl, arith, ◌==◌, Bool, true, false, inl, inr, ◌++◌, Option, none, some, [],
  ◌∷◌, ℤ, set,
}
use drawterm_android.Fd.{Fgrp}
use drawterm_android.Fd.Table.{IsTable}
use drawterm_android.Fd.Groups.{fresh, dupfgrp, closefgrp}
use drawterm_android.Fd.Groups.Counts.{
  dupfgrp-none, dupfgrp-fresh, fresh-IsTable, dupfgrp_lem, closefgrp_lem, ref-incref, ref-cclose,
}
use drawterm_android.Fd.Channels.{incref, cclose, fdtochan, fdtochan_lem}
use drawterm_android.Fd.Count.{uses-replicate, uses}
use drawterm_android.Fd.System.{less, more, World, group_at, fetched, left, new_group, released}
use drawterm_android.Fd.System.Sound.{
  append-Stands, total-append, total-at, total-set, set-Stands, table_uses-none, IsBalanced,
  replaced, group_at-Stands,
}
use drawterm_android.Fd.System.Tables.{less_lem, more_lem}

-- The result is no panic, and balanced.
abbrev pub Goes : Option World → Type 0
Goes r = (v : World) × (r ≡ some v) × IsBalanced v

pub taking_goes :
    (fd mode : ℤ) (chkmnt : Bool) (f : Fgrp) (w : World)
    → IsBalanced w
    → Goes (fetched (fdtochan fd mode chkmnt true f w.store) w)
taking_goes fd mode chkmnt f w b = elim (fdtochan_lem fd mode chkmnt true f w.store) [
  | inl (e, q) ↦ rw q (w, refl, b)
  | inr (inl (c, e, u, q)) ↦ rw q (
    record w { store = incref c w.store; held = more (some c) w.held },
    refl,
    record {
      tables = b.tables;
      counts = λ d. omega (arith, ref-incref d c w.store, more_lem (some c) w.held d, b.counts d);
    },
  )
  | inr (inr (c, e, u, q)) ↦ rw q (w, refl, b)
]

pub forking_goes :
    (mem : Bool) (f : Fgrp) (w : World)
    → IsBalanced w
    → IsTable f
    → Goes (new_group (dupfgrp mem (some f) w.store) w)
forking_goes false f w b t = rw (dupfgrp-none f w.store) (w, refl, b)
forking_goes true f w b t =
    let (g, s, e, c, r) = dupfgrp_lem f w.store t in
    rw e (
      record w { groups = w.groups ++ some g ∷ []; store = s },
      refl,
      record {
        tables = append-Stands w.groups g b.tables (c.table, omega (arith, c.ref_one));
        counts = λ d. omega (arith, total-append d w.groups g, c.counts d, r d, b.counts d);
      },
    )

pub booting_goes : (w : World) → IsBalanced w → Goes (new_group (dupfgrp true none w.store) w)
unfolding uses
booting_goes w b = rw (dupfgrp-fresh true w.store) (
  record w { groups = w.groups ++ some fresh ∷ [] },
  refl,
  record {
    tables = append-Stands w.groups fresh b.tables (fresh-IsTable, omega arith);
    counts = λ d. omega (arith, total-append d w.groups fresh, uses-replicate d 20, b.counts d);
  },
)

pub releasing_goes :
    (c : ℕ) (w : World)
    → IsBalanced w
    → (w.held c == 0) ≡ false
    → Goes (released (cclose c w.store) c w)
releasing_goes c w b p =
    let (t, e, r) = ref-cclose c w.store (ground (arith, p, b.counts c)) in
    rw e (
      record w { store = t; held = less c w.held },
      refl,
      record {
        tables = b.tables;
        counts = λ d. omega (arith, r d, less_lem c w.held d p, b.counts d);
      },
    )

pub leaving_goes :
    (i : ℕ) (f : Fgrp) (w : World)
    → IsBalanced w
    → group_at w.groups i ≡ some f
    → Goes (left i (closefgrp (some f) w.store) w)
leaving_goes i f w b e =
    let (t, r) = group_at-Stands w.groups i f b.tables e in
    let a = λ (d : ℕ). total-at d w.groups i f e in
    elim (closefgrp_lem f w.store t r (λ d. omega (arith, a d, b.counts d))) [
      | inl (o, (s, q, k)) ↦ rw q (
        record w { groups = set w.groups i none; store = s },
        refl,
        record {
          tables = set-Stands w.groups i none b.tables tt;
          counts = λ d.
              let u = total-set d w.groups i f none e in
              omega (arith, u, k d, b.counts d, table_uses-none d);
        },
      )
      | inr (o, q) ↦
          let g = record f { ref = f.ref - 1 } in
          let h : IsTable g = record {
            within = t.within;
            quantum = t.quantum;
            limit = t.limit;
            above = t.above;
          } in
          rw q (
            record w { groups = set w.groups i (some g) },
            refl,
            replaced w i f g w.held b e h (omega (arith, o)) (λ d. refl),
          )
    ]

pub sharing_goes :
    (i : ℕ) (f : Fgrp) (w : World)
    → IsBalanced w
    → group_at w.groups i ≡ some f
    → IsBalanced (record w { groups = set w.groups i (some (record f { ref = suc f.ref })) })
sharing_goes i f w b e =
    let (t, r) = group_at-Stands w.groups i f b.tables e in
    let g = record f { ref = suc f.ref } in
    let h : IsTable g = record {
      within = t.within;
      quantum = t.quantum;
      limit = t.limit;
      above = t.above;
    } in
    replaced w i f g w.held b e h (omega arith) (λ d. refl)
