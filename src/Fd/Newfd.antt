-- ===== src/Fd/Newfd.antt =====
-- newfd, newfd2 and the table part of _sysdup.
use mathlib.Core.Option.{some-injective}
use drawterm_android.Base.{
  ℕ, zero, suc, ◌+◌, ◌≤◌, ◌<◌, ◌≡◌, ◌∙◌, refl, sym, ap, arith, Option, none, some, List, [], ◌∷◌,
  length, drop, Bool, inl, set, ◌==◌, false, inr, replicate, if◌then◌else◌, length-drop, ◌⊎◌,
  Option-cases, ltb, true, leb, ◌||◌, Bool-cases,
}
use drawterm_android.Fd.{
  Fgrp, nfd, entry, first_free, found_at, findfreefd, growfd, put, newfd_at, newfd, unlockfgrp,
  deltafd, grown,
}
use drawterm_android.Fd.Entries.{set_entries}
use drawterm_android.Fd.Table.{IsTable, Grows, growfd-Grows, put-IsTable, unlockfgrp-IsTable}
use drawterm_android.Fd.Count.{is, uses, uses-set, uses-append, uses-replicate}

entry-drop : (n : ℕ) (os : List (Option ℕ)) (i : ℕ) → entry (drop n os) i ≡ entry os (n + i)
unfolding entry
entry-drop zero os i = let e : i ≡ 0 + i = omega arith in ap (entry os) e
entry-drop (suc n) [] i = refl
entry-drop (suc n) (x ∷ os) i =
    let e : suc (n + i) ≡ suc n + i = omega arith in entry-drop n os i ∙ ap (entry (x ∷ os)) e

first_free-none : (os : List (Option ℕ)) → entry os (first_free os) ≡ none
unfolding entry first_free
first_free-none [] = refl
first_free-none (none ∷ os) = refl
first_free-none (some c ∷ os) = first_free-none os

first_free-used :
    (os : List (Option ℕ)) (i : ℕ) → i < first_free os → (c : ℕ) × (entry os i ≡ some c)
unfolding entry first_free
first_free-used [] i h = elim h [ ]
first_free-used (none ∷ os) i h = elim h [ ]
first_free-used (some c ∷ os) zero h = (c, refl)
first_free-used (some c ∷ os) (suc i) h = first_free-used os i (omega arith)

-- What findfreefd finds.
pub record Finds (start : ℕ) (f : Fgrp) (fd : ℕ) (g : Fgrp) : Type 0 where
  pub grows : Grows f fd g
  pub free : entry g.fd fd ≡ none
  pub from : start ≤ fd
  pub lowest : (i : ℕ) → start + i < fd → (c : ℕ) × (entry f.fd (start + i) ≡ some c)

found :
    (fd : ℕ) (r : Option Fgrp) (fd' : ℕ) (g : Fgrp)
    → found_at fd r ≡ some (fd', g)
    → (fd ≡ fd') × (r ≡ some g)
unfolding found_at
found fd none fd' g e = ground (arith, e)
found fd (some h) fd' g e =
    let p = some-injective _ _ e in (ap (λ t. t.0) p, ap some (ap (λ t. t.1) p))

pub findfreefd-Finds :
    (mem : Bool) (start : ℕ) (f : Fgrp) (fd : ℕ) (g : Fgrp)
    → findfreefd mem start f ≡ some (fd, g)
    → IsTable f
    → Finds start f fd g
unfolding findfreefd
findfreefd-Finds mem start f fd g e h =
    let at = start + first_free (drop start f.fd) in
    let (s, r) = found at (growfd mem at f) fd g e in
    let w = growfd-Grows mem at f g r h in
    rw (sym s) (record {
      grows = w;
      free = w.same at ∙ sym (entry-drop start f.fd _) ∙ first_free-none (drop start f.fd);
      from = omega arith;
      lowest = λ i a.
          let (c, u) = first_free-used (drop start f.fd) i (omega (arith, a)) in
          (c, sym (entry-drop start f.fd i) ∙ u);
    })

-- The table `g` is `f` with the channel at one descriptor, which was free.
pub record Opens (fd : ℕ) (c : ℕ) (f : Fgrp) (g : Fgrp) : Type 0 where
  pub table : IsTable g
  pub free : entry f.fd fd ≡ none
  pub entries : (i : ℕ) → entry g.fd i ≡ (if fd == i then some c else entry f.fd i)
  pub counts : (d : ℕ) → uses d g.fd ≡ uses d f.fd + is d (some c)
  pub same_ref : g.ref ≡ f.ref

pub uses-Grows : (d : ℕ) (f : Fgrp) (fd : ℕ) (g : Fgrp) → Grows f fd g → uses d g.fd ≡ uses d f.fd
uses-Grows d f fd g h = elim h.more [
  | inl e ↦ ap (uses d) e
  | inr e ↦
      let a = uses-append d f.fd (replicate 20 none) in
      let r = uses-replicate d 20 in ap (uses d) e ∙ omega (arith, a, r)
]

pub put-counts :
    (d fd c : ℕ) (os : List (Option ℕ))
    → fd < length os
    → entry os fd ≡ none
    → uses d (set os fd (some c)) ≡ uses d os + is d (some c)
unfolding is
put-counts d fd c os r e =
    let u = uses-set d os fd (some c) r in
    let z : is d (entry os fd) ≡ 0 = rw (e, is) refl in omega (arith, u, z)

put-Opens :
    (start fd c : ℕ) (f g : Fgrp)
    → Finds start f fd g
    → Opens fd c f (unlockfgrp (put fd (some c) g))
unfolding put unlockfgrp
put-Opens start fd c f g w = record {
  table = unlockfgrp-IsTable (put fd (some c) g) (put-IsTable fd c g w.grows.room w.grows.table);
  free = sym (w.grows.same fd) ∙ w.free;
  entries = λ i.
      set_entries g.fd fd (some c) i w.grows.room
      ∙ ap (λ t. if fd == i then some c else t) (w.grows.same i);
  counts = λ d.
      put-counts d fd c g.fd w.grows.room w.free
      ∙ ap (λ t. t + is d (some c)) (uses-Grows d f fd g w.grows);
  same_ref = w.grows.ref_same;
}

first_free_le : (os : List (Option ℕ)) → first_free os ≤ length os
unfolding first_free
first_free_le [] = omega arith
first_free_le (none ∷ os) = omega arith
first_free_le (some c ∷ os) = omega (arith, first_free_le os)

unfoldable pub used : Option ℕ → Bool
used none = false
used (some c) = true

-- A fact about the entries below a bound, as a test.
unless_used :
    (n i : ℕ) (o : Option ℕ) → (i < n → (c : ℕ) × (o ≡ some c)) → (leb n i || used o) ≡ true
unfolding used
unless_used n i none h = elim (Bool-cases (leb n i)) [
  | inl e ↦ ground (arith, e)
  | inr e ↦ let (c, u) = h (ground (arith, e)) in ground (arith, u)
]
unless_used n i (some c) h = ground arith

-- Why findfreefd fails: no entry from its start on is free, and the table cannot grow.
pub record Full (mem : Bool) (start : ℕ) (f : Fgrp) : Type 0 where
  pub in_use : (i : ℕ) → (leb (nfd f) (start + i) || used (entry f.fd (start + i))) ≡ true
  pub stuck : (5000 ≤ nfd f) ⊎ (mem ≡ false)

refused :
    (a b c mem : Bool) (f grew : Fgrp)
    → (if a
        then some f
        else if b
        then none
        else if c
        then none
        else if mem
        then some grew
        else none)
      ≡ none
    → (a ≡ false) × ((b ≡ true) ⊎ (c ≡ true) ⊎ (mem ≡ false))
refused true b c mem f grew e = ground (arith, e)
refused false true c mem f grew e = (refl, inl refl)
refused false false true mem f grew e = (refl, inr (inl refl))
refused false false false true f grew e = ground (arith, e)
refused false false false false f grew e = (refl, inr (inr refl))

pub growfd-none :
    (mem : Bool) (fd : ℕ) (f : Fgrp)
    → growfd mem fd f ≡ none
    → (nfd f ≤ fd) × ((nfd f + 20 ≤ fd) ⊎ (5000 ≤ nfd f) ⊎ (mem ≡ false))
unfolding growfd
growfd-none mem fd f e =
    let (a, r) =
      refused (ltb fd (nfd f)) (leb (nfd f + deltafd) fd) (leb 5000 (nfd f)) mem f (grown fd f) e in
    (
      ground (arith, a),
      elim r [
        | inl b ↦ inl (ground (arith, b))
        | inr (inl c) ↦ inr (inl (ground (arith, c)))
        | inr (inr n) ↦ inr (inr n)
      ],
    )

not_found : (fd : ℕ) (r : Option Fgrp) → found_at fd r ≡ none → r ≡ none
unfolding found_at
not_found fd none e = refl
not_found fd (some g) e = ground (arith, e)

pub findfreefd-Full :
    (mem : Bool) (start : ℕ) (f : Fgrp)
    → findfreefd mem start f ≡ none
    → start ≤ nfd f
    → Full mem start f
unfolding findfreefd
findfreefd-Full mem start f e s =
    let at = start + first_free (drop start f.fd) in
    let (b, r) = growfd-none mem at f (not_found at (growfd mem at f) e) in
    let l = length-drop start f.fd in
    let m = first_free_le (drop start f.fd) in
    record {
      in_use = λ i. unless_used (nfd f) (start + i) (entry f.fd (start + i)) λ a.
          let (c, u) = first_free-used (drop start f.fd) i (omega (arith, a, b)) in
          (c, sym (entry-drop start f.fd i) ∙ u);
      stuck = elim r [ inl x ↦ ground (arith, l, m, x, s) | inr y ↦ y ];
    }

lowest_of :
    {f g : Fgrp} {fd : ℕ} → Finds 0 f fd g → (i : ℕ) → (leb fd i || used (entry f.fd i)) ≡ true
lowest_of {f} {g} {fd} w i = unless_used fd i (entry f.fd i) λ a.
    let e : 0 + i ≡ i = omega arith in
    let (d, u) = w.lowest i (omega (arith, a)) in (d, ap (entry f.fd) (sym e) ∙ u)

-- newfd gives the lowest descriptor that is free, and changes nothing else of the table; it fails
-- only when every entry is in use and the table has 5000 of them or there is no memory.
pub newfd_lem :
    (mem : Bool) (c : ℕ) (f : Fgrp)
    → IsTable f
    → ((fd : ℕ) × (g : Fgrp) × (newfd mem c f ≡ (some fd, g))
        × Opens fd c f g
        × ((i : ℕ) → (leb fd i || used (entry f.fd i)) ≡ true))
      ⊎ ((newfd mem c f ≡ (none, unlockfgrp f)) × Full mem 0 f)
unfolding newfd newfd_at
newfd_lem mem c f h = elim (Option-cases (findfreefd mem 0 f)) [
  | inl e ↦ inr (rw e refl, findfreefd-Full mem 0 f e (omega arith))
  | inr ((fd, g), e) ↦
      let w = findfreefd-Finds mem 0 f fd g e h in
      inl (fd, unlockfgrp (put fd (some c) g), rw e refl, put-Opens 0 fd c f g w, lowest_of w)
]
