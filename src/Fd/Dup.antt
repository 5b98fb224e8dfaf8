-- ===== src/Fd/Dup.antt =====
-- newfd2, which pipe calls, and the table part of _sysdup.
use drawterm_android.Fd.Entries.{entry-set, entry-set_other, set_entries}
use drawterm_android.Base.{
  ℕ, suc, set, ◌<◌, Bool, some, ◌≡◌, length, length-set, none, ◌⊎◌, Option-cases, arith, ◌==◌,
  false, inl, inr, ◌+◌, refl, ◌≤◌, ◌∙◌, ap, sym, if◌then◌else◌,
}
use drawterm_android.Fd.{
  Fgrp, nfd, entry, findfreefd, growfd, put, newfd2_at, newfd2_from, newfd2, dup_at, dup_to,
  unlockfgrp,
}
use drawterm_android.Fd.Table.{IsTable, Grows, growfd-Grows, put-IsTable, unlockfgrp-IsTable}
use drawterm_android.Fd.Count.{is, uses, uses-set}
use drawterm_android.Fd.Newfd.{Finds, findfreefd-Finds, put-counts, uses-Grows, growfd-none}

-- The table `g` is `f` with the two channels at two descriptors, which were free.
pub record OpensTwo (fd0 fd1 c0 c1 : ℕ) (f g : Fgrp) : Type 0 where
  pub table : IsTable g
  pub apart : fd0 < fd1
  pub free0 : entry f.fd fd0 ≡ none
  pub free1 : entry f.fd fd1 ≡ none
  pub holds0 : entry g.fd fd0 ≡ some c0
  pub holds1 : entry g.fd fd1 ≡ some c1
  pub others : (i : ℕ) → (fd0 == i) ≡ false → (fd1 == i) ≡ false → entry g.fd i ≡ entry f.fd i
  pub counts : (d : ℕ) → uses d g.fd ≡ (uses d f.fd + is d (some c0)) + is d (some c1)
  pub same_ref : g.ref ≡ f.ref

abbrev first_set : ℕ → ℕ → Fgrp → Fgrp
first_set fd c g = record g { fd = set g.fd fd (some c) }

-- `maxfd` need not follow the first descriptor, since the second is above it.
first_set-IsTable :
    (fd0 fd1 c0 c1 : ℕ) (g : Fgrp)
    → fd0 < fd1
    → fd1 < nfd g
    → IsTable g
    → IsTable (put fd1 (some c1) (first_set fd0 c0 g))
unfolding put
first_set-IsTable fd0 fd1 c0 c1 g a r h =
    let os = set g.fd fd0 (some c0) in
    let l = length-set g.fd fd0 (some c0) in
    let m = length-set os fd1 (some c1) in
    record {
      within = ground (arith, l, m, h.within);
      quantum = ground (arith, l, m, h.quantum);
      limit = ground (arith, l, m, h.limit);
      above = λ i b.
          entry-set_other os fd1 i (some c1) (ground arith)
          ∙ entry-set_other g.fd fd0 i (some c0) (ground arith)
          ∙ h.above i (ground arith);
    }

put-OpensTwo :
    (fd0 fd1 c0 c1 : ℕ) (f g k : Fgrp)
    → Finds 0 f fd0 g
    → Finds (suc fd0) g fd1 k
    → OpensTwo fd0 fd1 c0 c1 f (unlockfgrp (put fd1 (some c1) (first_set fd0 c0 k)))
unfolding put unlockfgrp
put-OpensTwo fd0 fd1 c0 c1 f g k w v =
    let os = set k.fd fd0 (some c0) in
    let a : fd0 < fd1 = v.from in
    let r1 : fd1 < length os = omega (arith, length-set k.fd fd0 (some c0), v.grows.room) in
    let r0 : fd0 < nfd k = omega (arith, a, v.grows.room) in
    let n1 : (fd0 == fd1) ≡ false = ground (arith, a) in
    let n0 : (fd1 == fd0) ≡ false = ground (arith, a) in
    let e1 = entry-set_other k.fd fd0 fd1 (some c0) n1 ∙ v.free in
    let same = λ (i : ℕ). v.grows.same i ∙ w.grows.same i in
    record {
      table =
          unlockfgrp-IsTable (put fd1 (some c1) (first_set fd0 c0 k))
            (first_set-IsTable fd0 fd1 c0 c1 k a v.grows.room v.grows.table);
      apart = a;
      free0 = sym (w.grows.same fd0) ∙ w.free;
      free1 = sym (same fd1) ∙ v.free;
      holds0 = entry-set_other os fd1 fd0 (some c1) n0 ∙ entry-set k.fd fd0 (some c0) r0;
      holds1 = entry-set os fd1 (some c1) r1;
      others = λ i x y.
          entry-set_other os fd1 i (some c1) y ∙ entry-set_other k.fd fd0 i (some c0) x ∙ same i;
      counts = λ d.
          put-counts d fd1 c1 os r1 e1
          ∙ ap (λ t. t + is d (some c1))
              (put-counts d fd0 c0 k.fd r0 (v.grows.same fd0 ∙ w.free)
                ∙ ap (λ t. t + is d (some c0))
                    (uses-Grows d g fd1 k v.grows ∙ uses-Grows d f fd0 g w.grows));
      same_ref = v.grows.ref_same ∙ w.grows.ref_same;
    }

-- newfd2 puts both channels into the table or none; what the first search grew it may leave grown.
pub newfd2_lem :
    (mem0 mem1 : Bool) (c0 c1 : ℕ) (f : Fgrp)
    → IsTable f
    → ((fd0 : ℕ) × (fd1 : ℕ) × (g : Fgrp) × (newfd2 mem0 mem1 c0 c1 f ≡ (some (fd0, fd1), g))
        × OpensTwo fd0 fd1 c0 c1 f g)
      ⊎ ((g : Fgrp) × (newfd2 mem0 mem1 c0 c1 f ≡ (none, g))
          × IsTable g
          × ((i : ℕ) → entry g.fd i ≡ entry f.fd i)
          × ((d : ℕ) → uses d g.fd ≡ uses d f.fd)
          × (g.ref ≡ f.ref))
unfolding newfd2 newfd2_from newfd2_at unlockfgrp
newfd2_lem mem0 mem1 c0 c1 f h = elim (Option-cases (findfreefd mem0 0 f)) [
  | inl e ↦ inr (unlockfgrp f, rw e refl, unlockfgrp-IsTable f h, λ i. refl, λ d. refl, refl)
  | inr ((fd0, g), e) ↦
      let w = findfreefd-Finds mem0 0 f fd0 g e h in
      elim (Option-cases (findfreefd mem1 (suc fd0) g)) [
        | inl a ↦ inr (
          unlockfgrp g,
          rw (e, a) refl,
          unlockfgrp-IsTable g w.grows.table,
          w.grows.same,
          λ d. uses-Grows d f fd0 g w.grows,
          w.grows.ref_same,
        )
        | inr ((fd1, k), a) ↦
            let v = findfreefd-Finds mem1 (suc fd0) g fd1 k a w.grows.table in
            inl (
              fd0,
              fd1,
              unlockfgrp (put fd1 (some c1) (first_set fd0 c0 k)),
              rw (e, a) refl,
              put-OpensTwo fd0 fd1 c0 c1 f g k w v,
            )
      ]
]

-- The table `g` is `f` with the channel in place of what the descriptor held.
pub record Replaces (fd c : ℕ) (f g : Fgrp) : Type 0 where
  pub table : IsTable g
  pub entries : (i : ℕ) → entry g.fd i ≡ (if fd == i then some c else entry f.fd i)
  pub counts : (d : ℕ) → uses d g.fd + is d (entry f.fd fd) ≡ uses d f.fd + is d (some c)
  pub same_ref : g.ref ≡ f.ref

put-Replaces :
    (fd c : ℕ) (f g : Fgrp) → Grows f fd g → Replaces fd c f (unlockfgrp (put fd (some c) g))
unfolding put unlockfgrp
put-Replaces fd c f g w = record {
  table = unlockfgrp-IsTable (put fd (some c) g) (put-IsTable fd c g w.room w.table);
  entries = λ i.
      set_entries g.fd fd (some c) i w.room ∙ ap (λ t. if fd == i then some c else t) (w.same i);
  counts = λ d.
      ap (λ t. uses d (set g.fd fd (some c)) + is d t) (sym (w.same fd))
      ∙ uses-set d g.fd fd (some c) w.room
      ∙ ap (λ t. t + is d (some c)) (uses-Grows d f fd g w);
  same_ref = w.ref_same;
}

-- The table part of dup puts the channel at the descriptor asked for and gives what was there; it
-- fails, and changes no entry, only for a descriptor past the end, which is DELTAFD or more past the
-- end, or else the table has 5000 entries or there is no memory.
pub dup_to_lem :
    (mem : Bool) (fd c : ℕ) (f : Fgrp)
    → IsTable f
    → ((g : Fgrp) × (dup_to mem fd c f ≡ (some (entry f.fd fd), g)) × Replaces fd c f g)
      ⊎ ((dup_to mem fd c f ≡ (none, unlockfgrp f))
          × (nfd f ≤ fd)
          × ((nfd f + 20 ≤ fd) ⊎ (5000 ≤ nfd f) ⊎ (mem ≡ false)))
unfolding dup_to dup_at
dup_to_lem mem fd c f h = elim (Option-cases (growfd mem fd f)) [
  | inl e ↦ let (a, r) = growfd-none mem fd f e in inr (rw e refl, a, r)
  | inr (g, e) ↦
      let w = growfd-Grows mem fd f g e h in
      inl (unlockfgrp (put fd (some c) g), rw (e, w.same fd) refl, put-Replaces fd c f g w)
]
