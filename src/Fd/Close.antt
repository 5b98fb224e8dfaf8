-- ===== src/Fd/Close.antt =====
-- closefd: what it keeps of the table, and what it takes out.
use drawterm_android.Base.{
  ℕ, zero, suc, ◌≤◌, ◌<◌, ◌≡◌, ◌∙◌, ◌⊎◌, inl, inr, refl, sym, ap, arith, ◌==◌, false, if◌then◌else◌,
  Option, none, some, Bool-cases, ==→eq, List, set, length-set, Option-cases, ◌+◌, if_true,
  if_false,
}
use drawterm_android.Fd.{Fgrp, entry, past, lower, cleared, close_at, closefd}
use drawterm_android.Fd.Entries.{entry-set_other, entry-set-none, entry_within, clear_entries}
use drawterm_android.Fd.Count.{is, uses, uses-set}
use drawterm_android.Fd.Table.{IsTable}

past_le : (o : Option ℕ) (b i : ℕ) → b ≤ i → past o b i ≤ i
unfolding past
past_le none b i h = h
past_le (some c) b i h = omega arith

lower_le : (os : List (Option ℕ)) (i : ℕ) → lower os i ≤ i
unfolding lower
lower_le os zero = omega arith
lower_le os (suc i) = past_le (entry os i) (lower os i) (suc i) (omega (arith, lower_le os i))

-- Below its start, the loop leaves only free entries above its end.
past_clear : (o : Option ℕ) (b i j : ℕ) → past o b (suc i) < j → j < suc i → (o ≡ none) × (b < j)
unfolding past
past_clear none b i j lo hi = (refl, lo)
past_clear (some c) b i j lo hi = ground (arith, lo, hi)

lower_clear : (os : List (Option ℕ)) (i j : ℕ) → lower os i < j → j < i → entry os j ≡ none
unfolding lower
lower_clear os zero j lo hi = ground (arith, lo, hi)
lower_clear os (suc i) j lo hi =
    let (e, b) = past_clear (entry os i) (lower os i) i j lo hi in
    elim (Bool-cases (j == i)) [
      | inl t ↦ ap (entry os) (==→eq j i t) ∙ e
      | inr t ↦ lower_clear os i j b (ground (arith, t))
    ]

-- Above the new `maxfd` is what was above the old one, or what the loop passed.
passed :
    (fd m i l : ℕ)
    → (if fd == m then l else m) < i
    → (fd == i) ≡ false
    → (m < i) ⊎ ((l < i) × (i < fd))
passed fd m i l a e = ground (arith, a, e)

cleared_above :
    (fd : ℕ) (f : Fgrp) (i : ℕ)
    → IsTable f
    → (cleared fd f).maxfd < i
    → entry (cleared fd f).fd i ≡ none
unfolding cleared
cleared_above fd f i h a = elim (Bool-cases (fd == i)) [
  | inl e ↦ ap (entry (set f.fd fd none)) (sym (==→eq fd i e)) ∙ entry-set-none f.fd fd
  | inr e ↦ elim (passed fd f.maxfd i (lower (set f.fd fd none) fd) a e) [
    | inl b ↦ entry-set_other f.fd fd i none e ∙ h.above i b
    | inr (lo, hi) ↦ lower_clear (set f.fd fd none) fd i lo hi
  ]
]

pub cleared-IsTable : (fd : ℕ) (f : Fgrp) → IsTable f → IsTable (cleared fd f)
unfolding cleared
cleared-IsTable fd f h =
    let l = length-set f.fd fd none in
    record {
      within = ground (arith, l, h.within, lower_le (set f.fd fd none) fd);
      quantum = ground (arith, l, h.quantum);
      limit = ground (arith, l, h.limit);
      above = λ i a. cleared_above fd f i h a;
    }

close_at-IsTable : (o : Option ℕ) (fd : ℕ) (f : Fgrp) → IsTable f → IsTable ((close_at o fd f).1)
unfolding close_at
close_at-IsTable none fd f h = h
close_at-IsTable (some c) fd f h = cleared-IsTable fd f h

pub closefd-IsTable : (fd : ℕ) (f : Fgrp) → IsTable f → IsTable ((closefd fd f).1)
unfolding closefd
closefd-IsTable fd f h = close_at-IsTable (entry f.fd fd) fd f h

-- What is left when one descriptor was closed.
pub record Takes (fd : ℕ) (f g : Fgrp) : Type 0 where
  pub table : IsTable g
  pub gone : entry g.fd fd ≡ none
  pub entries : (i : ℕ) → entry g.fd i ≡ (if fd == i then none else entry f.fd i)
  pub counts : (d : ℕ) → uses d g.fd + is d (entry f.fd fd) ≡ uses d f.fd
  pub same_ref : g.ref ≡ f.ref

cleared-Takes :
    (fd c : ℕ) (f : Fgrp) → IsTable f → entry f.fd fd ≡ some c → Takes fd f (cleared fd f)
unfolding cleared is
cleared-Takes fd c f h e = record {
  table = cleared-IsTable fd f h;
  gone = entry-set-none f.fd fd;
  entries = λ i. clear_entries f.fd fd i;
  counts = λ d. uses-set d f.fd fd none (entry_within f.fd fd c e) ∙ omega arith;
  same_ref = refl;
}

unchanged :
    (os : List (Option ℕ)) (fd i : ℕ)
    → entry os fd ≡ none
    → entry os i ≡ (if fd == i then none else entry os i)
unchanged os fd i e = elim (Bool-cases (fd == i)) [
  | inl a ↦ ap (entry os) (sym (==→eq fd i a)) ∙ e ∙ sym (if_true (fd == i) _ _ a)
  | inr a ↦ sym (if_false (fd == i) _ _ a)
]

unchanged-Takes : (fd : ℕ) (f : Fgrp) → IsTable f → entry f.fd fd ≡ none → Takes fd f f
unfolding is
unchanged-Takes fd f h e = record {
  table = h;
  gone = e;
  entries = λ i. unchanged f.fd fd i e;
  counts = λ d. rw e (omega arith);
  same_ref = refl;
}

-- closefd gives the channel of the descriptor to be closed and frees the descriptor, and no other.
pub closefd_lem :
    (fd : ℕ) (f : Fgrp)
    → IsTable f
    → ((closefd fd f).0 ≡ entry f.fd fd) × Takes fd f ((closefd fd f).1)
unfolding closefd close_at
closefd_lem fd f h = elim (Option-cases (entry f.fd fd)) [
  | inl e ↦ rw e (refl, unchanged-Takes fd f h e)
  | inr (c, e) ↦ rw e (refl, cleared-Takes fd c f h e)
]
