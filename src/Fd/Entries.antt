-- ===== src/Fd/Entries.antt =====
-- The entries of a table: what `entry` gives after `set`, past the end and after free entries are added.
use drawterm_android.Base.{
  if_true, if_false, if◌then◌else◌, ◌∙◌, sym, ap, ◌==◌, ◌<◌, Bool-cases, ==→eq, inl, inr, ℕ, zero,
  suc, ◌≤◌, ◌≡◌, refl, arith, ◌++◌, false, Option, none, some, List, [], ◌∷◌, length, set,
  replicate,
}
use drawterm_android.Fd.{entry}

pub entry-set :
    (os : List (Option ℕ)) (i : ℕ) (o : Option ℕ) → i < length os → entry (set os i o) i ≡ o
unfolding entry
entry-set [] i o h = elim h [ ]
entry-set (x ∷ os) zero o h = refl
entry-set (x ∷ os) (suc i) o h = entry-set os i o (omega arith)

pub entry-set_other :
    (os : List (Option ℕ)) (i j : ℕ) (o : Option ℕ)
    → (i == j) ≡ false
    → entry (set os i o) j ≡ entry os j
unfolding entry
entry-set_other [] i j o h = refl
entry-set_other (x ∷ os) zero zero o h = ground arith
entry-set_other (x ∷ os) zero (suc j) o h = refl
entry-set_other (x ∷ os) (suc i) zero o h = refl
entry-set_other (x ∷ os) (suc i) (suc j) o h = entry-set_other os i j o (ground arith)

pub entry_beyond : (os : List (Option ℕ)) (i : ℕ) → length os ≤ i → entry os i ≡ none
unfolding entry
entry_beyond [] i h = refl
entry_beyond (x ∷ os) zero h = elim h [ ]
entry_beyond (x ∷ os) (suc i) h = entry_beyond os i (omega arith)

pub entry-replicate : (n i : ℕ) → entry (replicate n none) i ≡ none
unfolding entry
entry-replicate zero i = refl
entry-replicate (suc n) zero = refl
entry-replicate (suc n) (suc i) = entry-replicate n i

pub entry-more : (os : List (Option ℕ)) (n i : ℕ) → entry (os ++ replicate n none) i ≡ entry os i
unfolding entry
entry-more [] n i = entry-replicate n i
entry-more (x ∷ os) n zero = refl
entry-more (x ∷ os) n (suc i) = entry-more os n i

pub entry-set-none : (os : List (Option ℕ)) (i : ℕ) → entry (set os i none) i ≡ none
unfolding entry
entry-set-none [] i = refl
entry-set-none (x ∷ os) zero = refl
entry-set-none (x ∷ os) (suc i) = entry-set-none os i

pub entry_within : (os : List (Option ℕ)) (i c : ℕ) → entry os i ≡ some c → i < length os
unfolding entry
entry_within [] i c e = ground (arith, e)
entry_within (x ∷ os) zero c e = omega arith
entry_within (x ∷ os) (suc i) c e = omega (arith, entry_within os i c e)

-- All entries after one was set.
pub set_entries :
    (os : List (Option ℕ)) (fd : ℕ) (o : Option ℕ) (i : ℕ)
    → fd < length os
    → entry (set os fd o) i ≡ (if fd == i then o else entry os i)
set_entries os fd o i h = elim (Bool-cases (fd == i)) [
  | inl e ↦
      ap (entry (set os fd o)) (sym (==→eq fd i e))
      ∙ entry-set os fd o h
      ∙ sym (if_true (fd == i) _ _ e)
  | inr e ↦ entry-set_other os fd i o e ∙ sym (if_false (fd == i) _ _ e)
]

pub clear_entries :
    (os : List (Option ℕ)) (fd i : ℕ)
    → entry (set os fd none) i ≡ (if fd == i then none else entry os i)
clear_entries os fd i = elim (Bool-cases (fd == i)) [
  | inl e ↦
      ap (entry (set os fd none)) (sym (==→eq fd i e))
      ∙ entry-set-none os fd
      ∙ sym (if_true (fd == i) _ _ e)
  | inr e ↦ entry-set_other os fd i none e ∙ sym (if_false (fd == i) _ _ e)
]
