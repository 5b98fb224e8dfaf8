-- ===== src/Mnt/Tags/Taken.antt =====
-- What alloctag and freetag do to the tags in use.
use drawterm_android.Base.{
  ℕ, zero, suc, ◌+◌, ◌*◌, ◌/◌, ◌%◌, ◌^◌, ◌≤◌, ◌<◌, ◌≡◌, ◌⊎◌, ◌∙◌, inl, inr, ap, refl, ltb, ◌==◌,
  if◌then◌else◌, Bool, true, false, Bool-cases, ◌&&◌, ◌||◌, none, some, List, [], ◌∷◌, length,
  arith,
}
use drawterm_android.Mnt.Tags.{
  bit, set_bit, clear_bit, first_clear, all_taken, alloc_from, alloctag, clear_in, freetag, used_in,
  used, AreWords,
}

same_suc : (k j : ℕ) → (suc k == suc j) ≡ (k == j)
same_suc k j = ground arith

suc_zero : (k : ℕ) → (suc k == 0) ≡ false
suc_zero k = ground arith

double : (w r : ℕ) → r < 2 → (w * 2 + r) / 2 ≡ w
double w r h = omega arith

odd_even : (w r : ℕ) → r < 2 → (w * 2 + r) % 2 ≡ r
odd_even w r h = omega arith

bit-set_bit : (j k v : ℕ) → bit k (set_bit j v) ≡ (k == j || bit k v)
unfolding bit set_bit
bit-set_bit zero zero v = ground arith
bit-set_bit zero (suc k) v = rw (double (v / 2) 1 (omega arith), suc_zero k) refl
bit-set_bit (suc j) zero v =
    let z : (0 == suc j) ≡ false = ground arith in
    rw (odd_even (set_bit j (v / 2)) (v % 2) (omega arith), z) refl
bit-set_bit (suc j) (suc k) v =
    rw (double (set_bit j (v / 2)) (v % 2) (omega arith), same_suc k j) (bit-set_bit j k (v / 2))

bit-clear_bit : (j k v : ℕ) → bit k (clear_bit j v) ≡ (if k == j then false else bit k v)
unfolding bit clear_bit
bit-clear_bit zero zero v = ground arith
bit-clear_bit zero (suc k) v =
    let e : v / 2 * 2 / 2 ≡ v / 2 = omega arith in rw (e, suc_zero k) refl
bit-clear_bit (suc j) zero v =
    let z : (0 == suc j) ≡ false = ground arith in
    rw (odd_even (clear_bit j (v / 2)) (v % 2) (omega arith), z) refl
bit-clear_bit (suc j) (suc k) v =
    rw (double (clear_bit j (v / 2)) (v % 2) (omega arith), same_suc k j)
      (bit-clear_bit j k (v / 2))

clear_bit-set_bit : (j v : ℕ) → bit j v ≡ false → clear_bit j (set_bit j v) ≡ v
unfolding bit clear_bit set_bit
clear_bit-set_bit zero v h = ground arith
clear_bit-set_bit (suc j) v h =
    rw
      (
        double (set_bit j (v / 2)) (v % 2) (omega arith),
        odd_even (set_bit j (v / 2)) (v % 2) (omega arith),
        clear_bit-set_bit j (v / 2) h,
      )
      (omega arith)

set_bit-below : (k j v : ℕ) → j < k → v < 2 ^ k → set_bit j v < 2 ^ k
unfolding set_bit
set_bit-below zero j v h l = elim h [ ]
set_bit-below (suc k) zero v h l =
    let p : 2 ^ suc k ≡ 2 * 2 ^ k = ground arith in omega (arith, p, l)
set_bit-below (suc k) (suc j) v h l =
    let p : 2 ^ suc k ≡ 2 * 2 ^ k = ground arith in
    let ih = set_bit-below k j (v / 2) (omega arith) (omega (arith, p, l)) in omega (arith, ih, p)

first_clear_lem :
    (k v : ℕ) → v + 1 < 2 ^ k → (first_clear k v < k) × (bit (first_clear k v) v ≡ false)
unfolding first_clear bit
first_clear_lem zero v h = ground arith
first_clear_lem (suc k) v h =
    let p : 2 ^ suc k ≡ 2 * 2 ^ k = ground arith in
    elim (Bool-cases (v % 2 == 1)) [
      | inl odd ↦
          let (l, c) = first_clear_lem k (v / 2) (ground (arith, p, h)) in
          let e : first_clear k (v / 2) + 1 ≡ suc (first_clear k (v / 2)) = omega arith in
          rw (odd, e) (omega (arith, l), c)
      | inr even ↦ rw even (omega arith, even)
    ]

either : (c : Bool) → false ≡ (if c then false else false)
either true = refl
either false = refl

used-clear_in :
    (i j a b : ℕ) (ms : List ℕ)
    → used_in a b (clear_in i j ms) ≡ (if a == i && b == j then false else used_in a b ms)
unfolding used_in clear_in
used-clear_in i j a b [] = either (a == i && b == j)
used-clear_in zero j zero b (v ∷ vs) = bit-clear_bit j b v
used-clear_in zero j (suc a) b (v ∷ vs) = rw (suc_zero a) refl
used-clear_in (suc i) j zero b (v ∷ vs) = let z : (0 == suc i) ≡ false = ground arith in rw z refl
used-clear_in (suc i) j (suc a) b (v ∷ vs) = rw (same_suc a i) (used-clear_in i j a b vs)

full_bits : (k b v : ℕ) → v + 1 ≡ 2 ^ k → b < k → bit b v ≡ true
unfolding bit
full_bits zero b v h l = elim l [ ]
full_bits (suc k) zero v h l = let p : 2 ^ suc k ≡ 2 * 2 ^ k = ground arith in ground (arith, p, h)
full_bits (suc k) (suc b) v h l =
    let p : 2 ^ suc k ≡ 2 * 2 ^ k = ground arith in
    full_bits k b (v / 2) (omega (arith, p, h)) (omega arith)

-- Bit `j` of word `a` was clear, and is set in `next`.
record IsGiven (ms : List ℕ) (a j : ℕ) (next : List ℕ) : Type 0 where
  there : a < length ms
  in_word : j < 32
  was_clear : used_in a j ms ≡ false
  words : AreWords next
  undone : clear_in a j next ≡ ms
  others : (c b : ℕ) → used_in c b next ≡ ((c == a && b == j) || used_in c b ms)

all_used :
    (v : ℕ) (vs : List ℕ)
    → v ≡ all_taken
    → ((c b : ℕ) → c < length vs → b < 32 → used_in c b vs ≡ true)
    → (c b : ℕ) → c < length (v ∷ vs)
    → b < 32
    → used_in c b (v ∷ vs) ≡ true
unfolding used_in
all_used v vs e h zero b l k = full_bits 32 b v (omega (arith, e)) k
all_used v vs e h (suc c) b l k = h c b (omega arith) k

later_word :
    (v a j : ℕ) (vs next : List ℕ)
    → ((c b : ℕ) → used_in c b next ≡ ((c == a && b == j) || used_in c b vs))
    → (c b : ℕ) → used_in c b (v ∷ next) ≡ ((c == suc a && b == j) || used_in c b (v ∷ vs))
unfolding used_in
later_word v a j vs next h zero b = let z : (0 == suc a) ≡ false = ground arith in rw z refl
later_word v a j vs next h (suc c) b = rw (same_suc c a) (h c b)

first_word :
    (j v : ℕ) (vs : List ℕ) (c b : ℕ)
    → used_in c b (set_bit j v ∷ vs) ≡ ((c == 0 && b == j) || used_in c b (v ∷ vs))
unfolding used_in
first_word j v vs zero b = bit-set_bit j b v
first_word j v vs (suc c) b = rw (suc_zero c) refl

alloc_from_lem :
    (i : ℕ) (ms : List ℕ)
    → AreWords ms
    → ((alloc_from i ms ≡ none) × ((c b : ℕ) → c < length ms → b < 32 → used_in c b ms ≡ true))
      ⊎ ((a : ℕ) × (j : ℕ) × (next : List ℕ) × (alloc_from i ms ≡ some ((i + a) * 32 + j, next))
          × IsGiven ms a j next)
unfolding alloc_from used_in clear_in
alloc_from_lem i [] h = inl (refl, λ c b l k. elim l [ ])
alloc_from_lem i (v ∷ vs) h = elim (Bool-cases (v == all_taken)) [
  | inl full ↦ elim (alloc_from_lem (i + 1) vs h.1) [
    | inl gone ↦ inl (rw (full, gone.0) refl, all_used v vs (ground arith) gone.1)
    | inr (a, j, next, e, g) ↦ inr (
      suc a,
      j,
      v ∷ next,
      (let n : (i + 1 + a) * 32 + j ≡ (i + suc a) * 32 + j = omega arith in rw (full, e, n) refl),
      record {
        there = omega (arith, g.there);
        in_word = g.in_word;
        was_clear = g.was_clear;
        words = (h.0, g.words);
        undone = ap (λ t. v ∷ t) g.undone;
        others = later_word v a j vs next g.others;
      },
    )
  ]
  | inr room ↦
      let small : v + 1 < 2 ^ 32 = ground (arith, h) in
      let (l, c) = first_clear_lem 32 v small in
      inr (
        0,
        first_clear 32 v,
        set_bit (first_clear 32 v) v ∷ vs,
        (let n : (i + 0) * 32 + first_clear 32 v ≡ i * 32 + first_clear 32 v = omega arith in
            rw (room, n) refl),
        record {
          there = omega arith;
          in_word = l;
          was_clear = c;
          words = (set_bit-below 32 (first_clear 32 v) v l h.0, h.1);
          undone = ap (λ t. t ∷ vs) (clear_bit-set_bit (first_clear 32 v) v c);
          others = first_word (first_clear 32 v) v vs;
        },
      )
]

same_tag : (s a j : ℕ) → j < 32 → (s / 32 == a && s % 32 == j) ≡ (s == a * 32 + j)
same_tag s a j h = ground arith

same_tag_free : (s t : ℕ) → (s / 32 == t / 32 && s % 32 == t % 32) ≡ (s == t)
same_tag_free s t = ground arith

-- The tag `t` was free, and is the only new one in use in `next`.
pub record IsTaken (ms : List ℕ) (t : ℕ) (next : List ℕ) : Type 0 where
  pub in_range : t < 32 * length ms
  pub was_free : used t ms ≡ false
  pub words_next : AreWords next
  pub freed : freetag t next ≡ ms
  pub only : (s : ℕ) → used s next ≡ (s == t || used s ms)

pub alloctag-IsTaken :
    (ms : List ℕ)
    → AreWords ms
    → ((alloctag ms ≡ none) × ((s : ℕ) → (32 * length ms ≤ s) ⊎ (used s ms ≡ true)))
      ⊎ ((t : ℕ) × (next : List ℕ) × (alloctag ms ≡ some (t, next)) × IsTaken ms t next)
unfolding alloctag freetag
alloctag-IsTaken ms h = elim (alloc_from_lem 0 ms h) [
  | inl gone ↦ inl (
    gone.0,
    λ s. (elim (Bool-cases (ltb s (32 * length ms))) [
      | inl below ↦ inr (gone.1 (s / 32) (s % 32) (ground (arith, below)) (omega arith))
      | inr above ↦ inl (ground (arith, above))
    ]),
  )
  | inr (a, j, next, e, g) ↦
      let n : (0 + a) * 32 + j ≡ a * 32 + j = omega arith in
      let w : (a * 32 + j) / 32 ≡ a = omega (arith, g.in_word) in
      let r : (a * 32 + j) % 32 ≡ j = omega (arith, g.in_word) in
      inr (
        a * 32 + j,
        next,
        e ∙ ap (λ t. some (t, next)) n,
        record {
          in_range = omega (arith, g.there, g.in_word);
          was_free = rw (w, r) g.was_clear;
          words_next = g.words;
          freed = rw (w, r) g.undone;
          only =
              λ s. g.others (s / 32) (s % 32) ∙ ap (λ t. t || used s ms) (same_tag s a j g.in_word);
        },
      )
]

-- `freetag` takes its tag out of use and no other.
pub freetag_lem :
    (s t : ℕ) (ms : List ℕ) → used s (freetag t ms) ≡ (if s == t then false else used s ms)
unfolding freetag
freetag_lem s t ms =
    used-clear_in (t / 32) (t % 32) (s / 32) (s % 32) ms
    ∙ ap (λ c. if c then false else used s ms) (same_tag_free s t)

length-clear_in : (i j : ℕ) (ms : List ℕ) → length (clear_in i j ms) ≡ length ms
unfolding clear_in
length-clear_in i j [] = refl
length-clear_in zero j (v ∷ vs) = refl
length-clear_in (suc i) j (v ∷ vs) = ap suc (length-clear_in i j vs)

pub length-freetag : (t : ℕ) (ms : List ℕ) → length (freetag t ms) ≡ length ms
unfolding freetag
length-freetag t ms = length-clear_in (t / 32) (t % 32) ms

clear_bit-le : (j v : ℕ) → clear_bit j v ≤ v
unfolding clear_bit
clear_bit-le zero v = omega arith
clear_bit-le (suc j) v = omega (arith, clear_bit-le j (v / 2))

clear_in-AreWords : (i j : ℕ) (ms : List ℕ) → AreWords ms → AreWords (clear_in i j ms)
unfolding clear_in
clear_in-AreWords i j [] h = tt
clear_in-AreWords zero j (v ∷ vs) h = (omega (arith, clear_bit-le j v, h.0), h.1)
clear_in-AreWords (suc i) j (v ∷ vs) h = (h.0, clear_in-AreWords i j vs h.1)

pub freetag-AreWords : (t : ℕ) (ms : List ℕ) → AreWords ms → AreWords (freetag t ms)
unfolding freetag
freetag-AreWords t ms h = clear_in-AreWords (t / 32) (t % 32) ms h
