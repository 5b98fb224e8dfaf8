-- ===== src/Wire/Reader/Safe.antt =====
-- Reading inside the buffer.
use mathlib.Core.Path.{fun_ext}
use drawterm_android.Base.{
  split-append, append_assoc, le→ltb, ◌++◌, ◌-◌, ap, ℕ, ◌≤◌, ◌≡◌, refl, arith, ltb, List, length,
  split-some, Bool-cases, inl, inr, ltb→le, length-append,
}
use drawterm_android.Wire.Reader.{
  Outcome, ok, fail, fault, M, ◌>>=◌, return, need, refuse_above, read, gbit, assign,
}

-- The step reads inside the buffer; where it goes on, `j` bytes at least are left, and it does the
-- same with any bytes behind the buffer.
abbrev pub Leaves : {S A : Type 0} → ℕ → (List ℕ → Outcome S A) → Outcome S A → Type 0
Leaves j longer (ok a p f) = (j ≤ length p) × ((rest : List ℕ) → longer rest ≡ ok a (p ++ rest) f)
Leaves j longer (fail f) = Unit
Leaves j longer fault = ⊥

abbrev pub Run : {S A : Type 0} → ℕ → M S A → List ℕ → S → Type 0
Run j m p f = Leaves j (λ rest. m (p ++ rest) f) (m p f)

-- So it does wherever `k` bytes stand before `ep`.
pub data Safe {S A : Type 0} (k : ℕ) (m : M S A) (j : ℕ) : Type 0 where
  safe : ((p : List ℕ) (f : S) → k ≤ length p → Run j m p f) → Safe k m j

pub run :
    {S A : Type 0} {k : ℕ} {m : M S A} {j : ℕ}
    → Safe k m j
    → (p : List ℕ) (f : S) → k ≤ length p
    → Run j m p f
run (safe h) = h

abbrev continue : {S A B : Type 0} → (A → M S B) → Outcome S A → Outcome S B
continue next r = elim r [ ok a p' f' ↦ next a p' f' | fail f' ↦ fail f' | fault ↦ fault ]

Leaves-bind :
    {S A B : Type 0} (longer : List ℕ → Outcome S A) (r : Outcome S A) (next : A → M S B) (j l : ℕ)
    → Leaves j longer r
    → ((a : A) → Safe j (next a) l)
    → Leaves l (λ rest. continue next (longer rest)) (continue next r)
Leaves-bind longer (ok a p f) next j l h s =
    rw (fun_ext (λ rest. ap (continue next) (h.1 rest))) (run (s a) p f h.0)
Leaves-bind longer (fail f) next j l h s = tt
Leaves-bind longer fault next j l h s = h

infixr 5 ◌▸◌
pub ◌▸◌ :
    {S A B : Type 0} {m : M S A} {next : A → M S B} {k j l : ℕ}
    → Safe k m j
    → ((a : A) → Safe j (next a) l)
    → Safe k (m >>= next) l
unfolding ◌>>=◌
◌▸◌ {m = m} {next = next} {j = j} {l = l} h s =
    safe (λ p f le. Leaves-bind (λ rest. m (p ++ rest) f) (m p f) next j l (run h p f le) s)

pub return-Safe : {S A : Type 0} (a : A) {k : ℕ} → Safe {S = S} k (return a) k
return-Safe a = safe (λ p f le. (le, λ rest. refl))

pub assign-Safe : {S : Type 0} (g : S → S) {k : ℕ} → Safe k (assign g) k
assign-Safe g = safe (λ p f le. (le, λ rest. refl))

need-Run : {S : Type 0} (n : ℕ) (p : List ℕ) (f : S) → Run n (need n) p f
unfolding need
need-Run n p f = elim (Bool-cases (ltb (length p) n)) [
  | inl e ↦ rw e tt
  | inr e ↦ rw e (
    ltb→le _ _ e,
    λ rest. rw (le→ltb (length (p ++ rest)) n (omega (arith, length-append p rest, ltb→le _ _ e))),
  )
]

pub need-Safe : {S : Type 0} (n : ℕ) {k : ℕ} → Safe {S = S} k (need n) n
need-Safe n = safe (λ p f le. need-Run n p f)

pub refuse_above-Safe : {S : Type 0} (max n : ℕ) {k : ℕ} → Safe {S = S} k (refuse_above max n) k
unfolding refuse_above
refuse_above-Safe max n =
    safe (λ p f le. elim (Bool-cases (ltb max n)) [
      | inl e ↦ rw e tt
      | inr e ↦ rw e (le, λ rest. refl)
    ])

read-append :
    {S : Type 0} (n : ℕ) (front back : List ℕ) (f : S)
    → length front ≡ n
    → read n (front ++ back) f ≡ ok front back f
unfolding read
read-append n front back f l = rw (← l) (rw (split-append front back, read))

read-Run :
    {S : Type 0} (n k : ℕ) (front back : List ℕ) (f : S)
    → length front ≡ n
    → k ≤ length (front ++ back)
    → Run (k - n) (read n) (front ++ back) f
read-Run n k front back f l h = rw (read-append n front back f l) (
  omega (arith, length-append front back),
  λ rest. rw append_assoc (read-append n front (back ++ rest) f l),
)

pub read-Safe : {S : Type 0} (n : ℕ) {k : ℕ} → n ≤ k → Safe {S = S} k (read n) (k - n)
read-Safe n {k} h = safe (λ p f le.
    let (front, back, _, l, s) = split-some n p (omega arith) in
    rw s (read-Run n k front back f l (rw s at le)))

pub gbit-Safe : {S : Type 0} (n : ℕ) {k : ℕ} → n ≤ k → Safe {S = S} k (gbit n) (k - n)
unfolding gbit
gbit-Safe n h = read-Safe n h ▸ λ bs. return-Safe _

Leaves-weaken :
    {S A : Type 0} (j : ℕ) (longer : List ℕ → Outcome S A) (r : Outcome S A)
    → Leaves j longer r
    → Leaves 0 longer r
Leaves-weaken j longer (ok a p f) h = (omega arith, h.1)
Leaves-weaken j longer (fail f) h = tt
Leaves-weaken j longer fault h = h

-- A step with any rest.
pub weaken-Safe : {S A : Type 0} {m : M S A} {k j : ℕ} → Safe k m j → Safe k m 0
weaken-Safe {m = m} {j = j} (safe h) = safe (λ p f le. Leaves-weaken j _ (m p f) (h p f le))
