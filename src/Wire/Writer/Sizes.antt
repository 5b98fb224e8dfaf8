-- ===== src/Wire/Writer/Sizes.antt =====
-- How many bytes a writer stores.
use mathlib.Core.Option.{some-injective}
use mathlib.Core.Path.{subst}
use drawterm_android.Base.{
  ltb→le, length-take, inr, arith, inl, le→ltb, lengths, ltb, take, ◌∙◌, Bool-cases, length,
  length-le_bytes, ◌+◌, ◌≡◌, ◌≤◌, List, ℕ, some,
}
use drawterm_android.Wire.Writer.{Stored, more, stop, fault, ◌>>◌, pbit, memmove}

-- All `n` bytes are stored, or at most so many where the coder gives up.
abbrev pub Filled : ℕ → Stored → Type 0
Filled n (more bs) = length bs ≡ n
Filled n (stop bs) = length bs ≤ n
Filled n fault = Unit

pub data Fills (n : ℕ) (m : Stored) : Type 0 where
  fills : Filled n m → Fills n m

pub filled : {n : ℕ} {m : Stored} → Fills n m → Filled n m
filled (fills h) = h

Filled->> : (m k : Stored) (a b : ℕ) → Filled a m → Filled b k → Filled (a + b) (m >> k)
Filled->> (more bs) (more cs) a b h s = omega lengths
Filled->> (more bs) (stop cs) a b h s = omega lengths
Filled->> (more bs) fault a b h s = tt
Filled->> (stop bs) k a b h s = omega arith
Filled->> fault k a b h s = tt

infixr 5 ◌▸◌
pub ◌▸◌ : {m k : Stored} {a b : ℕ} → Fills a m → Fills b k → Fills (a + b) (m >> k)
◌▸◌ {m} {k} {a} {b} (fills h) (fills s) = fills (Filled->> m k a b h s)

-- A sum that is written in another way.
pub sum : {m : Stored} {a b n : ℕ} → some b ≡ some n → Fills a m → a ≡ b → Fills n m
sum {m} {a} {b} {n} e h p = subst (λ c. Fills c m) (p ∙ some-injective _ _ e) h

pub pbit-Fills : (n v : ℕ) → Fills n (pbit n v)
pbit-Fills n v = fills (length-le_bytes n v)

pub memmove-Fills : (from : List ℕ) (n : ℕ) → Fills n (memmove from n)
unfolding memmove
memmove-Fills from n = elim (Bool-cases (ltb (length from) n)) [
  | inl e ↦ rw e (fills tt)
  | inr e ↦ rw e (fills (length-take n from (ltb→le _ _ e)))
]

pub memmove-take : (from : List ℕ) (n : ℕ) → n ≤ length from → memmove from n ≡ more (take n from)
unfolding memmove
memmove-take from n h = rw (le→ltb _ _ h)
