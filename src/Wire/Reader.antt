-- ===== src/Wire/Reader.antt =====
-- Reading a buffer, as libc/convM2S.c and libc/convM2D.c do it with the macros GBIT8 to GBIT64 of
-- include/fcall.h. A step has the bytes from `p` up to the end of the buffer, and the structure
-- `f` of type `S`, whose fields are set one by one.
pub mod Safe
pub mod Steps
use drawterm_android.Base.{
  ℕ, ltb, ◌==◌, if◌then◌else◌, none, some, List, [], ◌∷◌, length, split, le_value,
}

-- `fail` is `return 0`, or a nil `p`, which leads to it; `fault` is a read at `ep` or behind it.
pub data Outcome (S A : Type 0) : Type 0 where
  ok : A → List ℕ → S → Outcome S A
  fail : S → Outcome S A
  fault : Outcome S A

abbrev pub M : Type 0 → Type 0 → Type 0
M S A = List ℕ → S → Outcome S A

infixl 5 ◌>>=◌ ◌>>◌
unfoldable pub ◌>>=◌ : {S A B : Type 0} → M S A → (A → M S B) → M S B
◌>>=◌ m k p f = elim (m p f) [ ok a p' f' ↦ k a p' f' | fail f' ↦ fail f' | fault ↦ fault ]

abbrev pub ◌>>◌ : {S B : Type 0} → M S (Unit {0}) → M S B → M S B
m >> k = m >>= λ _. k

abbrev pub return : {S A : Type 0} → A → M S A
return a p f = ok a p f

-- `if(p + n > ep) return`
unfoldable pub need : {S : Type 0} → ℕ → M S (Unit {0})
need n p f = if ltb (length p) n then fail f else ok tt p f

-- `if(n > max) return 0;`
unfoldable pub refuse_above : {S : Type 0} → ℕ → ℕ → M S (Unit {0})
refuse_above max n p f = if ltb max n then fail f else ok tt p f

unfoldable pub read : {S : Type 0} → ℕ → M S (List ℕ)
read n p f = elim (split n p) [ none ↦ fault | some (bs, p') ↦ ok bs p' f ]

-- GBIT8 to GBIT64 and the step behind them: the argument is the width in bytes.
unfoldable pub gbit : {S : Type 0} → ℕ → M S ℕ
gbit n = do bs ← read n; return (le_value bs)

-- Sets fields of the structure.
abbrev pub assign : {S : Type 0} → (S → S) → M S (Unit {0})
assign g p f = ok tt p (g f)

-- What a reader of a `char*` finds there: the bytes before the first NUL.
unfoldable pub c_string : List ℕ → List ℕ
c_string [] = []
c_string (b ∷ bs) = if b == 0 then [] else b ∷ c_string bs
