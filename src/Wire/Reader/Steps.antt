-- ===== src/Wire/Reader/Steps.antt =====
-- What the steps of a reader do on the bytes of a value.
use drawterm_android.Base.{
  le_value-le_bytes, arith, length-le_bytes, le→ltb, split-append, ◌^◌, All, le_bytes, length, ◌++◌,
  ◌<◌, ◌≡◌, ◌≤◌, List, ℕ, [], ◌∷◌, refl,
}
use drawterm_android.Wire.Reader.{Outcome, ok, M, ◌>>=◌, need, refuse_above, read, gbit, c_string}

-- What a step does at `p` and `f`.
pub data Gives {S A : Type 0} (m : M S A) (p : List ℕ) (f : S) (r : Outcome S A) : Type 0 where
  gives : m p f ≡ r → Gives m p f r

pub given :
    {S A : Type 0} {m : M S A} {p : List ℕ} {f : S} {r : Outcome S A} → Gives m p f r → m p f ≡ r
given (gives e) = e

-- A step that goes on, and what follows it.
infixr 5 ◌▸⟨◌⟩◌
pub ◌▸⟨◌⟩◌ :
    {S A B : Type 0} {m : M S A} {p p' : List ℕ} {f f' : S} {a : A} {r : Outcome S B}
    → Gives m p f (ok a p' f')
    → (next : A → M S B) → Gives (next a) p' f' r
    → Gives (m >>= next) p f r
unfolding ◌>>=◌
(gives e) ▸⟨ next ⟩ (gives h) = gives (rw (e, ◌>>=◌) h)

pub done : {S A : Type 0} {m : M S A} {p : List ℕ} {f : S} → Gives m p f (m p f)
done = gives refl

pub need_lem :
    {S : Type 0} (n : ℕ) {p : List ℕ} {f : S} → n ≤ length p → Gives (need n) p f (ok tt p f)
unfolding need
need_lem n h = gives (rw (le→ltb _ _ h))

pub refuse_above_lem :
    {S : Type 0} (max n : ℕ) {p : List ℕ} {f : S}
    → n ≤ max
    → Gives (refuse_above max n) p f (ok tt p f)
unfolding refuse_above
refuse_above_lem max n h = gives (rw (le→ltb _ _ h))

pub read_lem :
    {S : Type 0} (n : ℕ) (bs : List ℕ) {rest : List ℕ} {f : S}
    → length bs ≡ n
    → Gives (read n) (bs ++ rest) f (ok bs rest f)
unfolding read
read_lem n bs {rest} l = gives (rw (← l) (rw (split-append bs rest, read)))

pub gbit_lem :
    {S : Type 0} (n v : ℕ) {rest : List ℕ} {f : S}
    → v < 256 ^ n
    → Gives (gbit n) (le_bytes n v ++ rest) f (ok v rest f)
unfolding gbit
gbit_lem n v h =
    read_lem n (le_bytes n v) (length-le_bytes n v) ▸⟨ _ ⟩ gives (rw (le_value-le_bytes n v h))

pub c_string_lem : (s : List ℕ) → All (λ b. 0 < b) s → c_string s ≡ s
unfolding c_string
c_string_lem [] h = refl
c_string_lem (b ∷ s) h = ground (arith, c_string_lem s h.1)
