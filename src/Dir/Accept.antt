-- ===== src/Dir/Accept.antt =====
-- `statcheck` reads inside the buffer, and accepts what `conv_d2m` codes.
use mathlib.Core.Option
use drawterm_android.Base.{
  append_assoc, le_value, le_value-le_bytes, ltb→le, ap, inr, lengths, drop, inl,
  length-append_bytes, ◌∙◌, arith, length-le_bytes, ltb, split-some, Bool-cases, ◌++◌, ◌^◌, ◌≤◌,
  All, length, ◌+◌, ◌<◌, ◌≢◌, le_bytes, ℕ, List, ◌≡◌, refl, zero, suc, some, none, [], ◌∷◌, true,
  sym, append-nil, ◌-◌,
}
use drawterm_android.Wire.{CharPtr}
use drawterm_android.Fcall.Layout.{str, strs, IsText}
use drawterm_android.Dir.{Dir, strings}
use drawterm_android.Dir.Encode.{size_d2m, conv_d2m}
use drawterm_android.Dir.Decode.{gbit16_at, stat_loop, stat_count, statcheck}
use drawterm_android.Dir.RoundTrip.{
  IsEntry, entry, fixed_bytes, length-entry, conv_d2m-entry, size_d2m-le,
}
use drawterm_android.Dir.Check.{gbit16_at_lem}

gbit16_at-some :
    (buf : List ℕ) (pos : ℕ) → pos + 2 ≤ length buf → (v : ℕ) × (gbit16_at buf pos ≡ some v)
unfolding gbit16_at
gbit16_at-some buf pos h =
    let (front, back, e, _, _) = split-some 2 (drop pos buf) (omega lengths) in
    (le_value front, ap (Option.map (λ (t : List ℕ × List ℕ). le_value t.0)) e)

stat_loop_total : (buf : List ℕ) (n pos : ℕ) → stat_loop buf n pos ≢ none
unfolding stat_loop
stat_loop_total buf zero pos e = cc
stat_loop_total buf (suc n) pos e = elim (Bool-cases (ltb (length buf) (pos + 2))) [
  | inl out ↦ ground arith
  | inr within ↦
      let (v, at) = gbit16_at-some buf pos (ltb→le _ _ within) in
      ground (arith, stat_loop_total buf n (pos + (2 + v)))
]

-- `statcheck` never reads outside the buffer, whatever the counts in it say.
pub statcheck_total : (buf : List ℕ) → statcheck buf ≢ none
unfolding statcheck stat_count
statcheck_total buf e = elim (Bool-cases (ltb (length buf) 49)) [
  | inl short ↦ ground arith
  | inr long ↦
      let (v, at) = gbit16_at-some buf 0 (omega (arith, ltb→le _ _ long)) in
      ground (arith, stat_loop_total buf 4 41)
]

gbit16_at-le_bytes :
    (front : List ℕ) (v : ℕ) (rest : List ℕ)
    → v < 2 ^ 16
    → gbit16_at (front ++ (le_bytes 2 v ++ rest)) (length front) ≡ some v
gbit16_at-le_bytes front v rest h =
    gbit16_at_lem front (le_bytes 2 v) rest (length-le_bytes 2 v)
    ∙ ap some (le_value-le_bytes 2 v h)

chars : CharPtr → List ℕ
chars none = []
chars (some s) = s

str-chars :
    (c : CharPtr)
    → IsText c
    → (str c ≡ le_bytes 2 (length (chars c)) ++ chars c) × (length (chars c) < 2 ^ 16)
unfolding chars
str-chars none h = (sym (append-nil (le_bytes 2 0)), omega arith)
str-chars (some s) h = (refl, h.0)

stat_loop_forward :
    (buf : List ℕ) (n pos v : ℕ)
    → pos + 2 ≤ length buf
    → gbit16_at buf pos ≡ some v
    → stat_loop buf n (pos + (2 + v)) ≡ some true
    → stat_loop buf (suc n) pos ≡ some true
unfolding stat_loop
stat_loop_forward buf n pos v h e r = ground arith

-- The loop goes over the strings and stops at the end.
stat_loop-strs :
    (ss : List CharPtr) (front : List ℕ)
    → All IsText ss
    → stat_loop (front ++ strs ss) (length ss) (length front) ≡ some true
stat_loop-strs [] front h = unfold stat_loop in ground (arith, length-append_bytes front [])
stat_loop-strs (c ∷ cs) front h =
    let (e, fits) = str-chars c h.0 in
    let body = chars c in
    let buf : List ℕ = front ++ (le_bytes 2 (length body) ++ (body ++ strs cs)) in
    let whole : front ++ (str c ++ strs cs) ≡ buf =
      rw e (ap (λ t. front ++ t) (append_assoc (le_bytes 2 (length body)) body (strs cs))) in
    let ih = stat_loop-strs cs (front ++ str c) h.1 in
    let long : length (front ++ str c) ≡ length front + (2 + length body) =
      omega (lengths, ap length e) in
    let ih' : stat_loop buf (length cs) (length front + (2 + length body)) ≡ some true =
      rw (append_assoc front (str c) (strs cs), whole, long) at ih in
    rw whole (
      stat_loop_forward buf (length cs) (length front) (length body) (omega lengths)
        (gbit16_at-le_bytes front (length body) (body ++ strs cs) fits) ih')

statcheck-entry : (d : Dir) → IsEntry d → size_d2m d < 2 ^ 16 + 2 → statcheck (entry d) ≡ some true
unfolding statcheck stat_count
statcheck-entry d h small =
    let low = size_d2m-le d in
    let head : List ℕ = le_bytes 2 (size_d2m d - 2) in
    let count : gbit16_at (entry d) 0 ≡ some (size_d2m d - 2) =
      gbit16_at-le_bytes [] (size_d2m d - 2) (fixed_bytes d ++ strs (strings d)) (omega arith) in
    let at : length (head ++ fixed_bytes d) ≡ 41 = omega lengths in
    let loop =
      stat_loop-strs (strings d) (head ++ fixed_bytes d)
        (h.name_fits, (h.uid_fits, (h.gid_fits, (h.muid_fits, tt)))) in
    let loop' : stat_loop (entry d) 4 41 ≡ some true =
      rw (append_assoc head (fixed_bytes d) (strs (strings d)), at) at loop in
    ground (arith, length-entry d, count, loop')

-- An entry that `conv_d2m` codes, of a size that its 16-bit count can state, passes `statcheck`.
pub statcheck-conv_d2m :
    (d : Dir) (nbuf : ℕ)
    → IsEntry d
    → size_d2m d ≤ nbuf
    → size_d2m d < 2 ^ 16 + 2
    → statcheck (conv_d2m d nbuf).out ≡ some true
statcheck-conv_d2m d nbuf h room small = rw (conv_d2m-entry d nbuf room) (statcheck-entry d h small)
