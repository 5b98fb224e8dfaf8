-- ===== src/Dir/Check.antt =====
-- What `statcheck` promises to `conv_m2d`.
use mathlib.Core.Option
use mathlib.Core.Path.{subst}
use drawterm_android.Base.{
  length-take, refl, take-append-drop, [], take, ◌∷◌, drop, drop, drop, drop, drop, drop, drop,
  drop, sym, append_assoc, lengths, ◌∙◌, length-append, ap, split-append, split, split-some, arith,
  le_value, ◌+◌, ◌++◌, ◌≤◌, Bool, length, ◌≡◌, List, ℕ, zero, suc, some, true, drop-append,
}
use drawterm_android.Wire.{CharPtr}
use drawterm_android.Wire.Reader.{read, ok, c_string, gbit}
use drawterm_android.Wire.Reader.Steps.{given, Gives, ◌▸⟨◌⟩◌, done, need_lem, read_lem}
use drawterm_android.Dir.{Dir}
use drawterm_android.Dir.Decode.{
  parsed, stat_count, conv_m2d, get_dir, get_fixed, statcheck, Sink, get_string, gbit16_at,
  stat_loop,
}

-- The loop never passes the end of an entry that it accepts.
stat_loop-le : (buf : List ℕ) (n pos : ℕ) → stat_loop buf n pos ≡ some true → pos ≤ length buf
unfolding stat_loop
stat_loop-le buf zero pos e = ground arith
stat_loop-le buf (suc n) pos e = ground arith

-- A count inside the buffer is read.
pub gbit16_at_lem :
    (front cs q : List ℕ)
    → length cs ≡ 2
    → gbit16_at (front ++ (cs ++ q)) (length front) ≡ some (le_value cs)
unfolding gbit16_at
gbit16_at_lem front cs q l = rw drop-append (
    let e : split 2 (cs ++ q) ≡ some (cs, q) = rw l at (split-append cs q) in
    ap (Option.map (λ (t : List ℕ × List ℕ). le_value t.0)) e)

-- `gbit` without the value being coded: any two bytes.
gbit_any :
    {S : Type 0} (n : ℕ) (cs : List ℕ) {rest : List ℕ} {f : S}
    → length cs ≡ n
    → Gives (gbit n) (cs ++ rest) f (ok (le_value cs) rest f)
unfolding gbit
gbit_any n cs l = read_lem n cs l ▸⟨ _ ⟩ done

stat_loop_step :
    (buf : List ℕ) (n pos ns : ℕ)
    → gbit16_at buf pos ≡ some ns
    → stat_loop buf (suc n) pos ≡ some true
    → stat_loop buf n (pos + (2 + ns)) ≡ some true
unfolding stat_loop
stat_loop_step buf n pos ns e h = ground arith

stat_loop_room :
    (buf : List ℕ) (n pos : ℕ) → stat_loop buf (suc n) pos ≡ some true → pos + 2 ≤ length buf
unfolding stat_loop
stat_loop_room buf n pos h = ground arith

-- The step has gone on to `p'`, and the loop accepts what is left from there.
record Advance (buf : List ℕ) (n : ℕ) (p : List ℕ) : Type 0 where
  front : List ℕ
  whole : buf ≡ front ++ p
  accepted : stat_loop buf n (length front) ≡ some true

-- What a read leaves, by position.
read-drop :
    {S : Type 0} (n : ℕ) {p : List ℕ} {f : S}
    → n ≤ length p
    → Gives (read n) p f (ok (take n p) (drop n p) f)
read-drop n {p} {f} h =
    rw (take-append-drop n p) at
      (read_lem n (take n p) {rest = drop n p} {f = f} (length-take n p h))

gbit-drop :
    {S : Type 0} (n : ℕ) {p : List ℕ} {f : S}
    → n ≤ length p
    → Gives (gbit n) p f (ok (le_value (take n p)) (drop n p) f)
unfolding gbit
gbit-drop n h = read-drop n h ▸⟨ _ ⟩ done

drop-drop : (m n : ℕ) (xs : List ℕ) → drop n (drop m xs) ≡ drop (m + n) xs
drop-drop zero n xs = let e : n ≡ 0 + n = omega arith in ap (λ t. drop t xs) e
drop-drop (suc m) zero [] = let e : suc m ≡ suc m + 0 = omega arith in ap (λ t. drop t []) e
drop-drop (suc m) (suc n) [] =
    let e : suc (m + suc n) ≡ suc m + suc n = omega arith in ap (λ t. drop t []) e
drop-drop (suc m) n (x ∷ xs) =
    let e : suc (m + n) ≡ suc m + n = omega arith in drop-drop m n xs ∙ ap (λ t. drop t (x ∷ xs)) e

get_fixed_any :
    (p : List ℕ) (s : Sink)
    → 41 ≤ length p
    → (p' : List ℕ) × (s' : Sink) × Gives get_fixed p s (ok tt p' s') × (p' ≡ drop 41 p)
unfolding get_fixed
get_fixed_any p s h = (
  _,
  _,
  read-drop 2 (omega arith)
      ▸⟨ _ ⟩ gbit-drop 2 (omega lengths)
      ▸⟨ _ ⟩ done
      ▸⟨ _ ⟩ gbit-drop 4 (omega lengths)
      ▸⟨ _ ⟩ done
      ▸⟨ _ ⟩ gbit-drop 1 (omega lengths)
      ▸⟨ _ ⟩ done
      ▸⟨ _ ⟩ gbit-drop 4 (omega lengths)
      ▸⟨ _ ⟩ done
      ▸⟨ _ ⟩ gbit-drop 8 (omega lengths)
      ▸⟨ _ ⟩ done
      ▸⟨ _ ⟩ gbit-drop 4 (omega lengths)
      ▸⟨ _ ⟩ done
      ▸⟨ _ ⟩ gbit-drop 4 (omega lengths)
      ▸⟨ _ ⟩ done
      ▸⟨ _ ⟩ gbit-drop 4 (omega lengths)
      ▸⟨ _ ⟩ done
      ▸⟨ _ ⟩ gbit-drop 8 (omega lengths)
      ▸⟨ _ ⟩ done,
  simp drop-drop,
)

empty : (p : List ℕ) → length p ≡ 0 → p ≡ []
empty [] h = refl
empty (x ∷ p) h = absurd (omega arith)

end :
    (buf front p : List ℕ)
    → buf ≡ front ++ p
    → stat_loop buf 0 (length front) ≡ some true
    → length p ≡ 0
unfolding stat_loop
end buf front p e h = ground (arith, ap length e, length-append front p)

statcheck_parts :
    (buf : List ℕ)
    → statcheck buf ≡ some true
    → (49 ≤ length buf) × (stat_loop buf 4 41 ≡ some true)
unfolding statcheck stat_count
statcheck_parts buf h = ground arith

module _ (has_strs : Bool) where
  -- A round of the reader, on a string that is inside the buffer.
  get_string_any :
      (cs bs r : List ℕ) (s : Sink)
      → length cs ≡ 2
      → length bs ≡ le_value cs
      → (s' : Sink) × Gives (get_string has_strs) (cs ++ (bs ++ r)) s (ok (some (c_string bs)) r s')
  unfolding get_string
  get_string_any cs bs r s lc lb = (
    _,
    need_lem 2 (omega (lengths, lc))
        ▸⟨ _ ⟩ gbit_any 2 cs lc
        ▸⟨ _ ⟩ need_lem (le_value cs) (omega (lengths, lb))
        ▸⟨ _ ⟩ read_lem (le_value cs) bs lb
        ▸⟨ _ ⟩ done
        ▸⟨ _ ⟩ done,
  )

  Round : List ℕ → ℕ → List ℕ → Sink → Type 0
  Round buf n p s =
      (p' : List ℕ) × (c : CharPtr) × (s' : Sink) × Gives (get_string has_strs) p s (ok c p' s')
      × Advance buf n p'

  -- The round, where the count `cs` and the string `bs` have been found.
  found :
      (buf : List ℕ) (n : ℕ) (s : Sink) (front cs bs r : List ℕ)
      → buf ≡ front ++ (cs ++ (bs ++ r))
      → length cs ≡ 2
      → length bs ≡ le_value cs
      → stat_loop buf n (length front + (2 + le_value cs)) ≡ some true
      → Round buf n (cs ++ (bs ++ r)) s
  unfolding Round
  found buf n s front cs bs r e lc lb next =
      let (s', g) = get_string_any cs bs r s lc lb in
      let long : length front + (2 + le_value cs) ≡ length (front ++ (cs ++ bs)) =
        omega (lengths, lc, lb) in
      (
        r,
        some (c_string bs),
        s',
        g,
        record {
          front = front ++ (cs ++ bs);
          whole = e ∙ simp append_assoc;
          accepted = rw long at next;
        },
      )

  -- A round of `statcheck`'s loop allows the same round of `conv_m2d`.
  round : (buf : List ℕ) (n : ℕ) (p : List ℕ) (s : Sink) → Advance buf (suc n) p → Round buf n p s
  round buf n p s a =
      let here = length a.front in
      let room = stat_loop_room buf n here a.accepted in
      let (cs, q, _, lc, eq) =
        split-some 2 p (omega (arith, ap length a.whole, length-append a.front p)) in
      let whole : buf ≡ a.front ++ (cs ++ q) = a.whole ∙ ap (λ t. a.front ++ t) eq in
      let count : gbit16_at buf here ≡ some (le_value cs) =
        ap (λ t. gbit16_at t here) whole ∙ gbit16_at_lem a.front cs q lc in
      let next = stat_loop_step buf n here (le_value cs) count a.accepted in
      let inside = stat_loop-le buf n (here + (2 + le_value cs)) next in
      let (bs, r, _, lb, eq') =
        split-some (le_value cs) q
          (omega (arith, ap length whole, length-append a.front (cs ++ q), length-append cs q)) in
      let rest : cs ++ q ≡ cs ++ (bs ++ r) = ap (λ t. cs ++ t) eq' in
      subst (λ t. Round buf n t s) (sym (eq ∙ rest))
        (found buf n s a.front cs bs r (whole ∙ ap (λ t. a.front ++ t) rest) lc lb next)

  -- The four rounds after the fixed fields use the buffer up.
  get_dir_any :
      (buf : List ℕ) (s : Sink)
      → 49 ≤ length buf
      → stat_loop buf 4 41 ≡ some true
      → (s' : Sink) × Gives (get_dir has_strs) buf s (ok tt [] s')
  unfolding get_dir Round stat_loop
  get_dir_any buf s long accepted =
      let (p0, s0, fixed, at) = get_fixed_any buf s (omega arith) in
      let start : Advance buf 4 p0 = record {
        front = take 41 buf;
        whole = sym (take-append-drop 41 buf) ∙ ap (λ t. take 41 buf ++ t) (sym at);
        accepted = rw (length-take 41 buf (omega arith)) accepted;
      } in
      let (p1, c1, s1, g1, a1) = round buf 3 p0 s0 start in
      let (p2, c2, s2, g2, a2) = round buf 2 p1 s1 a1 in
      let (p3, c3, s3, g3, a3) = round buf 1 p2 s2 a2 in
      let (p4, c4, s4, g4, a4) = round buf 0 p3 s3 a3 in
      let over : p4 ≡ [] = empty p4 (end buf a4.front p4 a4.whole a4.accepted) in
      (
        _,
        need_lem 49 long
            ▸⟨ _ ⟩ fixed
            ▸⟨ _ ⟩ g1
            ▸⟨ _ ⟩ g2
            ▸⟨ _ ⟩ g3
            ▸⟨ _ ⟩ subst (λ t. Gives (get_string has_strs) p3 s3 (ok c4 t s4)) over g4
            ▸⟨ _ ⟩ done,
      )

-- A buffer that `statcheck` accepts is read by `conv_m2d` to its last byte, with or without room
-- for the strings.
pub conv_m2d-statcheck :
    (buf : List ℕ) (d : Dir) (has_strs : Bool)
    → statcheck buf ≡ some true
    → (s : Sink) × (conv_m2d buf d has_strs ≡ some (record { ret = length buf; sink = s }))
unfolding conv_m2d parsed
conv_m2d-statcheck buf d has_strs h =
    let (long, accepted) = statcheck_parts buf h in
    let (s, g) = get_dir_any has_strs buf (record { dir = d; strs = [] }) long accepted in
    (s, rw (given g, parsed) (ground arith))
