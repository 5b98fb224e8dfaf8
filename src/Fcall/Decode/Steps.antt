-- ===== src/Fcall/Decode/Steps.antt =====
-- What the steps of `conv_m2s` do on the bytes of a value.
use drawterm_android.Wire.{CharPtr, Qid}
use drawterm_android.Wire.Reader.{ok, c_string}
use drawterm_android.Wire.Reader.Steps.{
  ◌▸⟨◌⟩◌, Gives, gives, done, need_lem, gbit_lem, read_lem, c_string_lem,
}
use mathlib.Core.List.{map}
use drawterm_android.Base.{
  sym, set-append, overwrite, ◌∙◌, ap, length-append, set, suc, length-take, append_assoc, arith,
  lengths, take, ◌^◌, All, le_bytes, length, ◌++◌, ◌<◌, ◌≡◌, ◌≤◌, List, ℕ, none, some, [], ◌∷◌,
  refl,
}
use drawterm_android.Fcall.{Fcall}
use drawterm_android.Fcall.Layout.{qids_bytes, strs, str, qid_bytes, IsText, IsQid, received}
use drawterm_android.Fcall.Decode.{
  gqids, gstrings, gstring, gqid, get_fid, get_count, get_text, get_stat,
}

pub gstring_lem :
    (c : CharPtr) {rest : List ℕ} {f : Fcall}
    → IsText c
    → Gives gstring (str c ++ rest) f (ok (received c) rest f)
unfolding gstring c_string
gstring_lem none {rest} h =
    need_lem 2 (omega lengths)
    ▸⟨ _ ⟩ gbit_lem 2 0 (omega arith)
    ▸⟨ _ ⟩ need_lem 0 (omega arith)
    ▸⟨ _ ⟩ read_lem 0 [] {rest = rest} refl
    ▸⟨ _ ⟩ done
gstring_lem (some s) h = simp append_assoc (
    need_lem 2 (omega lengths)
    ▸⟨ _ ⟩ gbit_lem 2 (length s) (omega arith)
    ▸⟨ _ ⟩ need_lem (length s) (omega lengths)
    ▸⟨ _ ⟩ read_lem (length s) s refl
    ▸⟨ _ ⟩ gives (rw (c_string_lem s h.1)))

pub gqid_lem :
    (q : Qid) {rest : List ℕ} {f : Fcall}
    → IsQid q
    → Gives gqid (qid_bytes q ++ rest) f (ok q rest f)
unfolding gqid
gqid_lem q h = simp append_assoc (
    need_lem 13 (omega lengths)
    ▸⟨ _ ⟩ gbit_lem 1 q.type (omega arith)
    ▸⟨ _ ⟩ gbit_lem 4 q.vers (omega arith)
    ▸⟨ _ ⟩ gbit_lem 8 q.path (omega arith)
    ▸⟨ _ ⟩ done)

pub get_fid_lem :
    (v : ℕ) {p : List ℕ} {f : Fcall}
    → v < 2 ^ 32
    → Gives get_fid (le_bytes 4 v ++ p) f (ok tt p (record f { fid = v }))
unfolding get_fid
get_fid_lem v h = gbit_lem 4 v h ▸⟨ _ ⟩ done

pub get_text_lem :
    (n : ℕ) (xs : List ℕ) {p : List ℕ} {f : Fcall}
    → n < 2 ^ 32
    → n ≤ length xs
    → Gives get_text
        (le_bytes 4 n ++ (take n xs ++ p))
        f
        (ok tt p (record f { count = n; text = take n xs }))
unfolding get_text get_count
get_text_lem n xs h l =
    (gbit_lem 4 n h ▸⟨ _ ⟩ done ▸⟨ _ ⟩ done)
    ▸⟨ _ ⟩ need_lem n (omega (lengths, length-take n xs l))
    ▸⟨ _ ⟩ read_lem n (take n xs) (length-take n xs l)
    ▸⟨ _ ⟩ done

pub get_stat_lem :
    (n : ℕ) (xs : List ℕ) {p : List ℕ} {f : Fcall}
    → n < 2 ^ 16
    → n ≤ length xs
    → Gives get_stat
        (le_bytes 2 n ++ (take n xs ++ p))
        f
        (ok tt p (record f { nstat = n; stat = take n xs }))
unfolding get_stat
get_stat_lem n xs h l =
    gbit_lem 2 n h
    ▸⟨ _ ⟩ done
    ▸⟨ _ ⟩ need_lem n (omega (lengths, length-take n xs l))
    ▸⟨ _ ⟩ read_lem n (take n xs) (length-take n xs l)
    ▸⟨ _ ⟩ done

-- One round of a loop over an array: the element behind `front` is set.
set-front {ℓ} :
    {A : Type ℓ} (xs front old : List A) (x v : A)
    → xs ≡ front ++ (x ∷ old)
    → set xs (length front) v ≡ (front ++ (v ∷ [])) ++ old
set-front xs front old x v e =
    ap (λ t. set t (length front) v) e
    ∙ set-append front (x ∷ old) v
    ∙ sym (append_assoc front (v ∷ []) old)

length-snoc {ℓ} : {A : Type ℓ} (xs : List A) (v : A) → length (xs ++ (v ∷ [])) ≡ suc (length xs)
length-snoc xs v = omega (arith, length-append xs (v ∷ []))

pub gstrings_lem :
    (ws front old : List CharPtr) (i : ℕ) {rest : List ℕ} (f : Fcall)
    → All IsText ws
    → length ws ≤ length old
    → f.wname ≡ front ++ old
    → length front ≡ i
    → Gives
        (gstrings i (length ws))
        (strs ws ++ rest)
        f
        (ok tt rest (record f { wname = front ++ overwrite (map received ws) old }))
unfolding gstrings
gstrings_lem [] front old i {rest} f h le e l =
    gives (ap (λ t. ok tt rest (record f { wname = t })) e)
gstrings_lem (w ∷ ws) front [] i f h le e l = elim le [ ]
gstrings_lem (w ∷ ws) front (x ∷ old) i {rest} f h le e l =
    let v = received w in
    let f1 : Fcall = record f { wname = set f.wname i v } in
    let e1 : f1.wname ≡ (front ++ (v ∷ [])) ++ old = rw (← l) (set-front f.wname front old x v e) in
    let ih =
      gstrings_lem ws (front ++ (v ∷ [])) old (suc i) {rest = rest} f1 h.1 (omega arith) e1
        (length-snoc front v ∙ ap suc l) in
    rw (append_assoc (str w) (strs ws) rest) (
      gstring_lem w h.0
      ▸⟨ _ ⟩ done
      ▸⟨ _ ⟩ (rw (append_assoc front (v ∷ []) (overwrite (map received ws) old)) at ih))

pub gqids_lem :
    (qs front old : List Qid) (i : ℕ) {rest : List ℕ} (f : Fcall)
    → All IsQid qs
    → length qs ≤ length old
    → f.wqid ≡ front ++ old
    → length front ≡ i
    → Gives
        (gqids i (length qs))
        (qids_bytes qs ++ rest)
        f
        (ok tt rest (record f { wqid = front ++ overwrite qs old }))
unfolding gqids
gqids_lem [] front old i {rest} f h le e l = gives (ap (λ t. ok tt rest (record f { wqid = t })) e)
gqids_lem (q ∷ qs) front [] i f h le e l = elim le [ ]
gqids_lem (q ∷ qs) front (x ∷ old) i {rest} f h le e l =
    let f1 : Fcall = record f { wqid = set f.wqid i q } in
    let e1 : f1.wqid ≡ (front ++ (q ∷ [])) ++ old = rw (← l) (set-front f.wqid front old x q e) in
    let ih =
      gqids_lem qs (front ++ (q ∷ [])) old (suc i) {rest = rest} f1 h.1 (omega arith) e1
        (length-snoc front q ∙ ap suc l) in
    rw (append_assoc (qid_bytes q) (qids_bytes qs) rest) (
      gqid_lem q h.0 ▸⟨ _ ⟩ done ▸⟨ _ ⟩ (rw (append_assoc front (q ∷ []) (overwrite qs old)) at ih))
