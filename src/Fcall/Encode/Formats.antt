-- ===== src/Fcall/Encode/Formats.antt =====
-- `put_body` stores the format of the table, for every message whose fields are in range.
use drawterm_android.Wire.{CharPtr, Qid}
use drawterm_android.Wire.Writer.{more}
use drawterm_android.Wire.Writer.Sizes.{filled, memmove-take}
use drawterm_android.Fcall.Encode.Sizes.{put_body-Fills}
use drawterm_android.Base.{
  sym, ap, ◌+◌, ◌∙◌, take, length, le→ltb, arith, ◌≤◌, List, ℕ, ◌≡◌, none, some, zero, suc, [], ◌∷◌,
  refl,
}
use drawterm_android.Fcall.{Fcall, Kind}
use drawterm_android.Fcall.{
  tversion, rversion, tauth, rauth, tattach, rattach, rerror, twalk, rwalk, ropen, tcreate, rcreate,
  rread, twrite, rstat, twstat,
}
use drawterm_android.Fcall.Layout.{layout, IsSendable, str, strs, qid_bytes, qids_bytes}
use drawterm_android.Fcall.Encode.{
  stringsz, body_size, stringsz_all, pstring, pqid, pstrings, pqids, at_most, put_body,
}

pstring-str : (c : CharPtr) → pstring c ≡ more (str c)
unfolding pstring
pstring-str none = refl
pstring-str (some s) = refl

pqid-bytes : (q : Qid) → pqid q ≡ more (qid_bytes q)
unfolding pqid
pqid-bytes q = refl

at_most_lem : (max n : ℕ) → n ≤ max → at_most max n ≡ more []
unfolding at_most
at_most_lem max n h = rw (le→ltb _ _ h)

pstrings-strs :
    (n : ℕ) (ws : List CharPtr) → n ≤ length ws → pstrings n ws ≡ more (strs (take n ws))
unfolding pstrings
pstrings-strs zero ws h = refl
pstrings-strs (suc n) [] h = elim h [ ]
pstrings-strs (suc n) (w ∷ ws) h = simp (pstring-str, pstrings-strs n ws (omega arith))

pqids-bytes : (n : ℕ) (qs : List Qid) → n ≤ length qs → pqids n qs ≡ more (qids_bytes (take n qs))
unfolding pqids
pqids-bytes zero qs h = refl
pqids-bytes (suc n) [] h = elim h [ ]
pqids-bytes (suc n) (q ∷ qs) h = simp (pqid-bytes, pqids-bytes n qs (omega arith))

pub put_body-layout : (k : Kind) (f : Fcall) → IsSendable k f → put_body k f ≡ more (layout k f)
unfolding put_body
put_body-layout tversion f h = simp pstring-str
put_body-layout rversion f h = simp pstring-str
put_body-layout tauth f h = simp pstring-str
put_body-layout rauth f h = simp pqid-bytes
put_body-layout tattach f h = simp pstring-str
put_body-layout rattach f h = simp pqid-bytes
put_body-layout rerror f h = simp pstring-str
put_body-layout twalk f h =
    simp (at_most_lem 16 f.nwname (omega arith), pstrings-strs f.nwname f.wname (omega arith))
put_body-layout rwalk f h =
    simp (at_most_lem 16 f.nwqid (omega arith), pqids-bytes f.nwqid f.wqid (omega arith))
put_body-layout ropen f h = simp pqid-bytes
put_body-layout tcreate f h = simp pstring-str
put_body-layout rcreate f h = simp pqid-bytes
put_body-layout rread f h = simp (memmove-take f.text f.count (omega arith))
put_body-layout twrite f h = simp (memmove-take f.text f.count (omega arith))
put_body-layout rstat f h = simp (memmove-take f.stat f.nstat (omega arith))
put_body-layout twstat f h = simp (memmove-take f.stat f.nstat (omega arith))
put_body-layout _ f h = refl

stringsz_all-some :
    (n : ℕ) (ws : List CharPtr) → n ≤ length ws → (m : ℕ) × (stringsz_all n ws ≡ some m)
unfolding stringsz_all
stringsz_all-some zero ws h = (0, refl)
stringsz_all-some (suc n) [] h = elim h [ ]
stringsz_all-some (suc n) (w ∷ ws) h =
    let (m, e) = stringsz_all-some n ws (omega arith) in (stringsz w + m, rw e)

body_size-some : (k : Kind) (f : Fcall) → IsSendable k f → (n : ℕ) × (body_size k f ≡ some n)
unfolding body_size
body_size-some twalk f h =
    let (m, e) = stringsz_all-some f.nwname f.wname (omega arith) in (10 + m, rw e)
body_size-some _ f h = (_, refl)

pub body_size-layout :
    (k : Kind) (f : Fcall) → IsSendable k f → body_size k f ≡ some (length (layout k f))
body_size-layout k f h =
    let (n, e) = body_size-some k f h in
    e ∙ ap some (sym (filled (rw (put_body-layout k f h) at (put_body-Fills k f n e))))
