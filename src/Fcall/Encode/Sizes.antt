-- ===== src/Fcall/Encode/Sizes.antt =====
-- The size that is computed before the coding is the number of bytes that are stored.
use drawterm_android.Wire.{qidsz, u32, CharPtr, Qid}
use drawterm_android.Wire.Writer.{Stored, more, stop, fault}
use drawterm_android.Wire.Writer.Sizes.{
  Filled, Fills, fills, filled, ◌▸◌, sum, pbit-Fills, memmove-Fills,
}
use mathlib.Core.Option.{some-injective}
use mathlib.Core.Option
use drawterm_android.Base.{
  if◌then◌else◌, refl, ◌^◌, ◌<◌, ◌⊎◌, none, some, zero, [], ◌∷◌, ap, lengths, ltb, ◌∷◌, ◌≤◌, Option,
  arith, length, ◌*◌, ◌+◌, ◌≡◌, List, some, ℕ, suc,
}
use drawterm_android.Fcall.{some-injective, Fcall, Kind, kind_of}
use drawterm_android.Fcall.{
  tversion, rversion, tauth, rauth, tattach, rattach, rerror, tflush, twalk, rwalk, topen, ropen,
  tcreate, rcreate, tread, rread, twrite, rwrite, tclunk, tremove, tstat, rstat, twstat,
}
use drawterm_android.Fcall.Encode.{
  pstring, pqid, pstrings, pqids, at_most, put_body, put_message, body_size, stringsz, stringsz_all,
  conv_s2m, size_s2m, coded, Coded, header_size, put_case, put_sized, size_case,
}

pstring-Fills : (c : CharPtr) → Fills (stringsz c) (pstring c)
unfolding pstring stringsz
pstring-Fills none = pbit-Fills 2 0
pstring-Fills (some s) = fills (omega lengths)

pqid-Fills : (q : Qid) → Fills 13 (pqid q)
unfolding pqid
pqid-Fills q = pbit-Fills 1 q.type ▸ pbit-Fills 4 q.vers ▸ pbit-Fills 8 q.path

at_most-Fills : (max n : ℕ) → Fills 0 (at_most max n)
unfolding at_most
at_most-Fills max n = fills (ground arith)

pqids-Fills : (n : ℕ) (qs : List Qid) → Fills (n * qidsz) (pqids n qs)
unfolding pqids
pqids-Fills zero qs = fills (omega arith)
pqids-Fills (suc n) [] = fills tt
pqids-Fills (suc n) (q ∷ qs) = sum refl (pqid-Fills q ▸ pqids-Fills n qs) (omega arith)

map-eq_some :
    (g : ℕ → ℕ) (o : Option ℕ) (n : ℕ)
    → Option.map g o ≡ some n
    → (m : ℕ) × (o ≡ some m) × (g m ≡ n)
map-eq_some g none n e = absurd (ground arith)
map-eq_some g (some m) n e = (m, refl, some-injective _ _ e)

pstrings-Fills :
    (n : ℕ) (ws : List CharPtr) (size : ℕ)
    → stringsz_all n ws ≡ some size
    → Fills size (pstrings n ws)
unfolding stringsz_all pstrings
pstrings-Fills zero ws size e = sum e (fills refl) refl
pstrings-Fills (suc n) [] size e = fills tt
pstrings-Fills (suc n) (w ∷ ws) size e =
    let (m, rest, s) = map-eq_some _ _ size e in
    sum (ap some s) (pstring-Fills w ▸ pstrings-Fills n ws m rest) refl

pub put_body-Fills :
    (k : Kind) (f : Fcall) (n : ℕ) → body_size k f ≡ some n → Fills n (put_body k f)
unfolding put_body body_size
put_body-Fills tversion f n e = sum e (pbit-Fills 4 _ ▸ pstring-Fills f.version) refl
put_body-Fills rversion f n e = sum e (pbit-Fills 4 _ ▸ pstring-Fills f.version) refl
put_body-Fills tauth f n e =
    sum e (pbit-Fills 4 _ ▸ pstring-Fills f.uname ▸ pstring-Fills f.aname) (omega arith)
put_body-Fills rauth f n e = sum e (pqid-Fills f.aqid) refl
put_body-Fills tattach f n e =
    sum e (pbit-Fills 4 _ ▸ pbit-Fills 4 _ ▸ pstring-Fills f.uname ▸ pstring-Fills f.aname)
      (omega arith)
put_body-Fills rattach f n e = sum e (pqid-Fills f.qid) refl
put_body-Fills rerror f n e = sum e (pstring-Fills f.ename) refl
put_body-Fills tflush f n e = sum e (pbit-Fills 2 _) refl
put_body-Fills twalk f n e =
    let (m, names, s) = map-eq_some _ _ n e in
    sum (ap some s)
      (pbit-Fills 4 _
        ▸ pbit-Fills 4 _
        ▸ pbit-Fills 2 _
        ▸ at_most-Fills 16 f.nwname
        ▸ pstrings-Fills f.nwname f.wname m names)
      (omega arith)
put_body-Fills rwalk f n e =
    sum e (pbit-Fills 2 _ ▸ at_most-Fills 16 f.nwqid ▸ pqids-Fills f.nwqid f.wqid) (omega arith)
put_body-Fills topen f n e = sum e (pbit-Fills 4 _ ▸ pbit-Fills 1 _) refl
put_body-Fills ropen f n e = sum e (pqid-Fills f.qid ▸ pbit-Fills 4 _) refl
put_body-Fills tcreate f n e =
    sum e (pbit-Fills 4 _ ▸ pstring-Fills f.name ▸ pbit-Fills 4 _ ▸ pbit-Fills 1 _) (omega arith)
put_body-Fills rcreate f n e = sum e (pqid-Fills f.qid ▸ pbit-Fills 4 _) refl
put_body-Fills tread f n e = sum e (pbit-Fills 4 _ ▸ pbit-Fills 8 _ ▸ pbit-Fills 4 _) refl
put_body-Fills rread f n e = sum e (pbit-Fills 4 _ ▸ memmove-Fills f.text f.count) refl
put_body-Fills twrite f n e =
    sum e (pbit-Fills 4 _ ▸ pbit-Fills 8 _ ▸ pbit-Fills 4 _ ▸ memmove-Fills f.text f.count)
      (omega arith)
put_body-Fills rwrite f n e = sum e (pbit-Fills 4 _) refl
put_body-Fills tclunk f n e = sum e (pbit-Fills 4 _) refl
put_body-Fills tremove f n e = sum e (pbit-Fills 4 _) refl
put_body-Fills tstat f n e = sum e (pbit-Fills 4 _) refl
put_body-Fills rstat f n e = sum e (pbit-Fills 2 _ ▸ memmove-Fills f.stat f.nstat) refl
put_body-Fills twstat f n e =
    sum e (pbit-Fills 4 _ ▸ pbit-Fills 2 _ ▸ memmove-Fills f.stat f.nstat) (omega arith)
put_body-Fills _ f n e = sum e (fills refl) refl

put_message-Fills :
    (k : Kind) (f : Fcall) (size n : ℕ)
    → body_size k f ≡ some n
    → Fills (7 + n) (put_message k f size)
unfolding put_message
put_message-Fills k f size n e =
    sum refl (pbit-Fills 4 _ ▸ pbit-Fills 1 _ ▸ pbit-Fills 2 _ ▸ put_body-Fills k f n e)
      (omega arith)

coded-Filled :
    (m : Stored) (size : ℕ) (c : Coded)
    → Filled size m
    → coded size m ≡ some c
    → (length c.out ≤ size) × ((c.ret ≡ 0) ⊎ ((c.ret ≡ size) × (length c.out ≡ size)))
unfolding coded
coded-Filled (more bs) size c h e = ground arith
coded-Filled (stop bs) size c h e = ground arith
coded-Filled fault size c h e = absurd (ground arith)

-- `conv_s2m` on a known type whose strings can be measured.
pub conv_s2m_lem :
    (f : Fcall) (nap : ℕ) (k : Kind) (n : ℕ)
    → kind_of f.type ≡ some k
    → body_size k f ≡ some n
    → header_size + n < 2 ^ 32
    → conv_s2m f nap ≡ (
        if ltb nap (header_size + n)
        then some (record { ret = 0; out = [] })
        else coded (header_size + n) (put_message k f (header_size + n)))
unfolding conv_s2m size_s2m size_case put_case put_sized
conv_s2m_lem f nap k n known sized fits =
    rw (known, sized)
      (let e : u32 (header_size + n) ≡ header_size + n = omega arith in rw e (ground arith))

-- Where the true size of a message fits 32 bits, `conv_s2m` stores `nap` bytes at most on every
-- path, those that return 0 included; and it returns either 0 or the message's size, which is
-- then the number of the bytes stored.
pub conv_s2m_bounds :
    (f : Fcall) (nap : ℕ) (k : Kind) (n : ℕ) (c : Coded)
    → kind_of f.type ≡ some k
    → body_size k f ≡ some n
    → header_size + n < 2 ^ 32
    → conv_s2m f nap ≡ some c
    → (length c.out ≤ nap) × ((c.ret ≡ 0) ⊎ ((c.ret ≡ header_size + n) × (length c.out ≡ c.ret)))
conv_s2m_bounds f nap k n c known sized fits e = ground (
  arith,
  conv_s2m_lem f nap k n known sized fits,
  coded-Filled (put_message k f (header_size + n)) (header_size + n) c
      (filled (put_message-Fills k f (header_size + n) n sized)),
)
