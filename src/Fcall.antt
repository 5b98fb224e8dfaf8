-- ===== src/Fcall.antt =====
-- 9P messages: include/fcall.h, and the coders of libc/convS2M.c and libc/convM2S.c.
-- This file has the message types and the Fcall structure. Numbers are unsigned fields of the
-- widths that fcall.h gives them. A `char*` is `none` for nil and else the bytes before its NUL;
-- `text` and `stat` are the bytes that the pointers `data` and `stat` lead to.
pub mod Encode
pub mod Decode
pub mod Layout
pub mod RoundTrip
mod Tests
use drawterm_android.Wire.{CharPtr, Qid}
use mathlib.Core.Option.{some-injective}
use drawterm_android.Base.{
  ap, sym, ◌∙◌, inl, inr, Bool-cases, ==→eq, ℕ, ◌≡◌, refl, ◌==◌, if◌then◌else◌, Option, none, some,
  List, [], ◌∷◌, arith, ◌<◌, ◌^◌, ◌+◌,
}

-- The message types of the enumeration, but for the illegal Terror.
pub data Kind : Type 0 where
  tversion rversion tauth rauth tattach rattach rerror tflush rflush twalk rwalk : Kind
  topen ropen tcreate rcreate tread rread twrite rwrite tclunk rclunk tremove rremove : Kind
  tstat rstat twstat rwstat : Kind

abbrev pub code : Kind → ℕ
code tversion = 100
code rversion = 101
code tauth = 102
code rauth = 103
code tattach = 104
code rattach = 105
code rerror = 107
code tflush = 108
code rflush = 109
code twalk = 110
code rwalk = 111
code topen = 112
code ropen = 113
code tcreate = 114
code rcreate = 115
code tread = 116
code rread = 117
code twrite = 118
code rwrite = 119
code tclunk = 120
code rclunk = 121
code tremove = 122
code rremove = 123
code tstat = 124
code rstat = 125
code twstat = 126
code rwstat = 127

abbrev kinds : List Kind
kinds =
    tversion ∷ rversion ∷ tauth ∷ rauth ∷ tattach ∷ rattach ∷ rerror ∷ tflush ∷ rflush ∷ twalk
    ∷ rwalk ∷ topen ∷ ropen ∷ tcreate ∷ rcreate ∷ tread ∷ rread ∷ twrite ∷ rwrite ∷ tclunk ∷ rclunk
    ∷ tremove ∷ rremove ∷ tstat ∷ rstat ∷ twstat ∷ rwstat ∷ []

find_kind : ℕ → List Kind → Option Kind
find_kind t [] = none
find_kind t (k ∷ ks) = if code k == t then some k else find_kind t ks

-- The case of `switch(f->type)` that is taken; `none` is its default.
unfoldable pub kind_of : ℕ → Option Kind
unfolding find_kind
kind_of t = find_kind t kinds

pub kind_of-code : (k : Kind) → kind_of (code k) ≡ some k
unfolding kind_of
kind_of-code tversion = refl
kind_of-code _ = refl

find_kind-code : (t : ℕ) (ks : List Kind) (k : Kind) → find_kind t ks ≡ some k → code k ≡ t
unfolding find_kind
find_kind-code t [] k h = cc
find_kind-code t (j ∷ ks) k h = elim (Bool-cases (code j == t)) [
  | inl e ↦ ap code (sym (some-injective _ _ (rw e at h))) ∙ ==→eq (code j) t e
  | inr e ↦ find_kind-code t ks k (rw e at h)
]

pub code-kind_of : (t : ℕ) (k : Kind) → kind_of t ≡ some k → code k ≡ t
unfolding kind_of
code-kind_of t k h = find_kind-code t kinds k h

pub record Fcall : Type 0 where
  pub type : ℕ
  pub fid : ℕ
  pub tag : ℕ
  pub msize : ℕ
  pub version : CharPtr
  pub oldtag : ℕ
  pub ename : CharPtr
  pub qid : Qid
  pub iounit : ℕ
  pub aqid : Qid
  pub afid : ℕ
  pub uname : CharPtr
  pub aname : CharPtr
  pub perm : ℕ
  pub name : CharPtr
  pub mode : ℕ
  pub newfid : ℕ
  pub nwname : ℕ
  pub wname : List CharPtr
  pub nwqid : ℕ
  pub wqid : List Qid
  pub offset : ℕ
  pub count : ℕ
  pub text : List ℕ
  pub nstat : ℕ
  pub stat : List ℕ

abbrev pub max_welem : ℕ
max_welem = 16
