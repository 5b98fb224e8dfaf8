-- ===== src/Fcall/Decode/Bounds.antt =====
-- No step of `conv_m2s` reads outside the buffer.
use drawterm_android.Wire.{CharPtr}
use drawterm_android.Wire.Reader.{Outcome, ok, fail, ◌>>=◌, assign, fault}
use drawterm_android.Wire.Reader.Safe.{
  Leaves, Safe, safe, run, ◌▸◌, return-Safe, assign-Safe, need-Safe, refuse_above-Safe, read-Safe,
  gbit-Safe, weaken-Safe,
}
use drawterm_android.Base.{
  ◌++◌, ◌-◌, ℕ, zero, suc, ◌≤◌, ◌≡◌, arith, Option, none, some, List, ◌≢◌, length-append,
}
use drawterm_android.Fcall.{Fcall, Kind, kind_of}
use drawterm_android.Fcall.{
  tversion, rversion, tauth, rauth, tattach, rattach, rerror, tflush, twalk, rwalk, topen, ropen,
  tcreate, rcreate, tread, rread, twrite, rwrite, tclunk, tremove, tstat, rstat, twstat,
}
use drawterm_android.Fcall.Decode.{
  parsed, gstring, gqid, gstrings, gqids, get_fid, get_afid, get_count, get_offset, get_msize,
  get_mode, get_uname, get_aname, get_version, get_qid, get_text, get_stat, get_body, get_case,
  get_message, conv_m2s,
}

get_fid-Safe : {k : ℕ} → 4 ≤ k → Safe k get_fid (k - 4)
unfolding get_fid
get_fid-Safe h = gbit-Safe 4 h ▸ λ x. assign-Safe _

get_afid-Safe : {k : ℕ} → 4 ≤ k → Safe k get_afid (k - 4)
unfolding get_afid
get_afid-Safe h = gbit-Safe 4 h ▸ λ x. assign-Safe _

get_count-Safe : {k : ℕ} → 4 ≤ k → Safe k get_count (k - 4)
unfolding get_count
get_count-Safe h = gbit-Safe 4 h ▸ λ x. assign-Safe _ ▸ λ _. return-Safe x

get_offset-Safe : {k : ℕ} → 8 ≤ k → Safe k get_offset (k - 8)
unfolding get_offset
get_offset-Safe h = gbit-Safe 8 h ▸ λ x. assign-Safe _

get_msize-Safe : {k : ℕ} → 4 ≤ k → Safe k get_msize (k - 4)
unfolding get_msize
get_msize-Safe h = gbit-Safe 4 h ▸ λ x. assign-Safe _

get_mode-Safe : {k : ℕ} → 1 ≤ k → Safe k get_mode (k - 1)
unfolding get_mode
get_mode-Safe h = gbit-Safe 1 h ▸ λ x. assign-Safe _

gstring-Safe : {k : ℕ} → Safe k gstring 0
unfolding gstring
gstring-Safe = need-Safe 2 ▸ λ _. gbit-Safe 2 (omega arith) ▸ λ n.
    need-Safe n ▸ λ _. weaken-Safe (read-Safe n (omega arith)) ▸ λ bs. return-Safe _

-- A string that is stored in one field.
field-Safe : (g : CharPtr → Fcall → Fcall) {k : ℕ} → Safe k (gstring >>= λ s. assign (g s)) 0
field-Safe g = gstring-Safe ▸ λ s. assign-Safe (g s)

get_uname-Safe : {k : ℕ} → Safe k get_uname 0
unfolding get_uname
get_uname-Safe = field-Safe _

get_aname-Safe : {k : ℕ} → Safe k get_aname 0
unfolding get_aname
get_aname-Safe = field-Safe _

get_version-Safe : {k : ℕ} → Safe k get_version 0
unfolding get_version
get_version-Safe = field-Safe _

gqid-Safe : {k : ℕ} → Safe k gqid 0
unfolding gqid
gqid-Safe = need-Safe 13 ▸ λ _. gbit-Safe 1 (omega arith) ▸ λ type.
    gbit-Safe 4 (omega arith) ▸ λ vers. gbit-Safe 8 (omega arith) ▸ λ path. return-Safe _

get_qid-Safe : {k : ℕ} → Safe k get_qid 0
unfolding get_qid
get_qid-Safe = gqid-Safe ▸ λ q. assign-Safe _

gstrings-Safe : (i n : ℕ) {k : ℕ} → Safe k (gstrings i n) 0
unfolding gstrings
gstrings-Safe i zero = weaken-Safe (return-Safe tt)
gstrings-Safe i (suc n) = gstring-Safe ▸ λ s. assign-Safe _ ▸ λ _. gstrings-Safe (suc i) n

gqids-Safe : (i n : ℕ) {k : ℕ} → Safe k (gqids i n) 0
unfolding gqids
gqids-Safe i zero = weaken-Safe (return-Safe tt)
gqids-Safe i (suc n) = gqid-Safe ▸ λ q. assign-Safe _ ▸ λ _. gqids-Safe (suc i) n

get_text-Safe : {k : ℕ} → 4 ≤ k → Safe k get_text 0
unfolding get_text
get_text-Safe h = get_count-Safe h ▸ λ n.
    need-Safe n ▸ λ _. weaken-Safe (read-Safe n (omega arith)) ▸ λ bs. assign-Safe _

get_stat-Safe : {k : ℕ} → 2 ≤ k → Safe k get_stat 0
unfolding get_stat
get_stat-Safe h = gbit-Safe 2 h ▸ λ n. assign-Safe _ ▸ λ _.
    need-Safe n ▸ λ _. weaken-Safe (read-Safe n (omega arith)) ▸ λ bs. assign-Safe _

get_body-Safe : (k : Kind) {b : ℕ} → Safe b (get_body k) 0
unfolding get_body
get_body-Safe tversion = need-Safe 4 ▸ λ _. get_msize-Safe (omega arith) ▸ λ _. get_version-Safe
get_body-Safe tflush = need-Safe 2 ▸ λ _. gbit-Safe 2 (omega arith) ▸ λ x. assign-Safe _
get_body-Safe tauth =
    need-Safe 4 ▸ λ _. get_afid-Safe (omega arith) ▸ λ _. get_uname-Safe ▸ λ _. get_aname-Safe
get_body-Safe tattach = need-Safe 4 ▸ λ _. get_fid-Safe (omega arith) ▸ λ _.
    need-Safe 4 ▸ λ _. get_afid-Safe (omega arith) ▸ λ _. get_uname-Safe ▸ λ _. get_aname-Safe
get_body-Safe twalk = need-Safe 10 ▸ λ _. get_fid-Safe (omega arith) ▸ λ _.
    gbit-Safe 4 (omega arith) ▸ λ x. assign-Safe _ ▸ λ _. gbit-Safe 2 (omega arith) ▸ λ n.
    assign-Safe _ ▸ λ _. refuse_above-Safe 16 n ▸ λ _. gstrings-Safe 0 n
get_body-Safe topen =
    need-Safe 5 ▸ λ _. get_fid-Safe (omega arith) ▸ λ _. get_mode-Safe (omega arith)
get_body-Safe tcreate = need-Safe 4 ▸ λ _. get_fid-Safe (omega arith) ▸ λ _. gstring-Safe ▸ λ s.
    assign-Safe _ ▸ λ _. need-Safe 5 ▸ λ _.
    gbit-Safe 4 (omega arith) ▸ λ x. assign-Safe _ ▸ λ _. get_mode-Safe (omega arith)
get_body-Safe tread = need-Safe 16 ▸ λ _. get_fid-Safe (omega arith) ▸ λ _.
    get_offset-Safe (omega arith) ▸ λ _. get_count-Safe (omega arith) ▸ λ x. return-Safe tt
get_body-Safe twrite = need-Safe 16 ▸ λ _. get_fid-Safe (omega arith) ▸ λ _.
    get_offset-Safe (omega arith) ▸ λ _. get_text-Safe (omega arith)
get_body-Safe tclunk = need-Safe 4 ▸ λ _. get_fid-Safe (omega arith)
get_body-Safe tremove = need-Safe 4 ▸ λ _. get_fid-Safe (omega arith)
get_body-Safe tstat = need-Safe 4 ▸ λ _. get_fid-Safe (omega arith)
get_body-Safe twstat =
    need-Safe 6 ▸ λ _. get_fid-Safe (omega arith) ▸ λ _. get_stat-Safe (omega arith)
get_body-Safe rversion = need-Safe 4 ▸ λ _. get_msize-Safe (omega arith) ▸ λ _. get_version-Safe
get_body-Safe rerror = field-Safe _
get_body-Safe rauth = gqid-Safe ▸ λ q. assign-Safe _
get_body-Safe rattach = get_qid-Safe
get_body-Safe rwalk = need-Safe 2 ▸ λ _. gbit-Safe 2 (omega arith) ▸ λ n.
    assign-Safe _ ▸ λ _. refuse_above-Safe 16 n ▸ λ _. gqids-Safe 0 n
get_body-Safe ropen =
    get_qid-Safe ▸ λ _. need-Safe 4 ▸ λ _. gbit-Safe 4 (omega arith) ▸ λ x. assign-Safe _
get_body-Safe rcreate =
    get_qid-Safe ▸ λ _. need-Safe 4 ▸ λ _. gbit-Safe 4 (omega arith) ▸ λ x. assign-Safe _
get_body-Safe rread = need-Safe 4 ▸ λ _. get_text-Safe (omega arith)
get_body-Safe rwrite = need-Safe 4 ▸ λ _. get_count-Safe (omega arith) ▸ λ x. return-Safe tt
get_body-Safe rstat = need-Safe 2 ▸ λ _. get_stat-Safe (omega arith)
get_body-Safe _ = weaken-Safe (return-Safe tt)

get_case-Safe : (o : Option Kind) {b : ℕ} → Safe b (get_case o) 0
unfolding get_case
get_case-Safe none = safe (λ p f le. tt)
get_case-Safe (some k) = safe (λ p f le. run (get_body-Safe k) p f le)

get_message-Safe : Safe 0 get_message 0
unfolding get_message
get_message-Safe = need-Safe 7 ▸ λ _. gbit-Safe 4 (omega arith) ▸ λ size.
    refuse_above-Safe size 7 ▸ λ _. gbit-Safe 1 (omega arith) ▸ λ type. assign-Safe _ ▸ λ _.
    gbit-Safe 2 (omega arith) ▸ λ tag.
    assign-Safe _ ▸ λ _. get_case-Safe (kind_of type) ▸ λ _. return-Safe size

parsed_some :
    (buf : List ℕ) (longer : List ℕ → Outcome Fcall ℕ) (r : Outcome Fcall ℕ)
    → Leaves 0 longer r
    → parsed buf r ≢ none
unfolding parsed
parsed_some buf longer (ok size p f) h = λ e. cc
parsed_some buf longer (fail f) h = λ e. cc
parsed_some buf longer fault h = absurd h

parsed-append :
    (buf more : List ℕ) (longer : List ℕ → Outcome Fcall ℕ) (r : Outcome Fcall ℕ) (g : Fcall)
    (size : ℕ)
    → Leaves 0 longer r
    → parsed buf r ≡ some (record { ret = suc size; fcall = g })
    → parsed (buf ++ more) (longer more) ≡ some (record { ret = suc size; fcall = g })
unfolding parsed
parsed-append buf more longer (ok n p f) g size h e =
    ground (arith, h.1 more, length-append buf more, length-append p more)
parsed-append buf more longer (fail f) g size h e = absurd (ground arith)
parsed-append buf more longer fault g size h e = absurd h

-- `conv_m2s` never reads outside the buffer: it returns on every input, whatever the lengths
-- and counts in it say.
pub conv_m2s_total : (buf : List ℕ) (f : Fcall) → conv_m2s buf f ≢ none
unfolding conv_m2s
conv_m2s_total buf f =
    parsed_some buf _ (get_message buf f) (run get_message-Safe buf f (omega arith))

-- A message that is accepted is accepted with the same result whatever bytes follow it in the
-- buffer.
pub conv_m2s-append :
    (buf more : List ℕ) (f g : Fcall) (size : ℕ)
    → conv_m2s buf f ≡ some (record { ret = suc size; fcall = g })
    → conv_m2s (buf ++ more) f ≡ some (record { ret = suc size; fcall = g })
unfolding conv_m2s
conv_m2s-append buf more f g size =
    parsed-append buf more _ (get_message buf f) g size (run get_message-Safe buf f (omega arith))
