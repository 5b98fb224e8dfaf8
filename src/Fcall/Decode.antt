-- ===== src/Fcall/Decode.antt =====
-- libc/convM2S.c: a message from its bytes.
-- A step has the bytes from `p` up to `ep` and the Fcall, whose fields it sets one by one.
-- `gstring` moves a string down by one byte inside the buffer, over its own count, to end it by a
-- NUL; those bytes are not read again, and a string is modelled by the bytes that it then holds.
pub mod Bounds
pub mod Steps
pub mod Formats
use drawterm_android.Wire.{bit8sz, bit16sz, bit32sz, bit64sz, qidsz, CharPtr, Qid}
use drawterm_android.Wire.Reader.{
  ◌>>=◌, ◌>>◌, Outcome, ok, fail, M, return, need, refuse_above, read, gbit, assign, c_string,
  fault,
}
use drawterm_android.Base.{
  ℕ, zero, suc, ◌+◌, ltb, ◌==◌, if◌then◌else◌, Option, none, some, List, [], ◌∷◌, length, set,
  split, le_value,
}
use drawterm_android.Fcall.{Fcall, Kind, kind_of, max_welem}
use drawterm_android.Fcall.{
  tversion, rversion, tauth, rauth, tattach, rattach, rerror, tflush, rflush, twalk, rwalk, topen,
  ropen, tcreate, rcreate, tread, rread, twrite, rwrite, tclunk, rclunk, tremove, rremove, tstat,
  rstat, twstat, rwstat,
}
use drawterm_android.Fcall.Encode.{header_size}

unfoldable pub gstring : M Fcall CharPtr
gstring = do need bit16sz; n ← gbit bit16sz; need n; bs ← read n; return (some (c_string bs))

unfoldable pub gqid : M Fcall Qid
gqid = do
  need qidsz
  type ← gbit bit8sz
  vers ← gbit bit32sz
  path ← gbit bit64sz
  return (record { path = path; vers = vers; type = type })

-- The loops over `wname` and `wqid`, with the index and the rounds that are left.
unfoldable pub gstrings : ℕ → ℕ → M Fcall (Unit {0})
gstrings i zero = return tt
gstrings i (suc n) = do
  s ← gstring
  assign (λ f. record f { wname = set f.wname i s })
  gstrings (suc i) n

unfoldable pub gqids : ℕ → ℕ → M Fcall (Unit {0})
gqids i zero = return tt
gqids i (suc n) = do q ← gqid; assign (λ f. record f { wqid = set f.wqid i q }); gqids (suc i) n

unfoldable pub get_fid : M Fcall (Unit {0})
get_fid = do x ← gbit bit32sz; assign (λ f. record f { fid = x })

unfoldable pub get_afid : M Fcall (Unit {0})
get_afid = do x ← gbit bit32sz; assign (λ f. record f { afid = x })

unfoldable pub get_count : M Fcall ℕ
get_count = do x ← gbit bit32sz; assign (λ f. record f { count = x }); return x

unfoldable pub get_offset : M Fcall (Unit {0})
get_offset = do x ← gbit bit64sz; assign (λ f. record f { offset = x })

unfoldable pub get_msize : M Fcall (Unit {0})
get_msize = do x ← gbit bit32sz; assign (λ f. record f { msize = x })

unfoldable pub get_mode : M Fcall (Unit {0})
get_mode = do x ← gbit bit8sz; assign (λ f. record f { mode = x })

unfoldable pub get_uname : M Fcall (Unit {0})
get_uname = do s ← gstring; assign (λ f. record f { uname = s })

unfoldable pub get_aname : M Fcall (Unit {0})
get_aname = do s ← gstring; assign (λ f. record f { aname = s })

unfoldable pub get_version : M Fcall (Unit {0})
get_version = do s ← gstring; assign (λ f. record f { version = s })

unfoldable pub get_qid : M Fcall (Unit {0})
get_qid = do q ← gqid; assign (λ f. record f { qid = q })

-- `f->data = (char*)p; p += f->count;` behind its test, and the same for `stat`.
unfoldable pub get_text : M Fcall (Unit {0})
get_text = do n ← get_count; need n; bs ← read n; assign (λ f. record f { text = bs })

unfoldable pub get_stat : M Fcall (Unit {0})
get_stat = do
  n ← gbit bit16sz
  assign (λ f. record f { nstat = n })
  need n
  bs ← read n
  assign (λ f. record f { stat = bs })

unfoldable pub get_body : Kind → M Fcall (Unit {0})
get_body tversion = do need bit32sz; get_msize; get_version
get_body tflush = do need bit16sz; x ← gbit bit16sz; assign (λ f. record f { oldtag = x })
get_body tauth = do need bit32sz; get_afid; get_uname; get_aname
get_body tattach = do need bit32sz; get_fid; need bit32sz; get_afid; get_uname; get_aname
get_body twalk = do
  need (bit32sz + bit32sz + bit16sz)
  get_fid
  x ← gbit bit32sz
  assign (λ f. record f { newfid = x })
  n ← gbit bit16sz
  assign (λ f. record f { nwname = n })
  refuse_above max_welem n
  gstrings 0 n
get_body topen = do need (bit32sz + bit8sz); get_fid; get_mode
get_body tcreate = do
  need bit32sz
  get_fid
  s ← gstring
  assign (λ f. record f { name = s })
  need (bit32sz + bit8sz)
  x ← gbit bit32sz
  assign (λ f. record f { perm = x })
  get_mode
get_body tread = do
  need (bit32sz + bit64sz + bit32sz)
  get_fid
  get_offset
  x ← get_count
  return tt
get_body twrite = do need (bit32sz + bit64sz + bit32sz); get_fid; get_offset; get_text
get_body tclunk = do need bit32sz; get_fid
get_body tremove = do need bit32sz; get_fid
get_body tstat = do need bit32sz; get_fid
get_body twstat = do need (bit32sz + bit16sz); get_fid; get_stat
get_body rversion = do need bit32sz; get_msize; get_version
get_body rerror = do s ← gstring; assign (λ f. record f { ename = s })
get_body rflush = return tt
get_body rauth = do q ← gqid; assign (λ f. record f { aqid = q })
get_body rattach = get_qid
get_body rwalk = do
  need bit16sz
  n ← gbit bit16sz
  assign (λ f. record f { nwqid = n })
  refuse_above max_welem n
  gqids 0 n
get_body ropen = do get_qid; need bit32sz; x ← gbit bit32sz; assign (λ f. record f { iounit = x })
get_body rcreate = do get_qid; need bit32sz; x ← gbit bit32sz; assign (λ f. record f { iounit = x })
get_body rread = do need bit32sz; get_text
get_body rwrite = do need bit32sz; x ← get_count; return tt
get_body rclunk = return tt
get_body rremove = return tt
get_body rstat = do need bit16sz; get_stat
get_body rwstat = return tt

-- The `switch` on the type: its default returns 0.
unfoldable pub get_case : Option Kind → M Fcall (Unit {0})
get_case none p f = fail f
get_case (some k) p f = get_body k p f

-- The header and the `switch`; the result is the size that the message states.
unfoldable pub get_message : M Fcall ℕ
get_message = do
  need header_size
  size ← gbit bit32sz
  refuse_above size header_size
  type ← gbit bit8sz
  assign (λ f. record f { type = type })
  tag ← gbit bit16sz
  assign (λ f. record f { tag = tag })
  get_case (kind_of type)
  return size

-- The returned number, and the Fcall as it is left, whatever was returned.
pub record Parsed : Type 0 where
  pub ret : ℕ
  pub fcall : Fcall

-- The tests behind the `switch`: `p - ap` is what the buffer has lost. `none` is a read outside it.
unfoldable pub parsed : List ℕ → Outcome Fcall ℕ → Option Parsed
parsed ap (ok size p f) =
    some (record { ret = if size + length p == length ap then size else 0; fcall = f })
parsed ap (fail f) = some (record { ret = 0; fcall = f })
parsed ap fault = none

unfoldable pub conv_m2s : List ℕ → Fcall → Option Parsed
conv_m2s ap f = parsed ap (get_message ap f)
