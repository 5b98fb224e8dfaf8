-- ===== src/Fcall/Encode.antt =====
-- libc/convS2M.c: the size of a message, and its bytes.
pub mod Sizes
pub mod Formats
use drawterm_android.Wire.{bit8sz, bit16sz, bit32sz, bit64sz, qidsz, u32, CharPtr, Qid}
use drawterm_android.Wire.Writer.{Stored, more, stop, ◌>>◌, pbit, memmove, fault}
use mathlib.Core.Option
use drawterm_android.Base.{
  ◌||◌, ℕ, zero, suc, ◌+◌, ◌*◌, ◌%◌, ◌^◌, ltb, ◌==◌, if◌then◌else◌, Option, none, some, List, [],
  ◌∷◌, ◌++◌, length, take, le_bytes,
}
use drawterm_android.Fcall.{Fcall, Kind, kind_of, max_welem}
use drawterm_android.Fcall.{
  tversion, rversion, tauth, rauth, tattach, rattach, rerror, tflush, rflush, twalk, rwalk, topen,
  ropen, tcreate, rcreate, tread, rread, twrite, rwrite, tclunk, rclunk, tremove, rremove, tstat,
  rstat, twstat, rwstat,
}

unfoldable pub stringsz : CharPtr → ℕ
stringsz none = bit16sz
stringsz (some s) = bit16sz + length s

-- The loop over `wname[i]`, from the elements that are left and the rounds that are left;
-- `none` is a read behind the array.
unfoldable pub stringsz_all : ℕ → List CharPtr → Option ℕ
stringsz_all zero ws = some 0
stringsz_all (suc n) [] = none
stringsz_all (suc n) (w ∷ ws) = Option.map (λ m. stringsz w + m) (stringsz_all n ws)

unfoldable pub body_size : Kind → Fcall → Option ℕ
unfolding stringsz_all
body_size tversion f = some (bit32sz + stringsz f.version)
body_size tflush f = some bit16sz
body_size tauth f = some (bit32sz + stringsz f.uname + stringsz f.aname)
body_size tattach f = some (bit32sz + bit32sz + stringsz f.uname + stringsz f.aname)
body_size twalk f =
    Option.map (λ m. bit32sz + bit32sz + bit16sz + m) (stringsz_all f.nwname f.wname)
body_size topen f = some (bit32sz + bit8sz)
body_size tcreate f = some (bit32sz + stringsz f.name + bit32sz + bit8sz)
body_size tread f = some (bit32sz + bit64sz + bit32sz)
body_size twrite f = some (bit32sz + bit64sz + bit32sz + f.count)
body_size tclunk f = some bit32sz
body_size tremove f = some bit32sz
body_size tstat f = some bit32sz
body_size twstat f = some (bit32sz + bit16sz + f.nstat)
body_size rversion f = some (bit32sz + stringsz f.version)
body_size rerror f = some (stringsz f.ename)
body_size rflush f = some 0
body_size rauth f = some qidsz
body_size rattach f = some qidsz
body_size rwalk f = some (bit16sz + f.nwqid * qidsz)
body_size ropen f = some (qidsz + bit32sz)
body_size rcreate f = some (qidsz + bit32sz)
body_size rread f = some (bit32sz + f.count)
body_size rwrite f = some bit32sz
body_size rclunk f = some 0
body_size rremove f = some 0
body_size rstat f = some (bit16sz + f.nstat)
body_size rwstat f = some 0

abbrev pub header_size : ℕ
header_size = bit32sz + bit8sz + bit16sz

-- 0 for a type that is not known; `none` is a read behind `wname`.
unfoldable pub size_case : Option Kind → Fcall → Option ℕ
size_case none f = some 0
size_case (some k) f = Option.map (λ n. u32 (header_size + n)) (body_size k f)

unfoldable pub size_s2m : Fcall → Option ℕ
size_s2m f = size_case (kind_of f.type) f

unfoldable pub pstring : CharPtr → Stored
pstring none = pbit bit16sz 0
pstring (some s) = pbit bit16sz (length s) >> more s

unfoldable pub pqid : Qid → Stored
pqid q = do pbit bit8sz q.type; pbit bit32sz q.vers; pbit bit64sz q.path

unfoldable pub pstrings : ℕ → List CharPtr → Stored
pstrings zero ws = more []
pstrings (suc n) [] = fault
pstrings (suc n) (w ∷ ws) = pstring w >> pstrings n ws

unfoldable pub pqids : ℕ → List Qid → Stored
pqids zero qs = more []
pqids (suc n) [] = fault
pqids (suc n) (q ∷ qs) = pqid q >> pqids n qs

-- `if(n > max) return 0;`
unfoldable pub at_most : ℕ → ℕ → Stored
at_most max n = if ltb max n then stop [] else more []

unfoldable pub put_body : Kind → Fcall → Stored
put_body tversion f = do pbit bit32sz f.msize; pstring f.version
put_body tflush f = pbit bit16sz f.oldtag
put_body tauth f = do pbit bit32sz f.afid; pstring f.uname; pstring f.aname
put_body tattach f = do pbit bit32sz f.fid; pbit bit32sz f.afid; pstring f.uname; pstring f.aname
put_body twalk f = do
  pbit bit32sz f.fid
  pbit bit32sz f.newfid
  pbit bit16sz f.nwname
  at_most max_welem f.nwname
  pstrings f.nwname f.wname
put_body topen f = do pbit bit32sz f.fid; pbit bit8sz f.mode
put_body tcreate f = do pbit bit32sz f.fid; pstring f.name; pbit bit32sz f.perm; pbit bit8sz f.mode
put_body tread f = do pbit bit32sz f.fid; pbit bit64sz f.offset; pbit bit32sz f.count
put_body twrite f = do
  pbit bit32sz f.fid
  pbit bit64sz f.offset
  pbit bit32sz f.count
  memmove f.text f.count
put_body tclunk f = pbit bit32sz f.fid
put_body tremove f = pbit bit32sz f.fid
put_body tstat f = pbit bit32sz f.fid
put_body twstat f = do pbit bit32sz f.fid; pbit bit16sz f.nstat; memmove f.stat f.nstat
put_body rversion f = do pbit bit32sz f.msize; pstring f.version
put_body rerror f = pstring f.ename
put_body rflush f = more []
put_body rauth f = pqid f.aqid
put_body rattach f = pqid f.qid
put_body rwalk f = do pbit bit16sz f.nwqid; at_most max_welem f.nwqid; pqids f.nwqid f.wqid
put_body ropen f = do pqid f.qid; pbit bit32sz f.iounit
put_body rcreate f = do pqid f.qid; pbit bit32sz f.iounit
put_body rread f = do pbit bit32sz f.count; memmove f.text f.count
put_body rwrite f = pbit bit32sz f.count
put_body rclunk f = more []
put_body rremove f = more []
put_body rstat f = do pbit bit16sz f.nstat; memmove f.stat f.nstat
put_body rwstat f = more []

unfoldable pub put_message : Kind → Fcall → ℕ → Stored
put_message k f size = do pbit bit32sz size; pbit bit8sz f.type; pbit bit16sz f.tag; put_body k f

-- The returned number and the bytes stored from `ap` on, in order, whatever was returned.
pub record Coded : Type 0 where
  pub ret : ℕ
  pub out : List ℕ

-- The test `size != p - ap` and the returns; `none` is a read behind an array.
unfoldable pub coded : ℕ → Stored → Option Coded
coded size (more bs) = some (record { ret = if length bs == size then size else 0; out = bs })
coded size (stop bs) = some (record { ret = 0; out = bs })
coded size fault = none

-- The `switch` on the type: its default returns 0.
unfoldable pub put_case : Option Kind → Fcall → ℕ → Option Coded
put_case none f size = some (record { ret = 0; out = [] })
put_case (some k) f size = coded size (put_message k f size)

-- A size of 0, or above `nap`, returns 0 before anything is stored.
unfoldable pub put_sized : Option ℕ → Fcall → ℕ → Option Coded
put_sized none f nap = none
put_sized (some size) f nap =
    if size == 0 || ltb nap size
    then some (record { ret = 0; out = [] })
    else put_case (kind_of f.type) f size

unfoldable pub conv_s2m : Fcall → ℕ → Option Coded
conv_s2m f nap = put_sized (size_s2m f) f nap
