-- ===== src/Fcall/Layout.antt =====
-- The 9P formats, as one table: what the bytes of a message are, which fields they carry, and
-- for which messages the carrying is exact. The coders are proved to implement it.
use drawterm_android.Wire.{CharPtr, Qid}
use mathlib.Core.List.{map}
use drawterm_android.Base.{
  ℕ, ◌^◌, ◌≤◌, ◌<◌, none, some, List, [], ◌∷◌, ◌++◌, length, take, overwrite, All, le_bytes,
}
use drawterm_android.Fcall.{Fcall, Kind, max_welem}
use drawterm_android.Fcall.{
  tversion, rversion, tauth, rauth, tattach, rattach, rerror, tflush, rflush, twalk, rwalk, topen,
  ropen, tcreate, rcreate, tread, rread, twrite, rwrite, tclunk, rclunk, tremove, rremove, tstat,
  rstat, twstat, rwstat,
}

-- s[2] and the bytes; nil is sent as the empty string.
abbrev pub str : CharPtr → List ℕ
str none = le_bytes 2 0
str (some s) = le_bytes 2 (length s) ++ s

abbrev pub strs : List CharPtr → List ℕ
strs [] = []
strs (w ∷ ws) = str w ++ strs ws

abbrev pub qid_bytes : Qid → List ℕ
qid_bytes q = le_bytes 1 q.type ++ (le_bytes 4 q.vers ++ le_bytes 8 q.path)

abbrev pub qids_bytes : List Qid → List ℕ
qids_bytes [] = []
qids_bytes (q ∷ qs) = qid_bytes q ++ qids_bytes qs

-- What follows size[4] type[1] tag[2].
abbrev pub layout : Kind → Fcall → List ℕ
layout tversion f = le_bytes 4 f.msize ++ str f.version
layout rversion f = le_bytes 4 f.msize ++ str f.version
layout tauth f = le_bytes 4 f.afid ++ (str f.uname ++ str f.aname)
layout rauth f = qid_bytes f.aqid
layout tattach f = le_bytes 4 f.fid ++ (le_bytes 4 f.afid ++ (str f.uname ++ str f.aname))
layout rattach f = qid_bytes f.qid
layout rerror f = str f.ename
layout tflush f = le_bytes 2 f.oldtag
layout rflush f = []
layout twalk f =
    le_bytes 4 f.fid
    ++ (le_bytes 4 f.newfid ++ (le_bytes 2 f.nwname ++ strs (take f.nwname f.wname)))
layout rwalk f = le_bytes 2 f.nwqid ++ qids_bytes (take f.nwqid f.wqid)
layout topen f = le_bytes 4 f.fid ++ le_bytes 1 f.mode
layout ropen f = qid_bytes f.qid ++ le_bytes 4 f.iounit
layout tcreate f = le_bytes 4 f.fid ++ (str f.name ++ (le_bytes 4 f.perm ++ le_bytes 1 f.mode))
layout rcreate f = qid_bytes f.qid ++ le_bytes 4 f.iounit
layout tread f = le_bytes 4 f.fid ++ (le_bytes 8 f.offset ++ le_bytes 4 f.count)
layout rread f = le_bytes 4 f.count ++ take f.count f.text
layout twrite f =
    le_bytes 4 f.fid ++ (le_bytes 8 f.offset ++ (le_bytes 4 f.count ++ take f.count f.text))
layout rwrite f = le_bytes 4 f.count
layout tclunk f = le_bytes 4 f.fid
layout rclunk f = []
layout tremove f = le_bytes 4 f.fid
layout rremove f = []
layout tstat f = le_bytes 4 f.fid
layout rstat f = le_bytes 2 f.nstat ++ take f.nstat f.stat
layout twstat f = le_bytes 4 f.fid ++ (le_bytes 2 f.nstat ++ take f.nstat f.stat)
layout rwstat f = []

-- A string that its 16-bit count can state, with no NUL inside.
abbrev pub IsText : CharPtr → Type 0
IsText none = Unit
IsText (some s) = (length s < 2 ^ 16) × All (λ b. 0 < b) s

abbrev pub IsQid : Qid → Type 0
IsQid q = (q.type < 2 ^ 8) × (q.vers < 2 ^ 32) × (q.path < 2 ^ 64)

-- The fields that a message of the type sends lie in their C types and in the protocol's limits,
-- and the arrays hold what the counts promise.
abbrev pub IsSendable : Kind → Fcall → Type 0
IsSendable tversion f = (f.msize < 2 ^ 32) × IsText f.version
IsSendable rversion f = (f.msize < 2 ^ 32) × IsText f.version
IsSendable tauth f = (f.afid < 2 ^ 32) × IsText f.uname × IsText f.aname
IsSendable rauth f = IsQid f.aqid
IsSendable tattach f = (f.fid < 2 ^ 32) × (f.afid < 2 ^ 32) × IsText f.uname × IsText f.aname
IsSendable rattach f = IsQid f.qid
IsSendable rerror f = IsText f.ename
IsSendable tflush f = f.oldtag < 2 ^ 16
IsSendable rflush f = Unit
IsSendable twalk f =
    (f.fid < 2 ^ 32)
    × (f.newfid < 2 ^ 32)
    × (f.nwname ≤ max_welem)
    × (f.nwname ≤ length f.wname)
    × All IsText (take f.nwname f.wname)
IsSendable rwalk f =
    (f.nwqid ≤ max_welem) × (f.nwqid ≤ length f.wqid) × All IsQid (take f.nwqid f.wqid)
IsSendable topen f = (f.fid < 2 ^ 32) × (f.mode < 2 ^ 8)
IsSendable ropen f = IsQid f.qid × (f.iounit < 2 ^ 32)
IsSendable tcreate f = (f.fid < 2 ^ 32) × IsText f.name × (f.perm < 2 ^ 32) × (f.mode < 2 ^ 8)
IsSendable rcreate f = IsQid f.qid × (f.iounit < 2 ^ 32)
IsSendable tread f = (f.fid < 2 ^ 32) × (f.offset < 2 ^ 64) × (f.count < 2 ^ 32)
IsSendable rread f = (f.count < 2 ^ 32) × (f.count ≤ length f.text)
IsSendable twrite f =
    (f.fid < 2 ^ 32) × (f.offset < 2 ^ 64) × (f.count < 2 ^ 32) × (f.count ≤ length f.text)
IsSendable rwrite f = f.count < 2 ^ 32
IsSendable tclunk f = f.fid < 2 ^ 32
IsSendable rclunk f = Unit
IsSendable tremove f = f.fid < 2 ^ 32
IsSendable rremove f = Unit
IsSendable tstat f = f.fid < 2 ^ 32
IsSendable rstat f = (f.nstat < 2 ^ 16) × (f.nstat ≤ length f.stat)
IsSendable twstat f = (f.fid < 2 ^ 32) × (f.nstat < 2 ^ 16) × (f.nstat ≤ length f.stat)
IsSendable rwstat f = Unit

-- The receiver's string: nil comes back as the empty string.
abbrev pub received : CharPtr → CharPtr
received none = some []
received (some s) = some s

-- `g` with the fields that a message of the type carries taken from `f`.
abbrev pub carry : Kind → Fcall → Fcall → Fcall
carry tversion f g = record g { msize = f.msize; version = received f.version }
carry rversion f g = record g { msize = f.msize; version = received f.version }
carry tauth f g = record g { afid = f.afid; uname = received f.uname; aname = received f.aname }
carry rauth f g = record g { aqid = f.aqid }
carry tattach f g = record g {
  fid = f.fid;
  afid = f.afid;
  uname = received f.uname;
  aname = received f.aname;
}
carry rattach f g = record g { qid = f.qid }
carry rerror f g = record g { ename = received f.ename }
carry tflush f g = record g { oldtag = f.oldtag }
carry rflush f g = g
carry twalk f g = record g {
  fid = f.fid;
  newfid = f.newfid;
  nwname = f.nwname;
  wname = overwrite (map received (take f.nwname f.wname)) g.wname;
}
carry rwalk f g = record g { nwqid = f.nwqid; wqid = overwrite (take f.nwqid f.wqid) g.wqid }
carry topen f g = record g { fid = f.fid; mode = f.mode }
carry ropen f g = record g { qid = f.qid; iounit = f.iounit }
carry tcreate f g = record g { fid = f.fid; name = received f.name; perm = f.perm; mode = f.mode }
carry rcreate f g = record g { qid = f.qid; iounit = f.iounit }
carry tread f g = record g { fid = f.fid; offset = f.offset; count = f.count }
carry rread f g = record g { count = f.count; text = take f.count f.text }
carry twrite f g = record g {
  fid = f.fid;
  offset = f.offset;
  count = f.count;
  text = take f.count f.text;
}
carry rwrite f g = record g { count = f.count }
carry tclunk f g = record g { fid = f.fid }
carry rclunk f g = g
carry tremove f g = record g { fid = f.fid }
carry rremove f g = g
carry tstat f g = record g { fid = f.fid }
carry rstat f g = record g { nstat = f.nstat; stat = take f.nstat f.stat }
carry twstat f g = record g { fid = f.fid; nstat = f.nstat; stat = take f.nstat f.stat }
carry rwstat f g = g
