-- ===== src/Fcall/Decode/Formats.antt =====
-- `get_body` reads the format of the table back, and sets the fields that the message carries.
use drawterm_android.Wire.{CharPtr, Qid}
use drawterm_android.Wire.Reader.{ok}
use drawterm_android.Wire.Reader.Steps.{◌▸⟨◌⟩◌, Gives, done, need_lem, refuse_above_lem, gbit_lem}
use mathlib.Core.List.{map}
use drawterm_android.Base.{
  le_bytes, overwrite, length-take, ◌≤◌, All, take, arith, lengths, append_assoc, ◌++◌, ℕ, ◌≡◌,
  List, length, [], refl,
}
use drawterm_android.Fcall.{Fcall, Kind, max_welem}
use drawterm_android.Fcall.{
  tversion, rversion, tauth, rauth, tattach, rattach, rerror, tflush, rflush, twalk, rwalk, topen,
  ropen, tcreate, rcreate, tread, rread, twrite, rwrite, tclunk, rclunk, tremove, rremove, tstat,
  rstat, twstat, rwstat,
}
use drawterm_android.Fcall.Layout.{
  qid_bytes, layout, IsSendable, strs, qids_bytes, IsText, IsQid, received, carry,
}
use drawterm_android.Fcall.Decode.{
  gstrings, gqids, get_afid, get_count, get_offset, get_msize, get_mode, get_uname, get_aname,
  get_version, get_qid, get_body,
}
use drawterm_android.Fcall.Decode.Steps.{
  gstring_lem, gqid_lem, get_fid_lem, get_text_lem, get_stat_lem, gstrings_lem, gqids_lem,
}

-- The arrays of the receiving structure have their declared size.
abbrev pub IsReceiver : Fcall → Type 0
IsReceiver g = (length g.wname ≡ max_welem) × (length g.wqid ≡ max_welem)

abbrev Carries : Kind → Fcall → Fcall → List ℕ → Type 0
Carries k f g rest = Gives (get_body k) (layout k f ++ rest) g (ok tt rest (carry k f g))

gstrings_array :
    (n : ℕ) (ws : List CharPtr) {rest : List ℕ} (f : Fcall)
    → All IsText ws
    → length ws ≡ n
    → n ≤ length f.wname
    → Gives
        (gstrings 0 n)
        (strs ws ++ rest)
        f
        (ok tt rest (record f { wname = overwrite (map received ws) f.wname }))
gstrings_array n ws f h l le =
    rw (← l) (gstrings_lem ws [] f.wname 0 f h (rw (← l) at le) refl refl)

gqids_array :
    (n : ℕ) (qs : List Qid) {rest : List ℕ} (f : Fcall)
    → All IsQid qs
    → length qs ≡ n
    → n ≤ length f.wqid
    → Gives
        (gqids 0 n)
        (qids_bytes qs ++ rest)
        f
        (ok tt rest (record f { wqid = overwrite qs f.wqid }))
gqids_array n qs f h l le = rw (← l) (gqids_lem qs [] f.wqid 0 f h (rw (← l) at le) refl refl)

pub get_body-layout :
    (k : Kind) (f g : Fcall) (rest : List ℕ) → IsSendable k f → IsReceiver g → Carries k f g rest
unfolding get_body get_msize get_version get_afid get_uname get_aname get_mode get_offset get_count
    get_qid
get_body-layout tversion f g rest h r = simp append_assoc (
    need_lem 4 (omega lengths)
    ▸⟨ _ ⟩ (gbit_lem 4 f.msize (omega arith) ▸⟨ _ ⟩ done)
    ▸⟨ _ ⟩ gstring_lem f.version h.1
    ▸⟨ _ ⟩ done)
get_body-layout rversion f g rest h r = simp append_assoc (
    need_lem 4 (omega lengths)
    ▸⟨ _ ⟩ (gbit_lem 4 f.msize (omega arith) ▸⟨ _ ⟩ done)
    ▸⟨ _ ⟩ gstring_lem f.version h.1
    ▸⟨ _ ⟩ done)
get_body-layout tauth f g rest h r = simp append_assoc (
    need_lem 4 (omega lengths)
    ▸⟨ _ ⟩ (gbit_lem 4 f.afid (omega arith) ▸⟨ _ ⟩ done)
    ▸⟨ _ ⟩ (gstring_lem f.uname h.1 ▸⟨ _ ⟩ done)
    ▸⟨ _ ⟩ gstring_lem f.aname h.2
    ▸⟨ _ ⟩ done)
get_body-layout rauth f g rest h r = gqid_lem f.aqid h ▸⟨ _ ⟩ done
get_body-layout tattach f g rest h r = simp append_assoc (
    need_lem 4 (omega lengths)
    ▸⟨ _ ⟩ get_fid_lem f.fid (omega arith)
    ▸⟨ _ ⟩ need_lem 4 (omega lengths)
    ▸⟨ _ ⟩ (gbit_lem 4 f.afid (omega arith) ▸⟨ _ ⟩ done)
    ▸⟨ _ ⟩ (gstring_lem f.uname h.2 ▸⟨ _ ⟩ done)
    ▸⟨ _ ⟩ gstring_lem f.aname h.3
    ▸⟨ _ ⟩ done)
get_body-layout rattach f g rest h r = gqid_lem f.qid h ▸⟨ _ ⟩ done
get_body-layout rerror f g rest h r = gstring_lem f.ename h ▸⟨ _ ⟩ done
get_body-layout tflush f g rest h r =
    need_lem 2 (omega lengths) ▸⟨ _ ⟩ gbit_lem 2 f.oldtag (omega arith) ▸⟨ _ ⟩ done
get_body-layout rflush f g rest h r = done
get_body-layout twalk f g rest (hf, hn, hm, hl, ht) r = simp append_assoc (
    need_lem 10 (omega lengths)
    ▸⟨ _ ⟩ get_fid_lem f.fid hf
    ▸⟨ _ ⟩ gbit_lem 4 f.newfid hn
    ▸⟨ _ ⟩ done
    ▸⟨ _ ⟩ gbit_lem 2 f.nwname (omega arith)
    ▸⟨ _ ⟩ done
    ▸⟨ _ ⟩ refuse_above_lem 16 f.nwname hm
    ▸⟨ _ ⟩
      gstrings_array f.nwname (take f.nwname f.wname)
        (record g { fid = f.fid; newfid = f.newfid; nwname = f.nwname }) ht
        (length-take f.nwname f.wname hl) (omega arith))
get_body-layout rwalk f g rest (hm, hl, ht) r = simp append_assoc (
    need_lem 2 (omega lengths)
    ▸⟨ _ ⟩ gbit_lem 2 f.nwqid (omega arith)
    ▸⟨ _ ⟩ done
    ▸⟨ _ ⟩ refuse_above_lem 16 f.nwqid hm
    ▸⟨ _ ⟩
      gqids_array f.nwqid (take f.nwqid f.wqid) (record g { nwqid = f.nwqid }) ht
        (length-take f.nwqid f.wqid hl) (omega arith))
get_body-layout topen f g rest h r = simp append_assoc (
    need_lem 5 (omega lengths)
    ▸⟨ _ ⟩ get_fid_lem f.fid (omega arith)
    ▸⟨ _ ⟩ gbit_lem 1 f.mode (omega arith)
    ▸⟨ _ ⟩ done)
get_body-layout ropen f g rest h r =
    rw (append_assoc (qid_bytes f.qid) (le_bytes 4 f.iounit) rest) (
      (gqid_lem f.qid h.0 ▸⟨ _ ⟩ done)
      ▸⟨ _ ⟩ need_lem 4 (omega lengths)
      ▸⟨ _ ⟩ gbit_lem 4 f.iounit (omega arith)
      ▸⟨ _ ⟩ done)
get_body-layout tcreate f g rest h r = simp append_assoc (
    need_lem 4 (omega lengths)
    ▸⟨ _ ⟩ get_fid_lem f.fid (omega arith)
    ▸⟨ _ ⟩ gstring_lem f.name h.1
    ▸⟨ _ ⟩ done
    ▸⟨ _ ⟩ need_lem 5 (omega lengths)
    ▸⟨ _ ⟩ gbit_lem 4 f.perm (omega arith)
    ▸⟨ _ ⟩ done
    ▸⟨ _ ⟩ gbit_lem 1 f.mode (omega arith)
    ▸⟨ _ ⟩ done)
get_body-layout rcreate f g rest h r =
    rw (append_assoc (qid_bytes f.qid) (le_bytes 4 f.iounit) rest) (
      (gqid_lem f.qid h.0 ▸⟨ _ ⟩ done)
      ▸⟨ _ ⟩ need_lem 4 (omega lengths)
      ▸⟨ _ ⟩ gbit_lem 4 f.iounit (omega arith)
      ▸⟨ _ ⟩ done)
get_body-layout tread f g rest h r = simp append_assoc (
    need_lem 16 (omega lengths)
    ▸⟨ _ ⟩ get_fid_lem f.fid (omega arith)
    ▸⟨ _ ⟩ (gbit_lem 8 f.offset (omega arith) ▸⟨ _ ⟩ done)
    ▸⟨ _ ⟩ (gbit_lem 4 f.count (omega arith) ▸⟨ _ ⟩ done ▸⟨ _ ⟩ done)
    ▸⟨ _ ⟩ done)
get_body-layout rread f g rest h r =
    simp append_assoc
      (need_lem 4 (omega lengths) ▸⟨ _ ⟩ get_text_lem f.count f.text (omega arith) (omega arith))
get_body-layout twrite f g rest h r = simp append_assoc (
    need_lem 16 (omega lengths)
    ▸⟨ _ ⟩ get_fid_lem f.fid (omega arith)
    ▸⟨ _ ⟩ (gbit_lem 8 f.offset (omega arith) ▸⟨ _ ⟩ done)
    ▸⟨ _ ⟩ get_text_lem f.count f.text (omega arith) (omega arith))
get_body-layout rwrite f g rest h r =
    need_lem 4 (omega lengths)
    ▸⟨ _ ⟩ (gbit_lem 4 f.count (omega arith) ▸⟨ _ ⟩ done ▸⟨ _ ⟩ done)
    ▸⟨ _ ⟩ done
get_body-layout tclunk f g rest h r = need_lem 4 (omega lengths) ▸⟨ _ ⟩ get_fid_lem f.fid h
get_body-layout rclunk f g rest h r = done
get_body-layout tremove f g rest h r = need_lem 4 (omega lengths) ▸⟨ _ ⟩ get_fid_lem f.fid h
get_body-layout rremove f g rest h r = done
get_body-layout tstat f g rest h r = need_lem 4 (omega lengths) ▸⟨ _ ⟩ get_fid_lem f.fid h
get_body-layout rstat f g rest h r =
    simp append_assoc
      (need_lem 2 (omega lengths) ▸⟨ _ ⟩ get_stat_lem f.nstat f.stat (omega arith) (omega arith))
get_body-layout twstat f g rest h r = simp append_assoc (
    need_lem 6 (omega lengths)
    ▸⟨ _ ⟩ get_fid_lem f.fid (omega arith)
    ▸⟨ _ ⟩ get_stat_lem f.nstat f.stat (omega arith) (omega arith))
get_body-layout rwstat f g rest h r = done
