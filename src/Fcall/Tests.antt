-- ===== src/Fcall/Tests.antt =====
-- Runs of the coders on concrete messages, and their theorems at concrete inputs.
use drawterm_android.Wire.{CharPtr, Qid}
use drawterm_android.Wire.Reader.{◌>>=◌, need, refuse_above, read, gbit, c_string}
use drawterm_android.Base.{
  ◌+◌, ◌⊎◌, ◌≤◌, length, ◌≢◌, arith, ℕ, List, ◌++◌, ◌≡◌, refl, some, none, [], ◌∷◌,
}
use drawterm_android.Fcall.{kind_of, Fcall, twalk}
use drawterm_android.Fcall.Layout.{carry}
use drawterm_android.Base.{le_bytes, le_value, split}
use drawterm_android.Fcall.Encode.{
  put_sized, size_s2m, size_case, stringsz, stringsz_all, put_case, coded, put_message, put_body,
  at_most, pstrings, pstring, Coded, conv_s2m, body_size, header_size,
}
use drawterm_android.Fcall.Encode.Sizes.{conv_s2m_bounds}
use drawterm_android.Fcall.Decode.{
  parsed, get_message, get_case, get_body, get_fid, gstrings, gstring, conv_m2s,
}
use drawterm_android.Fcall.Decode.Bounds.{conv_m2s_total, conv_m2s-append}
use drawterm_android.Fcall.RoundTrip.{message_size, conv_m2s-conv_s2m}

abbrev no_qid : Qid
no_qid = record { path = 0; vers = 0; type = 0 }

abbrev no_names : List CharPtr
no_names =
    none ∷ none ∷ none ∷ none ∷ none ∷ none ∷ none ∷ none ∷ none ∷ none ∷ none ∷ none ∷ none ∷ none
    ∷ none ∷ none ∷ []

abbrev no_qids : List Qid
no_qids =
    no_qid ∷ no_qid ∷ no_qid ∷ no_qid ∷ no_qid ∷ no_qid ∷ no_qid ∷ no_qid ∷ no_qid ∷ no_qid ∷ no_qid
    ∷ no_qid ∷ no_qid ∷ no_qid ∷ no_qid ∷ no_qid ∷ []

abbrev blank : Fcall
blank = record {
  type = 0;
  fid = 0;
  tag = 0;
  msize = 0;
  version = none;
  oldtag = 0;
  ename = none;
  qid = no_qid;
  iounit = 0;
  aqid = no_qid;
  afid = 0;
  uname = none;
  aname = none;
  perm = 0;
  name = none;
  mode = 0;
  newfid = 0;
  nwname = 0;
  wname = no_names;
  nwqid = 0;
  wqid = no_qids;
  offset = 0;
  count = 0;
  text = [];
  nstat = 0;
  stat = [];
}

-- Twalk of fid 5 to fid 300 by "ab" and "c".
abbrev walk : Fcall
walk = record blank {
  type = 110;
  tag = 258;
  fid = 5;
  newfid = 300;
  nwname = 2;
  wname = some (97 ∷ 98 ∷ []) ∷ some (99 ∷ []) ∷ [];
}

abbrev walk_bytes : List ℕ
walk_bytes =
    24 ∷ 0 ∷ 0 ∷ 0 ∷ 110 ∷ 2 ∷ 1 ∷ 5 ∷ 0 ∷ 0 ∷ 0 ∷ 44 ∷ 1 ∷ 0 ∷ 0 ∷ 2 ∷ 0 ∷ 2 ∷ 0 ∷ 97 ∷ 98 ∷ 1 ∷ 0
    ∷ 99 ∷ []

walk_coded : conv_s2m walk 24 ≡ some (record { ret = 24; out = walk_bytes })
unfolding conv_s2m put_sized size_s2m size_case kind_of body_size stringsz stringsz_all put_case
    coded put_message put_body at_most pstrings pstring le_bytes
walk_coded = refl

walk_too_long : conv_s2m walk 23 ≡ some (record { ret = 0; out = [] })
unfolding conv_s2m put_sized size_s2m size_case kind_of body_size stringsz stringsz_all put_case
    coded put_message put_body at_most pstrings pstring le_bytes
walk_too_long = refl

walk_parsed :
    conv_m2s (walk_bytes ++ (7 ∷ [])) blank
    ≡ some (record { ret = 24; fcall = carry twalk walk (record blank { type = 110; tag = 258 }) })
unfolding conv_m2s parsed get_message need gbit read split le_value refuse_above get_case kind_of
    get_body get_fid gstrings gstring c_string ◌>>=◌
walk_parsed = refl

conv_m2s-conv_s2m_example :
    (c : Coded) × (conv_s2m walk 100 ≡ some c)
    × (c.ret ≡ message_size twalk walk)
    × (conv_m2s (c.out ++ (7 ∷ [])) blank
        ≡ some (record {
          ret = c.ret;
          fcall = carry twalk walk (record blank { type = 110; tag = 258 });
        }))
unfolding le_bytes
conv_m2s-conv_s2m_example =
    conv_m2s-conv_s2m twalk walk blank 100 (7 ∷ []) refl (omega arith) (omega arith) (omega arith)
      (omega arith) (omega arith)

abbrev walk_result : Coded
walk_result = record { ret = 24; out = walk_bytes }

conv_s2m_bounds_example :
    (length walk_result.out ≤ 24)
    × ((walk_result.ret ≡ 0)
        ⊎ ((walk_result.ret ≡ header_size + 17) × (length walk_result.out ≡ walk_result.ret)))
unfolding body_size kind_of stringsz stringsz_all
conv_s2m_bounds_example =
    conv_s2m_bounds walk 24 twalk 17 walk_result refl refl (omega arith) walk_coded

conv_m2s_total_example : conv_m2s (9 ∷ 0 ∷ 0 ∷ 0 ∷ 107 ∷ 1 ∷ 0 ∷ 255 ∷ 255 ∷ []) blank ≢ none
conv_m2s_total_example = conv_m2s_total (9 ∷ 0 ∷ 0 ∷ 0 ∷ 107 ∷ 1 ∷ 0 ∷ 255 ∷ 255 ∷ []) blank

conv_m2s-append_example :
    conv_m2s (walk_bytes ++ (7 ∷ []) ++ (8 ∷ [])) blank
    ≡ some (record { ret = 24; fcall = carry twalk walk (record blank { type = 110; tag = 258 }) })
conv_m2s-append_example =
    conv_m2s-append (walk_bytes ++ (7 ∷ [])) (8 ∷ []) blank
      (carry twalk walk (record blank { type = 110; tag = 258 })) 23 walk_parsed
