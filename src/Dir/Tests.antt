-- ===== src/Dir/Tests.antt =====
-- Runs of the coders on concrete entries, and their theorems at concrete inputs.
use drawterm_android.Base.{
  refl, some, none, [], ◌∷◌, true, false, List, ℕ, arith, le_bytes, split, ◌≡◌, ◌≢◌, le_value,
  length, ◌++◌,
}
use drawterm_android.Dir.{Dir, strings}
use drawterm_android.Dir.Encode.{
  size_d2m, strlens, strlen, conv_d2m, put_dir, coded, put_fixed, put_strings, put_chars,
}
use drawterm_android.Dir.Decode.{conv_m2d, statcheck, Sink, gbit16_at, stat_loop, stat_count}
use drawterm_android.Dir.RoundTrip.{IsEntry, received_dir, stored, conv_m2d-conv_d2m}
use drawterm_android.Dir.Check.{conv_m2d-statcheck}
use drawterm_android.Dir.Accept.{statcheck_total, statcheck-conv_d2m}

abbrev blank : Dir
blank = record {
  type = 0;
  dev = 0;
  qid = record { path = 0; vers = 0; type = 0 };
  mode = 0;
  atime = 0;
  mtime = 0;
  length = 0;
  name = none;
  uid = none;
  gid = none;
  muid = none;
}

abbrev readme : Dir
readme = record {
  type = 77;
  dev = 3;
  qid = record { path = 300; vers = 2; type = 128 };
  mode = 0x1ed;
  atime = 5;
  mtime = 6;
  length = 70000;
  name = some (97 ∷ 98 ∷ []);
  uid = some (99 ∷ []);
  gid = none;
  muid = some [];
}

readme-IsEntry : IsEntry readme
readme-IsEntry = omega arith

readme_size : size_d2m readme ≡ 52
unfolding size_d2m strlens strlen
readme_size = refl

readme_too_small : conv_d2m readme 51 ≡ record { ret = 2; out = 50 ∷ 0 ∷ [] }
unfolding conv_d2m size_d2m strlens strlen le_bytes
readme_too_small = refl

conv_m2d-conv_d2m_example :
    ((conv_d2m readme 60).ret ≡ size_d2m readme)
    × (length (conv_d2m readme 60).out ≡ size_d2m readme)
    × (conv_m2d ((conv_d2m readme 60).out ++ (7 ∷ [])) blank true
        ≡ some (record {
          ret = size_d2m readme;
          sink = record { dir = received_dir readme; strs = stored (strings readme) };
        }))
conv_m2d-conv_d2m_example =
    conv_m2d-conv_d2m readme blank 60 (7 ∷ []) readme-IsEntry (omega (arith, readme_size))

statcheck-conv_d2m_example : statcheck (conv_d2m readme 60).out ≡ some true
statcheck-conv_d2m_example =
    statcheck-conv_d2m readme 60 readme-IsEntry (omega (arith, readme_size))
      (omega (arith, readme_size))

statcheck_total_example : statcheck (9 ∷ []) ≢ none
statcheck_total_example = statcheck_total (9 ∷ [])

abbrev readme_bytes : List ℕ
readme_bytes =
    50 ∷ 0 ∷ 77 ∷ 0 ∷ 3 ∷ 0 ∷ 0 ∷ 0 ∷ 128 ∷ 2 ∷ 0 ∷ 0 ∷ 0 ∷ 44 ∷ 1 ∷ 0 ∷ 0 ∷ 0 ∷ 0 ∷ 0 ∷ 0 ∷ 237 ∷ 1
    ∷ 0 ∷ 0 ∷ 5 ∷ 0 ∷ 0 ∷ 0 ∷ 6 ∷ 0 ∷ 0 ∷ 0 ∷ 112 ∷ 17 ∷ 1 ∷ 0 ∷ 0 ∷ 0 ∷ 0 ∷ 0 ∷ 2 ∷ 0 ∷ 97 ∷ 98 ∷ 1
    ∷ 0 ∷ 99 ∷ 0 ∷ 0 ∷ 0 ∷ 0 ∷ []

readme_coded : conv_d2m readme 60 ≡ record { ret = 52; out = readme_bytes }
unfolding conv_d2m size_d2m strlens strlen le_bytes put_dir coded put_fixed put_strings put_chars
readme_coded = refl

readme_checked : statcheck readme_bytes ≡ some true
unfolding statcheck stat_count gbit16_at stat_loop split le_value
readme_checked = refl

conv_m2d-statcheck_example :
    (s : Sink) × (conv_m2d readme_bytes blank false
      ≡ some (record { ret = length readme_bytes; sink = s }))
conv_m2d-statcheck_example = conv_m2d-statcheck readme_bytes blank false readme_checked
