-- ===== src/Dir/RoundTrip.antt =====
-- A stat entry that `conv_d2m` codes is read back by `conv_m2d` and passes `statcheck`.
use drawterm_android.Base.{
  length-append_bytes, length-le_bytes, append_assoc, true, le→ltb, arith, lengths, ◌++◌, ◌+◌, ◌-◌,
  le_bytes, ◌*◌, ◌^◌, ◌≡◌, ◌≤◌, List, length, ℕ, ◌<◌, refl, some, none, [], ◌∷◌,
}
use drawterm_android.Wire.{CharPtr}
use drawterm_android.Wire.Writer.{more}
use drawterm_android.Wire.Reader.{ok, c_string}
use drawterm_android.Wire.Reader.Steps.{
  Gives, gives, given, ◌▸⟨◌⟩◌, done, need_lem, gbit_lem, read_lem, c_string_lem,
}
use drawterm_android.Fcall.Layout.{str, strs, IsText, IsQid, received}
use drawterm_android.Dir.{Dir, strings}
use drawterm_android.Dir.Encode.{
  strlen, strlens, size_d2m, put_chars, put_strings, put_fixed, put_dir, coded, conv_d2m,
}
use drawterm_android.Dir.Decode.{Sink, get_string, get_fixed, get_dir, chosen, parsed, conv_m2d}

abbrev pub fixed_bytes : Dir → List ℕ
fixed_bytes d =
    le_bytes 2 d.type
    ++ (le_bytes 4 d.dev
        ++ (le_bytes 1 d.qid.type
            ++ (le_bytes 4 d.qid.vers
                ++ (le_bytes 8 d.qid.path
                    ++ (le_bytes 4 d.mode
                        ++ (le_bytes 4 d.atime ++ (le_bytes 4 d.mtime ++ le_bytes 8 d.length)))))))

-- The format of an entry: the count of the bytes that follow it, the fixed fields, the strings.
abbrev pub entry : Dir → List ℕ
entry d = le_bytes 2 (size_d2m d - 2) ++ (fixed_bytes d ++ strs (strings d))

-- The fields lie in the widths that the format gives them, and the strings in its counts.
pub record IsEntry (d : Dir) : Type 0 where
  pub type_fits : d.type < 2 ^ 16
  pub dev_fits : d.dev < 2 ^ 32
  pub qid_fits : IsQid d.qid
  pub mode_fits : d.mode < 2 ^ 32
  pub atime_fits : d.atime < 2 ^ 32
  pub mtime_fits : d.mtime < 2 ^ 32
  pub length_fits : d.length < 2 ^ 64
  pub name_fits : IsText d.name
  pub uid_fits : IsText d.uid
  pub gid_fits : IsText d.gid
  pub muid_fits : IsText d.muid

length-str : (c : CharPtr) → length (str c) ≡ 2 + strlen c
unfolding strlen
length-str none = omega lengths
length-str (some s) = omega lengths

length-strs : (ss : List CharPtr) → length (strs ss) ≡ 2 * length ss + strlens ss
unfolding strlens
length-strs [] = omega arith
length-strs (s ∷ ss) = omega (lengths, length-str s, length-strs ss)

pub length-entry : (d : Dir) → length (entry d) ≡ size_d2m d
unfolding size_d2m
length-entry d = omega (lengths, length-strs (strings d))

put_strings-strs :
    (room : ℕ) (ss : List CharPtr)
    → 2 * length ss + strlens ss ≤ room
    → put_strings room ss ≡ more (strs ss)
unfolding put_strings put_chars strlens strlen
put_strings-strs room [] h = refl
put_strings-strs room (none ∷ ss) h =
    rw (le→ltb room 2 (omega arith), put_strings-strs (room - 2) ss (omega arith))
put_strings-strs room (some s ∷ ss) h = rw (
  le→ltb room (length s + 2) (omega arith),
  put_strings-strs (room - (length s + 2)) ss (omega arith),
  append_assoc (le_bytes 2 (length s)) s (strs ss),
)

put_dir-entry : (d : Dir) (nbuf : ℕ) → size_d2m d ≤ nbuf → put_dir d nbuf ≡ more (entry d)
unfolding put_dir put_fixed
put_dir-entry d nbuf h =
    rw (put_strings-strs (nbuf - 41) (strings d) (unfold size_d2m in omega arith))

pub size_d2m-le : (d : Dir) → 49 ≤ size_d2m d
unfolding size_d2m
size_d2m-le d = omega arith

pub conv_d2m-entry :
    (d : Dir) (nbuf : ℕ)
    → size_d2m d ≤ nbuf
    → conv_d2m d nbuf ≡ record { ret = size_d2m d; out = entry d }
unfolding conv_d2m coded
conv_d2m-entry d nbuf h =
    let low = size_d2m-le d in
    rw
      (
        le→ltb nbuf 2 (omega arith),
        le→ltb nbuf (size_d2m d) h,
        put_dir-entry d nbuf h,
        length-entry d,
      )
      (ground arith)

-- The entry as the receiver has it.
abbrev pub received_dir : Dir → Dir
received_dir d = record d {
  name = received d.name;
  uid = received d.uid;
  gid = received d.gid;
  muid = received d.muid;
}

abbrev chars : CharPtr → List ℕ
chars none = []
chars (some s) = s

get_string_lem :
    (c : CharPtr) {rest : List ℕ} (k : Sink)
    → IsText c
    → Gives
        (get_string true)
        (str c ++ rest)
        k
        (ok (received c) rest (record k { strs = k.strs ++ (chars c ++ (0 ∷ [])) }))
unfolding get_string c_string
get_string_lem none {rest} k h =
    need_lem 2 (omega lengths)
    ▸⟨ _ ⟩ gbit_lem 2 0 (omega arith)
    ▸⟨ _ ⟩ need_lem 0 (omega arith)
    ▸⟨ _ ⟩ read_lem 0 [] {rest = rest} refl
    ▸⟨ _ ⟩ done
    ▸⟨ _ ⟩ done
get_string_lem (some s) k h = simp append_assoc (
    need_lem 2 (omega lengths)
    ▸⟨ _ ⟩ gbit_lem 2 (length s) (omega arith)
    ▸⟨ _ ⟩ need_lem (length s) (omega lengths)
    ▸⟨ _ ⟩ read_lem (length s) s refl
    ▸⟨ _ ⟩ done
    ▸⟨ _ ⟩ gives (rw (c_string_lem s h.1)))

abbrev with_fixed : Dir → Dir → Dir
with_fixed d e = record d { name = e.name; uid = e.uid; gid = e.gid; muid = e.muid }

get_fixed_lem :
    (count : ℕ) (d : Dir) {rest : List ℕ} (k : Sink)
    → IsEntry d
    → Gives get_fixed
        (le_bytes 2 count ++ (fixed_bytes d ++ rest))
        k
        (ok tt rest (record k { dir = with_fixed d k.dir }))
unfolding get_fixed
get_fixed_lem count d k h = simp append_assoc (
    read_lem 2 (le_bytes 2 count) (length-le_bytes 2 count)
    ▸⟨ _ ⟩ gbit_lem 2 d.type h.type_fits
    ▸⟨ _ ⟩ done
    ▸⟨ _ ⟩ gbit_lem 4 d.dev h.dev_fits
    ▸⟨ _ ⟩ done
    ▸⟨ _ ⟩ gbit_lem 1 d.qid.type (omega arith)
    ▸⟨ _ ⟩ done
    ▸⟨ _ ⟩ gbit_lem 4 d.qid.vers (omega arith)
    ▸⟨ _ ⟩ done
    ▸⟨ _ ⟩ gbit_lem 8 d.qid.path (omega arith)
    ▸⟨ _ ⟩ done
    ▸⟨ _ ⟩ gbit_lem 4 d.mode h.mode_fits
    ▸⟨ _ ⟩ done
    ▸⟨ _ ⟩ gbit_lem 4 d.atime h.atime_fits
    ▸⟨ _ ⟩ done
    ▸⟨ _ ⟩ gbit_lem 4 d.mtime h.mtime_fits
    ▸⟨ _ ⟩ done
    ▸⟨ _ ⟩ gbit_lem 8 d.length h.length_fits
    ▸⟨ _ ⟩ done)

-- What is stored at `strs`: each string with its NUL.
abbrev pub stored : List CharPtr → List ℕ
stored [] = []
stored (c ∷ cs) = (chars c ++ (0 ∷ [])) ++ stored cs

strs-append :
    (d : Dir) (rest : List ℕ)
    → strs (strings d) ++ rest ≡ str d.name ++ (str d.uid ++ (str d.gid ++ (str d.muid ++ rest)))
strs-append d rest = simp append_assoc

get_dir_lem :
    (d e : Dir) (rest : List ℕ)
    → IsEntry d
    → Gives
        (get_dir true)
        (entry d ++ rest)
        (record { dir = e; strs = [] })
        (ok tt rest (record { dir = received_dir d; strs = stored (strings d) }))
unfolding get_dir chosen
get_dir_lem d e rest h =
    let fixed = fixed_bytes d in
    rw
      (
        append_assoc (le_bytes 2 (size_d2m d - 2)) (fixed ++ strs (strings d)) rest,
        append_assoc fixed (strs (strings d)) rest,
        strs-append d rest,
      )
      (need_lem 49 (
          omega (lengths, length-str d.name, length-str d.uid, length-str d.gid, length-str d.muid))
        ▸⟨ _ ⟩ get_fixed_lem (size_d2m d - 2) d (record { dir = e; strs = [] }) h
        ▸⟨ _ ⟩ get_string_lem d.name _ h.name_fits
        ▸⟨ _ ⟩ get_string_lem d.uid _ h.uid_fits
        ▸⟨ _ ⟩ get_string_lem d.gid _ h.gid_fits
        ▸⟨ _ ⟩ get_string_lem d.muid _ h.muid_fits
        ▸⟨ _ ⟩ gives (simp append_assoc))

-- An entry in range, coded into a buffer that holds it, is read back whole, whatever follows it
-- and whatever `*d` held: the reader takes exactly the bytes that the writer reports, and the
-- strings stand at `strs` one after the other, each with its NUL.
pub conv_m2d-conv_d2m :
    (d e : Dir) (nbuf : ℕ) (rest : List ℕ)
    → IsEntry d
    → size_d2m d ≤ nbuf
    → ((conv_d2m d nbuf).ret ≡ size_d2m d)
      × (length (conv_d2m d nbuf).out ≡ size_d2m d)
      × (conv_m2d ((conv_d2m d nbuf).out ++ rest) e true
          ≡ some (record {
            ret = size_d2m d;
            sink = record { dir = received_dir d; strs = stored (strings d) };
          }))
unfolding conv_m2d parsed
conv_m2d-conv_d2m d e nbuf rest h room = rw (conv_d2m-entry d nbuf room) (
  refl,
  length-entry d,
  rw (given (get_dir_lem d e rest h), parsed)
      (ground (arith, length-append_bytes (entry d) rest, length-entry d)),
)
