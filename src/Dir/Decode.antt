-- ===== src/Dir/Decode.antt =====
-- libc/convM2D.c: a stat entry from its bytes, and the check of an entry.
use mathlib.Core.Option
use drawterm_android.Base.{
  ◌*◌, ℕ, zero, suc, ◌+◌, ◌-◌, ltb, ◌==◌, Bool, true, false, if◌then◌else◌, Option, none, some,
  List, [], ◌∷◌, ◌++◌, length, split, drop, le_value,
}
use drawterm_android.Wire.{CharPtr, bit8sz, bit16sz, bit32sz, bit64sz}
use drawterm_android.Wire.Reader.{
  Outcome, ok, fail, fault, M, ◌>>=◌, ◌>>◌, return, need, read, gbit, assign, c_string,
}
use drawterm_android.Dir.{Dir, statfixlen}

-- The entry that is filled in, and what has been stored at `strs`.
pub record Sink : Type 0 where
  pub dir : Dir
  pub strs : List ℕ

abbrev pub on_dir : (Dir → Dir) → M Sink (Unit {0})
on_dir g = assign (λ s. record s { dir = g s.dir })

-- A round of the loop over the strings; `has_strs` says that `strs` is not nil.
unfoldable pub get_string : Bool → M Sink CharPtr
get_string has_strs = do
  need bit16sz
  ns ← gbit bit16sz
  need ns
  bs ← read ns
  assign (λ s. if has_strs then record s { strs = s.strs ++ (bs ++ (0 ∷ [])) } else s)
  return (some (c_string bs))

unfoldable pub get_fixed : M Sink (Unit {0})
get_fixed = do
  count ← read bit16sz
  type ← gbit bit16sz
  on_dir (λ d. record d { type = type })
  dev ← gbit bit32sz
  on_dir (λ d. record d { dev = dev })
  qtype ← gbit bit8sz
  on_dir (λ d. record d { qid = record { path = d.qid.path; vers = d.qid.vers; type = qtype } })
  vers ← gbit bit32sz
  on_dir (λ d. record d { qid = record { path = d.qid.path; vers = vers; type = d.qid.type } })
  path ← gbit bit64sz
  on_dir (λ d. record d { qid = record { path = path; vers = d.qid.vers; type = d.qid.type } })
  mode ← gbit bit32sz
  on_dir (λ d. record d { mode = mode })
  atime ← gbit bit32sz
  on_dir (λ d. record d { atime = atime })
  mtime ← gbit bit32sz
  on_dir (λ d. record d { mtime = mtime })
  size ← gbit bit64sz
  on_dir (λ d. record d { length = size })

-- `nullstring` stands for each string where `strs` is nil.
unfoldable pub chosen : Bool → CharPtr → CharPtr
chosen true s = s
chosen false s = some []

-- The four rounds of the loop are written out.
unfoldable pub get_dir : Bool → M Sink (Unit {0})
get_dir has_strs = do
  need statfixlen
  get_fixed
  name ← get_string has_strs
  uid ← get_string has_strs
  gid ← get_string has_strs
  muid ← get_string has_strs
  on_dir (λ d. record d {
    name = chosen has_strs name;
    uid = chosen has_strs uid;
    gid = chosen has_strs gid;
    muid = chosen has_strs muid;
  })

-- The returned number and what is left in `*d` and stored at `strs`.
pub record Parsed : Type 0 where
  pub ret : ℕ
  pub sink : Sink

unfoldable pub parsed : List ℕ → Outcome Sink (Unit {0}) → Option Parsed
parsed buf (ok _ p s) = some (record { ret = length buf - length p; sink = s })
parsed buf (fail s) = some (record { ret = 0; sink = s })
parsed buf fault = none

-- `none` is a read outside the buffer.
unfoldable pub conv_m2d : List ℕ → Dir → Bool → Option Parsed
conv_m2d buf d has_strs = parsed buf (get_dir has_strs buf (record { dir = d; strs = [] }))

-- GBIT16 at an offset; `none` is a read outside the buffer.
unfoldable pub gbit16_at : List ℕ → ℕ → Option ℕ
gbit16_at buf pos =
    Option.map (λ (t : List ℕ × List ℕ). le_value t.0) (split bit16sz (drop pos buf))

-- The loop of `statcheck` with the rounds that are left; true is the return of 0.
unfoldable pub stat_loop : List ℕ → ℕ → ℕ → Option Bool
stat_loop buf zero pos = some (pos == length buf)
stat_loop buf (suc n) pos = elim (ltb (length buf) (pos + bit16sz)) [
  | true ↦ some false
  | false ↦ elim (gbit16_at buf pos) [
    | none ↦ none
    | some ns ↦ stat_loop buf n (pos + (bit16sz + ns))
  ]
]

unfoldable pub stat_count : List ℕ → Option ℕ → Option Bool
stat_count buf none = none
stat_count buf (some count) =
    if length buf == bit16sz + count then stat_loop buf 4 (statfixlen - 4 * bit16sz) else some false

unfoldable pub statcheck : List ℕ → Option Bool
statcheck buf = if ltb (length buf) statfixlen then some false else stat_count buf (gbit16_at buf 0)
