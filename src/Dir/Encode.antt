-- ===== src/Dir/Encode.antt =====
-- libc/convD2M.c: the size and the bytes of a stat entry.
-- The sums of the lengths are `int` in C; they are numbers here, as they are there for strings of
-- less than 2 ^ 31 bytes together.
use drawterm_android.Base.{
  le_bytes, ◌*◌, ℕ, ◌+◌, ◌-◌, ltb, ◌==◌, if◌then◌else◌, none, some, List, [], ◌∷◌, length,
}
use drawterm_android.Wire.{CharPtr, bit8sz, bit16sz, bit32sz, bit64sz}
use drawterm_android.Wire.Writer.{Stored, more, stop, fault, ◌>>◌, pbit}
use drawterm_android.Dir.{Dir, statfixlen, strings}

-- `nsv[i]`: the length of a string, 0 for nil.
unfoldable pub strlen : CharPtr → ℕ
strlen none = 0
strlen (some s) = length s

-- The loop that adds the lengths up.
unfoldable pub strlens : List CharPtr → ℕ
strlens [] = 0
strlens (s ∷ ss) = strlen s + strlens ss

unfoldable pub size_d2m : Dir → ℕ
size_d2m d = statfixlen + strlens (strings d)

-- The bytes of a string, none for nil.
unfoldable pub put_chars : CharPtr → Stored
put_chars none = more []
put_chars (some s) = more s

-- The loop over the strings; `room` is `ebuf - p`.
unfoldable pub put_strings : ℕ → List CharPtr → Stored
put_strings room [] = more []
put_strings room (s ∷ ss) =
    let rest = put_strings (room - (strlen s + bit16sz)) ss in
    if ltb room (strlen s + bit16sz) then stop [] else do pbit bit16sz (strlen s); put_chars s; rest

unfoldable pub put_fixed : Dir → Stored
put_fixed d = do
  pbit bit16sz d.type
  pbit bit32sz d.dev
  pbit bit8sz d.qid.type
  pbit bit32sz d.qid.vers
  pbit bit64sz d.qid.path
  pbit bit32sz d.mode
  pbit bit32sz d.atime
  pbit bit32sz d.mtime
  pbit bit64sz d.length

-- The returned number and the bytes stored from `buf` on.
pub record Coded : Type 0 where
  pub ret : ℕ
  pub out : List ℕ

-- The test `ss != p - buf` and the returns. No step of this coder reads behind an array.
unfoldable pub coded : ℕ → Stored → Coded
coded size (more bs) = record { ret = if length bs == size then length bs else 0; out = bs }
coded size (stop bs) = record { ret = 0; out = bs }
coded size fault = record { ret = 0; out = [] }

-- The fields behind the count; `nbuf` is the size of the buffer.
unfoldable pub put_dir : Dir → ℕ → Stored
put_dir d nbuf = do
  pbit bit16sz (size_d2m d - bit16sz)
  put_fixed d
  put_strings (nbuf - (statfixlen - 4 * bit16sz)) (strings d)

-- A buffer that is too small gets the needed count alone.
unfoldable pub conv_d2m : Dir → ℕ → Coded
conv_d2m d nbuf =
    if ltb nbuf bit16sz
    then record { ret = 0; out = [] }
    else if ltb nbuf (size_d2m d)
    then record { ret = bit16sz; out = le_bytes bit16sz (size_d2m d - bit16sz) }
    else coded (size_d2m d) (put_dir d nbuf)
