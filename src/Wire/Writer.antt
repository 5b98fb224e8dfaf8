-- ===== src/Wire/Writer.antt =====
-- Storing into a buffer from a pointer `p` on, as libc/convS2M.c and libc/convD2M.c do it with the
-- macros PBIT8 to PBIT64 of include/fcall.h.
pub mod Sizes
use drawterm_android.Base.{ℕ, ltb, if◌then◌else◌, List, ◌++◌, length, take, le_bytes}

-- What a part of the coder has stored at `p`: it goes on, it returns 0, or it has read behind an
-- array (`fault`).
pub data Stored : Type 0 where
  more : List ℕ → Stored
  stop : List ℕ → Stored
  fault : Stored

-- Bytes in front of what is stored next.
abbrev pub after : List ℕ → Stored → Stored
after bs (more cs) = more (bs ++ cs)
after bs (stop cs) = stop (bs ++ cs)
after bs fault = fault

infixl 5 ◌>>◌
abbrev pub ◌>>◌ : Stored → Stored → Stored
more bs >> m = after bs m
stop bs >> m = stop bs
fault >> m = fault

-- PBIT8 to PBIT64: the argument is the width in bytes.
abbrev pub pbit : ℕ → ℕ → Stored
pbit n v = more (le_bytes n v)

-- `memmove(p, from, n)`
unfoldable pub memmove : List ℕ → ℕ → Stored
memmove from n = if ltb (length from) n then fault else more (take n from)
