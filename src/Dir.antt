-- ===== src/Dir.antt =====
-- Stat entries: the Dir structure of include/lib.h and its coders, libc/convD2M.c and libc/convM2D.c.
pub mod Encode
pub mod Decode
pub mod RoundTrip
pub mod Check
pub mod Accept
mod Tests
use drawterm_android.Base.{ℕ, ◌+◌, ◌*◌, List, [], ◌∷◌}
use drawterm_android.Wire.{CharPtr, Qid, bit8sz, bit16sz, bit32sz, bit64sz, qidsz}

pub record Dir : Type 0 where
  pub type : ℕ
  pub dev : ℕ
  pub qid : Qid
  pub mode : ℕ
  pub atime : ℕ
  pub mtime : ℕ
  pub length : ℕ
  pub name : CharPtr
  pub uid : CharPtr
  pub gid : CharPtr
  pub muid : CharPtr

-- STATFIXLEN: the fixed part of an entry, with its leading count and the counts of the strings.
abbrev pub statfixlen : ℕ
statfixlen = bit16sz + qidsz + 5 * bit16sz + 4 * bit32sz + 1 * bit64sz

-- The array `sv` of both coders.
abbrev pub strings : Dir → List CharPtr
strings d = d.name ∷ d.uid ∷ d.gid ∷ d.muid ∷ []
