-- ===== src/Wire.antt =====
-- Byte buffers of messages: the field widths of include/fcall.h, the strings and qids of
-- include/lib.h, and the two ways to go over a buffer, in the children.
-- A `char*` is `none` for nil and else the bytes before its NUL.
pub mod Writer
pub mod Reader
use drawterm_android.Base.{◌^◌, ◌%◌, ◌+◌, ℕ, List, Option}

-- BIT8SZ to BIT64SZ and QIDSZ.
abbrev pub bit8sz : ℕ
bit8sz = 1

abbrev pub bit16sz : ℕ
bit16sz = 2

abbrev pub bit32sz : ℕ
bit32sz = 4

abbrev pub bit64sz : ℕ
bit64sz = 8

abbrev pub qidsz : ℕ
qidsz = bit8sz + bit32sz + bit64sz

-- `uint` is 32 bits wide. Its sums are taken whole and cut once, in `size_s2m`.
abbrev pub u32 : ℕ → ℕ
u32 n = n % 2 ^ 32

abbrev pub CharPtr : Type 0
CharPtr = Option (List ℕ)

pub record Qid : Type 0 where
  pub path : ℕ
  pub vers : ℕ
  pub type : ℕ
