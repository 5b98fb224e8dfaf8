-- ===== src/Qio.antt =====
-- Blocks and queues of the kernel: kern/qio.c and kern/allocb.c, with the structures of kern/dat.h.
-- A block is the bytes from `rp` to `wp` and the room on both sides of them, so that base, rp, wp
-- and lim stand in their order. A chain along `next` is the list of its blocks, nil the empty one.
-- `none` is a write behind `lim` or a read through nil.
pub mod Alloc
pub mod Blocks
pub mod Queue
pub mod System
mod Tests
use drawterm_android.Base.{
  ℕ, ◌+◌, ◌-◌, ◌≤◌, ◌≡◌, ltb, if◌then◌else◌, Bool, Option, none, some, List, [], ◌∷◌, ◌++◌, length,
  take, drop,
}

pub record Block : Type 0 where
  pub front : ℕ
  pub bytes : List ℕ
  pub back : ℕ

-- BLEN and BALLOC.
abbrev pub blen : Block → ℕ
blen b = length b.bytes

abbrev pub balloc : Block → ℕ
balloc b = b.front + length b.bytes + b.back

-- `memmove(b->wp, p, n); b->wp += n;`
abbrev pub stored : Block → List ℕ → Block
stored b p = record { front = b.front; bytes = b.bytes ++ p; back = b.back - length p }

unfoldable pub put : Block → List ℕ → Option Block
put b p = if ltb b.back (length p) then none else some (stored b p)

-- `b->rp += n`, for an `n` up to BLEN(b).
abbrev pub advance : Block → ℕ → Block
advance b n = record { front = b.front + n; bytes = drop n b.bytes; back = b.back }

-- `b->wp = b->rp + n`, for an `n` up to BLEN(b).
abbrev pub shorten : Block → ℕ → Block
shorten b n = record { front = b.front; bytes = take n b.bytes; back = b.back + (blen b - n) }

-- What the functions here rely on of `allocb` and `iallocb`. What a fresh block holds is not read.
pub record Allocator : Type 0 where
  pub allocb : ℕ → Block
  pub allocb_empty : (n : ℕ) → (allocb n).bytes ≡ []
  pub allocb_fits : (n : ℕ) → n ≤ (allocb n).back

-- The bytes of a chain, in order.
abbrev pub content : List Block → List ℕ
content [] = []
content (b ∷ bs) = b.bytes ++ content bs

unfoldable pub blocklen : List Block → ℕ
blocklen [] = 0
blocklen (b ∷ bs) = blen b + blocklen bs

unfoldable pub blockalloclen : List Block → ℕ
blockalloclen [] = 0
blockalloclen (b ∷ bs) = balloc b + blockalloclen bs
