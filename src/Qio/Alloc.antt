-- ===== src/Qio/Alloc.antt =====
-- kern/allocb.c: where the data of a new block lies in the memory that `mallocz` gives.
use drawterm_android.Base.{
  ℕ, ◌+◌, ◌-◌, ◌*◌, ◌/◌, ◌≤◌, ◌≡◌, refl, ltb, if◌then◌else◌, Option, none, some, [], arith,
}
use drawterm_android.Qio.{Block, balloc, Allocator}

abbrev pub hdrspc : ℕ
hdrspc = 64

abbrev pub tlrspc : ℕ
tlrspc = 16

-- ROUND(s, BLOCKALIGN), and the same downwards.
abbrev pub round_up : ℕ → ℕ
round_up s = (s + 7) / 8 * 8

abbrev pub round_down : ℕ → ℕ
round_down s = s / 8 * 8

-- `addr` is where the memory lies and `header` is sizeof(Block); `none` is the panic.
unfoldable pub alloc_at : ℕ → ℕ → ℕ → Option Block
alloc_at addr header wanted =
    let size = wanted + tlrspc in
    let base = round_up (addr + header) in
    let lim = round_down (addr + header + size + hdrspc) in
    let rp = lim - round_up size in
    if ltb rp base then none else some (record { front = rp - base; bytes = []; back = lim - rp })

-- Wherever the memory lies, `_allocb` does not panic, and the new block is empty and has room for
-- the bytes asked for and 16 more behind and for 43 in front, all of it inside the memory.
pub alloc_at_fits :
    (addr header wanted : ℕ)
    → (b : Block) × (alloc_at addr header wanted ≡ some b)
      × (b.bytes ≡ [])
      × (wanted + 16 ≤ b.back)
      × (43 ≤ b.front)
      × (balloc b ≤ wanted + 16 + 64)
unfolding alloc_at
alloc_at_fits addr header wanted = (
  record {
    front =
        round_down (addr + header + (wanted + tlrspc) + hdrspc)
        - round_up (wanted + tlrspc)
        - round_up (addr + header);
    bytes = [];
    back =
        round_down (addr + header + (wanted + tlrspc) + hdrspc)
        - (round_down (addr + header + (wanted + tlrspc) + hdrspc) - round_up (wanted + tlrspc));
  },
  ground arith,
  refl,
  omega arith,
  omega arith,
  omega arith,
)

-- The blocks of `_allocb` at one address are what the queues rely on.
pub allocator_at : ℕ → ℕ → Allocator
allocator_at addr header = record {
  allocb = λ n. (alloc_at_fits addr header n).0;
  allocb_empty = λ n. (alloc_at_fits addr header n).2;
  allocb_fits = λ n. alloc_room addr header n;
}
  where
    alloc_room : (addr header n : ℕ) → n ≤ (alloc_at_fits addr header n).0.back
    alloc_room addr header n = omega (arith, (alloc_at_fits addr header n).3)
