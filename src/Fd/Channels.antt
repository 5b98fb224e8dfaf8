-- ===== src/Fd/Channels.antt =====
-- The reference counts of channels (incref, decref and cclose of kern/chan.c) and fdtochan of
-- kern/sysfile.c. The fields of all channels are functions of the channel. What cclose does with a
-- channel whose count falls to 0, the close of its device, is left out; CFREE is only set when the
-- count is 0.
use mathlib.Core.Path.{fun_ext}
use Prim.Native.Nat.{bit_and, suc}
use drawterm_android.Base.{
  ℕ, Bool, true, false, Option, if◌then◌else◌, ℤ, ◌^◌, ◌≡◌, ltb, negsuc, some, ◌&&◌, ◌-◌, ◌==◌,
  none, pos, suc, leb, ◌||◌, arith, if_false, refl, ap, ◌∙◌, ◌⊎◌, Option-cases, inl, inr,
  Bool-cases, if_true,
}
use drawterm_android.Fd.{Fgrp, nfd, entry}

pub record Store : Type 0 where
  pub ref : ℕ → ℕ
  pub flag : ℕ → ℕ
  pub mode : ℕ → ℕ

abbrev pub cmsg : ℕ
cmsg = 2

abbrev pub oread : ℕ
oread = 0

abbrev pub ordwr : ℕ
ordwr = 2

abbrev pub otrunc : ℕ
otrunc = 16

-- `~OTRUNC` on 32 bits.
abbrev pub not_otrunc : ℕ
not_otrunc = 2 ^ 32 - 1 - otrunc

unfoldable pub incref : ℕ → Store → Store
incref c s = record s { ref = λ d. if c == d then suc (s.ref d) else s.ref d }

unfoldable pub decref : ℕ → Store → Store
decref c s = record s { ref = λ d. if c == d then s.ref d - 1 else s.ref d }

-- `none` is the panic.
unfoldable pub cclose : ℕ → Store → Option Store
cclose c s = if ltb (s.ref c) 1 then none else some (decref c s)

pub data Fetch : Type 0 where
  bad_fd : Fetch
  bad_use : Fetch
  got : ℕ → Fetch

unfoldable pub refused_with : Option Store → Option (Fetch × Store)
refused_with none = none
refused_with (some s) = some (bad_use, s)

-- `if(iref) cclose(c); error(Ebadusefd);`
unfoldable pub bad_use_fd : Bool → ℕ → Store → Option (Fetch × Store)
bad_use_fd iref c s = refused_with (if iref then cclose c s else some s)

unfoldable pub mode_check : ℤ → Bool → ℕ → Store → Option (Fetch × Store)
mode_check (negsuc m) iref c s = some (got c, s)
mode_check (pos m) iref c s =
    if s.mode c == ordwr
    then some (got c, s)
    else if ltb 0 (bit_and m otrunc) && s.mode c == oread
    then bad_use_fd iref c s
    else if bit_and m not_otrunc == s.mode c
    then some (got c, s)
    else bad_use_fd iref c s

unfoldable pub msg_check : ℤ → Bool → Bool → ℕ → Store → Option (Fetch × Store)
msg_check mode chkmnt iref c s =
    if chkmnt && ltb 0 (bit_and (s.flag c) cmsg)
    then bad_use_fd iref c s
    else mode_check mode iref c s

abbrev pub taken : Bool → ℕ → Store → Store
taken iref c s = if iref then incref c s else s

unfoldable pub chan_at : Option ℕ → ℤ → Bool → Bool → Store → Option (Fetch × Store)
chan_at none mode chkmnt iref s = some (bad_fd, s)
chan_at (some c) mode chkmnt iref s = msg_check mode chkmnt iref c (taken iref c s)

unfoldable pub entry_at : ℤ → Fgrp → Option ℕ
entry_at (negsuc fd) f = none
entry_at (pos fd) f = if leb (nfd f) fd then none else entry f.fd fd

unfoldable pub fdtochan : ℤ → ℤ → Bool → Bool → Fgrp → Store → Option (Fetch × Store)
fdtochan fd mode chkmnt iref f s = chan_at (entry_at fd f) mode chkmnt iref s

-- Whether a channel serves the use: not a connection of a mount driver when that is checked, and
-- open for both ways, or for the way asked for and not to be truncated when open for reading.
unfoldable pub serves : ℤ → ℕ → Bool
serves (negsuc m) k = true
serves (pos m) k =
    k == ordwr || (bit_and m not_otrunc == k && (bit_and m otrunc == 0 || ltb oread k))

unfoldable pub usable : ℤ → Bool → ℕ → Store → Bool
usable mode chkmnt c s =
    (if chkmnt then bit_and (s.flag c) cmsg == 0 else true) && serves mode (s.mode c)

pub decref-incref : (c : ℕ) (s : Store) → decref c (incref c s) ≡ s
unfolding incref decref
decref-incref c s =
    let e : (λ (d : ℕ). (incref c s).ref d - (if c == d then 1 else 0)) ≡ s.ref =
      fun_ext λ d. ground arith in
    let g : (decref c (incref c s)).ref ≡ s.ref = fun_ext λ d. ground arith in
    ap (λ r. record s { ref = r }) g

pub cclose-incref : (c : ℕ) (s : Store) → cclose c (incref c s) ≡ some s
unfolding cclose incref
cclose-incref c s =
    if_false (ltb ((incref c s).ref c) 1) none (some (decref c (incref c s))) (ground arith)
    ∙ ap some (decref-incref c s)

bad_use_fd_lem :
    (iref : Bool) (c : ℕ) (s : Store) → bad_use_fd iref c (taken iref c s) ≡ some (bad_use, s)
unfolding bad_use_fd refused_with
bad_use_fd_lem true c s = rw (cclose-incref c s) refl
bad_use_fd_lem false c s = refl

mode_check_lem :
    (mode : ℤ) (iref : Bool) (c : ℕ) (s : Store)
    → mode_check mode iref c s
      ≡ (if serves mode (s.mode c) then some (got c, s) else bad_use_fd iref c s)
unfolding mode_check serves
mode_check_lem (negsuc m) iref c s = refl
mode_check_lem (pos m) iref c s = ground arith

msg_check_lem :
    (mode : ℤ) (chkmnt iref : Bool) (c : ℕ) (s : Store)
    → msg_check mode chkmnt iref c s
      ≡ (if usable mode chkmnt c s then some (got c, s) else bad_use_fd iref c s)
unfolding msg_check usable
msg_check_lem mode true iref c s = rw (mode_check_lem mode iref c s) (ground arith)
msg_check_lem mode false iref c s = mode_check_lem mode iref c s

taken-usable :
    (mode : ℤ) (chkmnt iref : Bool) (c : ℕ) (s : Store)
    → usable mode chkmnt c (taken iref c s) ≡ usable mode chkmnt c s
unfolding usable incref
taken-usable mode chkmnt true c s = refl
taken-usable mode chkmnt false c s = refl

-- fdtochan never panics. Without an open descriptor it gives Ebadfd, for a channel that does not
-- serve the use Ebadusefd, and neither changes a count; otherwise it gives the channel, whose count
-- is one more if `iref` is set.
pub fdtochan_lem :
    (fd mode : ℤ) (chkmnt iref : Bool) (f : Fgrp) (s : Store)
    → ((entry_at fd f ≡ none) × (fdtochan fd mode chkmnt iref f s ≡ some (bad_fd, s)))
      ⊎ ((c : ℕ) × (entry_at fd f ≡ some c)
          × (usable mode chkmnt c s ≡ true)
          × (fdtochan fd mode chkmnt iref f s ≡ some (got c, taken iref c s)))
      ⊎ ((c : ℕ) × (entry_at fd f ≡ some c)
          × (usable mode chkmnt c s ≡ false)
          × (fdtochan fd mode chkmnt iref f s ≡ some (bad_use, s)))
unfolding fdtochan chan_at
fdtochan_lem fd mode chkmnt iref f s = elim (Option-cases (entry_at fd f)) [
  | inl e ↦ inl (e, rw e refl)
  | inr (c, e) ↦
      let t = taken iref c s in
      let m = msg_check_lem mode chkmnt iref c t in
      elim (Bool-cases (usable mode chkmnt c s)) [
        | inl u ↦ inr (
            inl (
              c,
              e,
              u,
              rw e (
                  m
                  ∙ if_true (usable mode chkmnt c t) (some (got c, t)) (bad_use_fd iref c t)
                      (taken-usable mode chkmnt iref c s ∙ u)),
            ))
        | inr u ↦ inr (
            inr (
              c,
              e,
              u,
              rw e (
                  m
                  ∙ if_false (usable mode chkmnt c t) (some (got c, t)) (bad_use_fd iref c t)
                      (taken-usable mode chkmnt iref c s ∙ u)
                  ∙ bad_use_fd_lem iref c s),
            ))
      ]
]
