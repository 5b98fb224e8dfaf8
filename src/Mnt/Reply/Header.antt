-- ===== src/Mnt/Reply/Header.antt =====
-- What mntrpcread makes of a message whose header is in the first block.
use drawterm_android.Base.{
  ◌≢◌, ℕ, ◌+◌, ◌-◌, ◌^◌, ◌≤◌, ◌<◌, ◌≡◌, ◌⊎◌, ◌∙◌, ap, sym, refl, inr, arith, ltb, ◌==◌,
  if◌then◌else◌, Bool, true, false, Option, none, some, List, ◌∷◌, ◌++◌, length, take, drop,
  le_value, append_assoc, take-append-drop, length-append, length-drop, length-take,
}
use drawterm_android.Fcall.{Fcall}
use drawterm_android.Fcall.Decode.{Parsed, conv_m2s}
use drawterm_android.Fcall.Decode.Bounds.{conv_m2s_total}
use drawterm_android.Qio.{Block, blen, advance, Allocator, content}
use drawterm_android.Qio.Queue.{Queue, unlink}
use drawterm_android.Mnt.Reply.{
  with_header, with_data, Rpcread, minus_one, got, outside, hang, hung, headed, header_len,
}
use drawterm_android.Mnt.Reply.Stream.{hang_lem, IsPulled}

-- The size and the type that a message begins with.
abbrev pub size : List ℕ → ℕ
size v = le_value (take 4 v)

abbrev pub kind : List ℕ → ℕ
kind v = le_value (take 1 (drop 4 v))

-- What a reader leaves of the bytes `v` that are queued and still to come: a reply is the first
-- message of them. An access outside a block has one of two causes.
abbrev pub Framed : List ℕ → Rpcread → Type 0
Framed v (minus_one s q) = Unit
Framed v (got f bs s q) =
    (header : List ℕ) × (header ++ (content bs ++ (content q.blocks ++ content s)) ≡ v)
    × (length header + length (content bs) ≡ size v)
Framed v outside = (2 ^ 31 ≤ size v) ⊎ ((kind v ≡ 117) × (size v < 11))

pub Framed-if :
    (v : List ℕ) (c : Bool) (x y : Rpcread)
    → (c ≡ true → Framed v x)
    → (c ≡ false → Framed v y)
    → Framed v (if c then x else y)
Framed-if v true x y h k = h refl
Framed-if v false x y h k = k refl

short_reply : (len t : ℕ) → ltb len (header_len t len) ≡ true → (t ≡ 117) × (len < 11)
short_reply len t h = ground arith

data_lem :
    (m : Allocator) (len hlen : ℕ) (f : Fcall) (nb : Block) (rest s : List Block) (q : Queue)
    → size (content (nb ∷ rest) ++ content s) ≡ len
    → hlen ≤ blen nb
    → hlen ≤ len
    → len ≤ length (content (nb ∷ rest))
    → Framed
        (content (nb ∷ rest) ++ content s)
        (with_data f s (hang m (len - hlen) (advance nb hlen) rest (unlink nb rest q)))
unfolding with_data
data_lem m len hlen f nb rest s q e g k h =
    let d : len - hlen ≤ length (drop hlen nb.bytes ++ content rest) = omega (
      arith,
      h,
      g,
      length-append nb.bytes (content rest),
      length-append (drop hlen nb.bytes) (content rest),
      length-drop hlen nb.bytes,
    ) in
    let (bs, next, r, w, l) =
      hang_lem m (len - hlen) (advance nb hlen) rest (unlink nb rest q) refl d in
    rw r (
      take hlen nb.bytes,
      ap (λ t. take hlen nb.bytes ++ t)
            (sym (append_assoc (content bs) (content next.blocks) (content s))
              ∙ ap (λ t. t ++ content s) w)
          ∙ sym (append_assoc (take hlen nb.bytes) (drop hlen nb.bytes ++ content rest) (content s))
          ∙ ap (λ t. t ++ content s)
              (sym (append_assoc (take hlen nb.bytes) (drop hlen nb.bytes) (content rest))
                ∙ ap (λ t. t ++ content rest) (take-append-drop hlen nb.bytes)),
      omega (arith, k, l, e, length-take hlen nb.bytes g),
    )

hung_lem :
    (m : Allocator) (len t : ℕ) (o : Option Parsed) (nb : Block) (rest s : List Block) (q : Queue)
    → o ≢ none
    → size (content (nb ∷ rest) ++ content s) ≡ len
    → kind (content (nb ∷ rest) ++ content s) ≡ t
    → header_len t len ≤ blen nb
    → len ≤ length (content (nb ∷ rest))
    → Framed (content (nb ∷ rest) ++ content s) (hung m len (header_len t len) o nb rest s q)
unfolding hung
hung_lem m len t none nb rest s q n e k g h = absurd (n refl)
hung_lem m len t (some p) nb rest s q n e k g h =
    let v = content (nb ∷ rest) ++ content s in
    let hlen = header_len t len in
    Framed-if v (p.ret == 0) _ _ (λ bad. tt)
      (λ good.
        Framed-if v (ltb len hlen) _ _
          (λ less. (let (a, b) = short_reply len t less in inr (k ∙ a, omega (arith, e, b))))
          (λ enough. data_lem m len hlen p.fcall nb rest s q e g (ground (arith, enough)) h))

at_header :
    (m : Allocator) (len hlen : ℕ) (beyond v : List ℕ) (f : Fcall) (s bs : List Block) (nb : Block)
    (rest : List Block) (q : Queue)
    → bs ≡ nb ∷ rest
    → Framed v (hung m len hlen (conv_m2s (take len (nb.bytes ++ beyond)) f) nb rest s q)
    → Framed v (with_header m len hlen beyond f s bs q)
unfolding with_header
at_header m len hlen beyond v f s bs nb rest q e h = rw e h

-- The same after the header is pulled up.
pub headed_lem :
    (m : Allocator) (len t : ℕ) (beyond v : List ℕ) (f : Fcall) (s : List Block) (w : List ℕ)
    (o : Option Queue)
    → w ++ content s ≡ v
    → size v ≡ len
    → kind v ≡ t
    → len ≤ length w
    → IsPulled (header_len t len) w o
    → Framed v (headed m len (header_len t len) beyond f s o)
unfolding headed
headed_lem m len t beyond v f s w o a e k h p =
    let same = ap (λ x. x ++ content s) p.same ∙ a in
    rw p.there (
      at_header m len (header_len t len) beyond v f s p.next.blocks p.first p.others p.next p.blocks
        (rw⁻¹ same (
          hung_lem m len t (conv_m2s (take len (p.first.bytes ++ beyond)) f) p.first p.others s
            p.next (conv_m2s_total (take len (p.first.bytes ++ beyond)) f) (rw same e) (rw same k)
            p.long (omega (arith, h, ap length p.same)))))
