-- ===== src/Mnt/Reply/Framing.antt =====
-- mntrpcread takes one message out of the stream of bytes.
use drawterm_android.Base.{
  ℕ, ◌^◌, ◌≤◌, ◌<◌, ◌≡◌, ◌⊎◌, ◌∙◌, ap, sym, inl, inr, Bool-cases, arith, ltb, leb, ◌==◌, Bool, true,
  Option, none, some, List, [], ◌∷◌, ◌++◌, take, drop, le_value, append_assoc, length-drop,
  take-append_within, drop-append_within,
}
use drawterm_android.Fcall.{Fcall}
use drawterm_android.Fcall.Decode.{Parsed}
use drawterm_android.Qio.{Block, Allocator, content, blocklen}
use drawterm_android.Qio.Blocks.Content.{blocklen_lem}
use drawterm_android.Qio.Queue.{Queue, pullupqueue}
use drawterm_android.Mnt.Reply.{
  with_size, with_header, doread, outside, hung, headed, header_len, rest_read, sized, started,
  mntrpcread,
}
use drawterm_android.Mnt.Reply.Stream.{IsFed, doread_lem, IsPulled, pulled}
use drawterm_android.Mnt.Reply.Header.{size, kind, Framed, Framed-if, headed_lem}

-- An Rread that is too short for its header is no reply.
short_lem :
    (m : Allocator) (len : ℕ) (v : List ℕ) (f : Fcall) (o : Option Parsed) (nb : Block)
    (rest s : List Block) (q : Queue)
    → kind v ≡ 117
    → size v < 11
    → len < 11
    → Framed v (hung m len 11 o nb rest s q)
unfolding hung
short_lem m len v f none nb rest s q k l h = inr (k, l)
short_lem m len v f (some p) nb rest s q k l h =
    Framed-if v (p.ret == 0) _ _ (λ bad. tt)
      (λ good.
        Framed-if v (ltb len 11) _ _ (λ less. inr (k, l)) (λ more. absurd (ground (arith, more))))

short_blocks :
    (m : Allocator) (len : ℕ) (beyond v : List ℕ) (f : Fcall) (s bs : List Block) (q : Queue)
    → kind v ≡ 117
    → size v < 11
    → len < 11
    → Framed v (with_header m len 11 beyond f s bs q)
unfolding with_header
short_blocks m len beyond v f s [] q k l h = inr (k, l)
short_blocks m len beyond v f s (nb ∷ rest) q k l h = short_lem m len v f _ nb rest s q k l h

short_header :
    (m : Allocator) (len : ℕ) (beyond v : List ℕ) (f : Fcall) (s : List Block) (o : Option Queue)
    → kind v ≡ 117
    → size v < 11
    → len < 11
    → Framed v (headed m len 11 beyond f s o)
unfolding headed
short_header m len beyond v f s none k l h = inr (k, l)
short_header m len beyond v f s (some q) k l h = short_blocks m len beyond v f s q.blocks q k l h

fits_header : (len t d : ℕ) → ((t ≡ 117) × (len < 11)) ⊎ (len ≤ d → header_len t len ≤ d)
fits_header len t d = elim (Bool-cases (t == 117)) [
  | inl is_read ↦ elim (Bool-cases (ltb len 11)) [
    | inl short ↦ inl (ground (arith, is_read), ground (arith, short))
    | inr long ↦ inr (λ l. (rw is_read (ground (arith, long, l))))
  ]
  | inr other ↦ inr (λ l. (rw other l))
]

rest_lem :
    (m : Allocator) (len least t : ℕ) (beyond v : List ℕ) (f : Fcall)
    (r : Bool × List Block × Queue)
    → size v ≡ len
    → kind v ≡ t
    → 1 ≤ least
    → IsFed len least v r
    → Framed v (rest_read m len t beyond f r)
unfolding rest_read
rest_lem m len least t beyond v f (ok, s, q) e k d h =
    Framed-if v ok _ _
      (λ yes.
        (let long : len ≤ q.dlen = ground (arith, h.enough, yes) in
          elim (fits_header len t q.dlen) [
            | inl (a, b) ↦
                let n : header_len t len ≡ 11 = ground (arith, a) in
                rw n (
                  short_header m len beyond v f s (pullupqueue m 11 q) (k ∙ a) (omega (arith, e, b))
                    b)
            | inr g ↦
                headed_lem m len t beyond v f s (content q.blocks)
                  (pullupqueue m (header_len t len) q) h.same e k
                  (omega (arith, long, h.filled, blocklen_lem q.blocks))
                  (pulled m (header_len t len) q h.filled (omega (arith, d, h.no_less)) (g long))
          ]))
      (λ no. tt)

at_size :
    (m : Allocator) (msize : ℕ) (beyond v : List ℕ) (f : Fcall) (s bs : List Block) (nb : Block)
    (rest : List Block) (q : Queue)
    → bs ≡ nb ∷ rest
    → (leb (2 ^ 31) (le_value (take 4 nb.bytes)) ≡ true → Framed v outside)
    → Framed v (
        rest_read m
          (le_value (take 4 nb.bytes))
          (le_value (take 1 (drop 4 nb.bytes)))
          beyond
          f
          (doread (le_value (take 4 nb.bytes)) s q))
    → Framed v (with_size m msize beyond f s bs q)
unfolding with_size
at_size m msize beyond v f s bs nb rest q e big h = rw e (
    Framed-if v (leb (2 ^ 31) (le_value (take 4 nb.bytes))) _ _ big
      (λ small. Framed-if v (ltb msize (le_value (take 4 nb.bytes))) _ _ (λ more. tt) (λ fine. h)))

sized_lem :
    (m : Allocator) (msize : ℕ) (beyond v w : List ℕ) (f : Fcall) (s : List Block)
    (o : Option Queue)
    → w ++ content s ≡ v
    → IsPulled 7 w o
    → Framed v (sized m msize beyond f s o)
unfolding sized blocklen
sized_lem m msize beyond v w f s o a p =
    let nb = p.first in
    let all : nb.bytes ++ (content p.others ++ content s) ≡ v =
      sym (append_assoc nb.bytes (content p.others) (content s))
      ∙ ap (λ t. t ++ content s) p.same
      ∙ a in
    let later = content p.others ++ content s in
    let e : size v ≡ le_value (take 4 nb.bytes) =
      ap size (sym all)
      ∙ ap le_value (take-append_within 4 nb.bytes later (omega (arith, p.long))) in
    let k : kind v ≡ le_value (take 1 (drop 4 nb.bytes)) =
      ap kind (sym all)
      ∙ ap (λ t. le_value (take 1 t)) (drop-append_within 4 nb.bytes later (omega (arith, p.long)))
      ∙ ap le_value (
          take-append_within 1 (drop 4 nb.bytes) later
            (omega (arith, p.long, length-drop 4 nb.bytes))) in
    let len = le_value (take 4 nb.bytes) in
    let fed = doread_lem len s p.next p.filled in
    let here : content p.next.blocks ++ content s ≡ v =
      ap (λ t. content t ++ content s) p.blocks ∙ ap (λ t. t ++ content s) p.same ∙ a in
    let d : 1 ≤ p.next.dlen = omega (arith, p.filled ∙ ap blocklen p.blocks, p.long) in
    rw p.there (
      at_size m msize beyond v f s p.next.blocks nb p.others p.next p.blocks
        (λ big. inl (ground (arith, e, big)))
        (rest_lem m len p.next.dlen (le_value (take 1 (drop 4 nb.bytes))) beyond v f
          (doread len s p.next) e k d
          (record {
            filled = fed.filled;
            same = fed.same ∙ here;
            no_less = fed.no_less;
            enough = fed.enough;
          })))

started_lem :
    (m : Allocator) (msize : ℕ) (beyond v : List ℕ) (f : Fcall) (least : ℕ)
    (r : Bool × List Block × Queue)
    → IsFed 7 least v r
    → Framed v (started m msize beyond f r)
unfolding started
started_lem m msize beyond v f least (ok, s, q) h =
    Framed-if v ok _ _
      (λ yes.
        (let long : 7 ≤ q.dlen = ground (arith, h.enough, yes) in
          sized_lem m msize beyond v (content q.blocks) f s (pullupqueue m 7 q) h.same
            (pulled m 7 q h.filled (omega (arith, long)) long)))
      (λ no. tt)

-- `mntrpcread`, from a queue whose `dlen` is right, on whatever the server sends and whatever lies in
-- memory behind a block: where it gives a reply, the bytes queued and to come were a header, the data
-- of the reply, and the bytes queued and to come afterwards, and header and data are as many bytes as
-- the size in front of the message says. It reaches outside a block or through nil only for a message
-- with a size of 2^31 or more, or for an Rread with a size below 11.
pub mntrpcread-Framed :
    (m : Allocator) (msize : ℕ) (beyond : List ℕ) (f : Fcall) (stream : List Block) (q : Queue)
    → q.dlen ≡ blocklen q.blocks
    → Framed (content q.blocks ++ content stream) (mntrpcread m msize beyond f stream q)
unfolding mntrpcread
mntrpcread-Framed m msize beyond f stream q h =
    started_lem m msize beyond _ _ q.dlen (doread 7 stream q) (doread_lem 7 stream q h)
