-- ===== src/Fcall/RoundTrip.antt =====
-- A message that `conv_s2m` codes is read back by `conv_m2s`.
use drawterm_android.Wire.Reader.{ok}
use drawterm_android.Wire.Reader.Steps.{
  ◌▸⟨◌⟩◌, Gives, gives, given, done, need_lem, refuse_above_lem, gbit_lem,
}
use drawterm_android.Base.{
  length-append_bytes, le→ltb, append_assoc, ◌∙◌, ◌≤◌, ap, lengths, ◌++◌, ◌^◌, arith, le_bytes, ◌+◌,
  ◌≡◌, List, length, ℕ, ◌<◌, refl, some,
}
use drawterm_android.Fcall.{Fcall, Kind, code, kind_of, kind_of-code}
use drawterm_android.Fcall.{tversion}
use drawterm_android.Fcall.Layout.{layout, IsSendable, carry}
use drawterm_android.Fcall.Encode.{Coded, put_message, coded, conv_s2m, header_size}
use drawterm_android.Fcall.Encode.Sizes.{conv_s2m_lem}
use drawterm_android.Fcall.Encode.Formats.{put_body-layout, body_size-layout}
use drawterm_android.Fcall.Decode.{parsed, get_message, get_case, get_body, conv_m2s}
use drawterm_android.Fcall.Decode.Formats.{IsReceiver, get_body-layout}

-- size[4] type[1] tag[2] and the body.
abbrev pub message : Kind → Fcall → List ℕ
message k f =
    le_bytes 4 (header_size + length (layout k f))
    ++ (le_bytes 1 f.type ++ (le_bytes 2 f.tag ++ layout k f))

abbrev pub message_size : Kind → Fcall → ℕ
message_size k f = header_size + length (layout k f)

length-message : (k : Kind) (f : Fcall) → length (message k f) ≡ message_size k f
length-message k f = omega lengths

-- A message that is in range and fits the buffer is coded as its format says.
pub conv_s2m-message :
    (k : Kind) (f : Fcall) (nap : ℕ)
    → f.type ≡ code k
    → IsSendable k f
    → message_size k f < 2 ^ 32
    → message_size k f ≤ nap
    → conv_s2m f nap ≡ some (record { ret = message_size k f; out = message k f })
unfolding put_message coded
conv_s2m-message k f nap t h fits room =
    conv_s2m_lem f nap k (length (layout k f)) (ap kind_of t ∙ kind_of-code k)
      (body_size-layout k f h) fits
    ∙ rw (le→ltb _ _ room, put_body-layout k f h) (rw (length-message k f) (ground arith))

code-lt : (k : Kind) → code k < 256
code-lt tversion = omega arith
code-lt _ = omega arith

get_case-code :
    (k : Kind) (t : ℕ) {p p' : List ℕ} {f f' : Fcall}
    → t ≡ code k
    → Gives (get_body k) p f (ok tt p' f')
    → Gives (get_case (kind_of t)) p f (ok tt p' f')
unfolding get_case
get_case-code k t e h = rw (ap kind_of e ∙ kind_of-code k) (gives (given h))

get_message-message :
    (k : Kind) (f g : Fcall) (rest : List ℕ)
    → f.type ≡ code k
    → f.tag < 2 ^ 16
    → IsSendable k f
    → IsReceiver g
    → message_size k f < 2 ^ 32
    → Gives get_message
        (message k f ++ rest)
        g
        (ok (message_size k f) rest (carry k f (record g { type = f.type; tag = f.tag })))
unfolding get_message
get_message-message k f g rest t tag h r fits =
    rw (append_assoc, append_assoc, append_assoc)
      (need_lem 7 (omega lengths)
        ▸⟨ _ ⟩ gbit_lem 4 (message_size k f) fits
        ▸⟨ _ ⟩ refuse_above_lem (message_size k f) 7 (omega arith)
        ▸⟨ _ ⟩ gbit_lem 1 f.type (omega (arith, code-lt k))
        ▸⟨ _ ⟩ done
        ▸⟨ _ ⟩ gbit_lem 2 f.tag tag
        ▸⟨ _ ⟩ done
        ▸⟨ _ ⟩
          get_case-code k f.type t
            (get_body-layout k f (record g { type = f.type; tag = f.tag }) rest h r)
        ▸⟨ _ ⟩ done)

-- A message of any type, in range, is coded into `nap` bytes or more, and the bytes read back,
-- whatever follows them and whatever the receiving structure held, give its size and exactly the
-- fields that the type carries.
pub conv_m2s-conv_s2m :
    (k : Kind) (f g : Fcall) (nap : ℕ) (rest : List ℕ)
    → f.type ≡ code k
    → f.tag < 2 ^ 16
    → IsSendable k f
    → IsReceiver g
    → message_size k f < 2 ^ 32
    → message_size k f ≤ nap
    → (c : Coded) × (conv_s2m f nap ≡ some c)
      × (c.ret ≡ message_size k f)
      × (conv_m2s (c.out ++ rest) g
          ≡ some
              (record { ret = c.ret; fcall = carry k f (record g { type = f.type; tag = f.tag }) }))
unfolding conv_m2s parsed
conv_m2s-conv_s2m k f g nap rest t tag h r fits room = (
  record { ret = message_size k f; out = message k f },
  conv_s2m-message k f nap t h fits room,
  refl,
  rw (given (get_message-message k f g rest t tag h r fits), parsed)
      (ground (arith, length-append_bytes (message k f) rest, length-message k f)),
)
