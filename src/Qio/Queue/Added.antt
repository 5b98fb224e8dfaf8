-- ===== src/Qio/Queue/Added.antt =====
-- The bytes of a queue to which blocks are added.
use drawterm_android.Base.{◌≡◌, ◌∙◌, ap, sym, refl, List, [], ◌∷◌, ◌++◌, append_assoc}
use drawterm_android.Qio.{Block, content}
use drawterm_android.Qio.Queue.{Queue, qaddlist}

content-append : (bs cs : List Block) → content (bs ++ cs) ≡ content bs ++ content cs
content-append [] cs = refl
content-append (b ∷ bs) cs =
    ap (λ t. b.bytes ++ t) (content-append bs cs)
    ∙ sym (append_assoc b.bytes (content bs) (content cs))

pub qaddlist-content :
    (bs : List Block) (q : Queue) → content (qaddlist bs q).blocks ≡ content q.blocks ++ content bs
qaddlist-content bs q = content-append q.blocks bs
