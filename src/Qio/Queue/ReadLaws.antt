-- ===== src/Qio/Queue/ReadLaws.antt =====
-- Reading keeps the counts of a queue, and hands out its bytes in their order.
use drawterm_android.Base.{
  ℕ, ◌+◌, ◌-◌, ◌≤◌, ◌≡◌, ◌∙◌, refl, sym, ap, leb, ◌==◌, Bool, true, false, Bool-cases, inl, inr,
  if_true, if_false, ◌||◌, some, List, [], ◌∷◌, ◌++◌, length, arith, length-append, append_assoc,
  append-nil, take-append-drop, length-take, length-take_le, take-all,
}
use drawterm_android.Qio.{Block, blen, Allocator, content, blocklen, blockalloclen}
use drawterm_android.Qio.Blocks.{readblist}
use drawterm_android.Qio.Blocks.Content.{readblist_lem}
use drawterm_android.Qio.Blocks.Trim.{splitblock_lem}
use drawterm_android.Qio.Queue.{Queue, Done, unlink}
use drawterm_android.Qio.Queue.Read.{
  Outcome, value, ended, failed, asleep, Batch, wait_empty, qputback, resume, gather, split_last,
  part_read, finish_read, read_first, qread,
}
use drawterm_android.Qio.Queue.Counts.{IsCounted, unlink-IsCounted}

-- The bytes that a read hands out.
abbrev pub taken : Outcome (List ℕ) → List ℕ
taken (value bs) = bs
taken ended = []
taken (failed e) = []
taken asleep = []

resume-IsCounted : {A : Type 0} (r : A) (q : Queue) → IsCounted q → IsCounted ((resume r q).queue)
unfolding resume
resume-IsCounted r q h = ground arith

wait_empty-IsCounted :
    (A : Type 0) (q : Queue) → IsCounted q → IsCounted ((wait_empty {A = A} q).queue)
unfolding wait_empty
wait_empty-IsCounted A q h = ground arith

pub qputback-IsCounted : (b : Block) (q : Queue) → IsCounted q → IsCounted (qputback b q)
unfolding blocklen blockalloclen
qputback-IsCounted b q h = ground arith

wait_empty-blocks :
    (q : Queue)
    → ((wait_empty {A = List ℕ} q).queue.blocks ≡ q.blocks)
      × (taken ((wait_empty q).result) ≡ [])
      × ((wait_empty {A = List ℕ} q).queue.msg ≡ q.msg)
unfolding wait_empty
wait_empty-blocks q = ground arith

pub resume-blocks :
    {A : Type 0} (r : A) (q : Queue)
    → ((resume r q).queue.blocks ≡ q.blocks)
      × ((resume r q).result ≡ r)
      × ((resume r q).queue.msg ≡ q.msg)
unfolding resume
resume-blocks r q = ground arith

abbrev last_len : Block → List Block → ℕ
last_len b [] = blen b
last_len b (c ∷ rest) = last_len c rest

empty : (xs : List ℕ) → (length xs == 0) ≡ true → xs ≡ []
empty [] h = refl
empty (x ∷ xs) h = ground arith

-- A batch has a block, the first bytes of the queue leave the rest, and no more of them are too many
-- than its last block has.
record IsBatch (len n : ℕ) (v : List ℕ) (msg : Bool) (g : Batch) : Type 0 where
  head : Block
  others : List Block
  chain : g.first ≡ head ∷ others
  parts : content g.first ++ content g.queue.blocks ≡ v
  counted : g.count ≡ n + length (content g.first)
  split_fits : g.count ≤ len + last_len head others
  same_msg : g.queue.msg ≡ msg
  valid : IsCounted g.queue

gather_lem :
    (len n : ℕ) (b : Block) (rest : List Block) (q : Queue)
    → n ≤ len
    → q.blocks ≡ b ∷ rest
    → IsCounted q
    → IsBatch len n (content (b ∷ rest)) q.msg (gather len n b rest q)
unfolding gather
gather_lem len n b [] q k e h = record {
  head = b;
  others = [];
  chain = refl;
  parts = append-nil (b.bytes ++ []);
  counted = omega (arith, length-append b.bytes []);
  split_fits = omega arith;
  same_msg = refl;
  valid = unlink-IsCounted b [] q e h;
}
gather_lem len n b (c ∷ rest) q k e h = elim (Bool-cases (leb len (n + blen b))) [
  | inl full ↦ rw full (record {
    head = b;
    others = [];
    chain = refl;
    parts = append_assoc b.bytes [] (content (c ∷ rest));
    counted = omega (arith, length-append b.bytes []);
    split_fits = omega arith;
    same_msg = refl;
    valid = unlink-IsCounted b (c ∷ rest) q e h;
  })
  | inr room ↦
      let g =
        gather_lem len (n + blen b) c rest (unlink b (c ∷ rest) q) (ground arith) refl
          (unlink-IsCounted b (c ∷ rest) q e h) in
      let more = gather len (n + blen b) c rest (unlink b (c ∷ rest) q) in
      rw room (record {
        head = b;
        others = g.head ∷ g.others;
        chain = ap (λ t. b ∷ t) g.chain;
        parts =
            append_assoc b.bytes (content more.first) (content more.queue.blocks)
            ∙ ap (λ t. b.bytes ++ t) g.parts;
        counted = omega (arith, g.counted, length-append b.bytes (content more.first));
        split_fits = g.split_fits;
        same_msg = g.same_msg;
        valid = g.valid;
      })
]

-- The head keeps the front of the chain, `k` bytes less.
split_last_lem :
    (m : Allocator) (k : ℕ) (b : Block) (rest : List Block)
    → k ≤ last_len b rest
    → (head : List Block) × (tail : Block) × (split_last m k (b ∷ rest) ≡ some (head, tail))
      × (content head ++ tail.bytes ≡ content (b ∷ rest))
      × (length (content head) + k ≡ length (content (b ∷ rest)))
unfolding split_last
split_last_lem m k b [] h =
    let (front, tail, e, v, w) = splitblock_lem m k b h in
    (
      front ∷ [],
      tail,
      rw (split_last, e) refl,
      rw (append-nil front.bytes, append-nil b.bytes, v, w) (take-append-drop (blen b - k) b.bytes),
      rw (append-nil front.bytes, append-nil b.bytes, v)
          (omega (arith, h, length-take (blen b - k) b.bytes (omega arith))),
    )
split_last_lem m k b (c ∷ rest) h =
    let (head, tail, e, v, l) = split_last_lem m k c rest h in
    (
      b ∷ head,
      tail,
      rw (split_last, e) refl,
      append_assoc b.bytes (content head) tail.bytes ∙ ap (λ t. b.bytes ++ t) v,
      omega (
        arith,
        l,
        length-append b.bytes (content head),
        length-append b.bytes (content (c ∷ rest)),
      ),
    )

-- What a read leaves behind: the counts are right, and no more than `len` bytes are handed out. Where
-- the queue is no message queue, the bytes handed out and those left are the bytes that were there.
record IsRead (len : ℕ) (v : List ℕ) (msg : Bool) (d : Done (Outcome (List ℕ))) : Type 0 where
  same_kind : d.queue.msg ≡ msg
  counts : IsCounted d.queue
  bounded : length (taken d.result) ≤ len
  in_order : msg ≡ false → taken d.result ++ content d.queue.blocks ≡ v

finish_lem :
    (len : ℕ) (v bytes : List ℕ) (msg : Bool) (q : Queue)
    → IsCounted q
    → q.msg ≡ msg
    → length bytes ≤ len
    → (msg ≡ false → bytes ++ content q.blocks ≡ v)
    → IsRead len v msg (resume (value bytes) q)
finish_lem len v bytes msg q h kind k e =
    let (same, out, keeps) = resume-blocks (value bytes) q in
    record {
      same_kind = keeps ∙ kind;
      counts = resume-IsCounted (value bytes) q h;
      bounded = rw out k;
      in_order = λ f. rw (out, same) (e f);
    }

finish_read_lem :
    (m : Allocator) (len : ℕ) (v : List ℕ) (msg : Bool) (g : Batch)
    → IsBatch len 0 v msg g
    → (d : Done (Outcome (List ℕ))) × (finish_read m len g ≡ some d) × IsRead len v msg d
unfolding finish_read part_read
finish_read_lem m len v msg g h =
    let whole = readblist_lem len 0 g.first in
    let short = length-take_le len (content g.first) in
    elim (Bool-cases (g.queue.msg || leb g.count len)) [
      | inl one ↦ (
        resume (value (readblist len 0 g.first)) g.queue,
        rw one refl,
        finish_lem len v (readblist len 0 g.first) msg g.queue h.valid h.same_msg (rw whole short)
            (λ f. rw (whole, take-all len (content g.first) (ground arith)) h.parts),
      )
      | inr two ↦
          let (head, tail, e, w, l) =
            split_last_lem m (g.count - len) h.head h.others (ground (arith, h.split_fits)) in
          let more : len ≤ g.count = ground arith in
          let all = readblist_lem len 0 head in
          let fits : length (content head) ≤ len =
            omega (arith, l, more, h.counted, ap (λ t. length (content t)) h.chain) in
          (
            resume (value (readblist len 0 head)) (qputback tail g.queue),
            rw (two, h.chain, e) refl,
            finish_lem len v (readblist len 0 head) msg (qputback tail g.queue)
                (qputback-IsCounted tail g.queue h.valid) h.same_msg
                (rw all (length-take_le len (content head)))
                (λ f.
                  rw (all, take-all len (content head) fits)
                    (sym (append_assoc (content head) tail.bytes (content g.queue.blocks))
                      ∙ ap (λ t. t ++ content g.queue.blocks) (w ∙ sym (ap content h.chain))
                      ∙ h.parts)),
          )
    ]

read_first_lem :
    (m : Allocator) (len : ℕ) (bs : List Block) (q : Queue)
    → q.blocks ≡ bs
    → IsCounted q
    → (d : Done (Outcome (List ℕ))) × (read_first m len bs q ≡ some d)
      × IsRead len (content bs) q.msg d
unfolding read_first
read_first_lem m len [] q e h =
    let (same, out, keeps) = wait_empty-blocks q in
    (
      wait_empty q,
      refl,
      record {
        same_kind = keeps;
        counts = wait_empty-IsCounted (List ℕ) q h;
        bounded = rw out (omega arith);
        in_order = λ f. rw (out, same, e) refl;
      },
    )
read_first_lem m len (b ∷ rest) q e h =
    let u = unlink-IsCounted b rest q e h in
    elim (Bool-cases q.coalesce) [
      | inl joined ↦ elim (Bool-cases (blen b == 0)) [
        | inl none_here ↦
            let (d, r, k) = read_first_lem m len rest (unlink b rest q) refl u in
            (
              d,
              if_true q.coalesce _ _ joined ∙ if_true (blen b == 0) _ _ none_here ∙ r,
              record {
                same_kind = k.same_kind;
                counts = k.counts;
                bounded = k.bounded;
                in_order =
                    λ f. k.in_order f ∙ ap (λ t. t ++ content rest) (sym (empty b.bytes none_here));
              },
            )
        | inr some_here ↦
            let (d, r, k) =
              finish_read_lem m len (content (b ∷ rest)) q.msg (gather len 0 b rest q)
                (gather_lem len 0 b rest q (omega arith) e h) in
            (d, if_true q.coalesce _ _ joined ∙ if_false (blen b == 0) _ _ some_here ∙ r, k)
      ]
      | inr single ↦
          let (d, r, k) =
            finish_read_lem m len (content (b ∷ rest)) q.msg
              (record { first = b ∷ []; count = blen b; queue = unlink b rest q })
              (record {
                head = b;
                others = [];
                chain = refl;
                parts = append_assoc b.bytes [] (content rest);
                counted = omega (arith, length-append b.bytes []);
                split_fits = omega arith;
                same_msg = refl;
                valid = u;
              }) in
          (d, if_false q.coalesce _ _ single ∙ r, k)
    ]

-- `qread` ends on every queue whose counts are right without a write behind a block or a read
-- through nil, leaves the counts right, and hands out `len` bytes at most.
pub qread-IsCounted :
    (m : Allocator) (len : ℕ) (q : Queue)
    → IsCounted q
    → (d : Done (Outcome (List ℕ))) × (qread m len q ≡ some d)
      × IsCounted d.queue
      × (length (taken d.result) ≤ len)
unfolding qread
qread-IsCounted m len q h =
    let (d, r, k) = read_first_lem m len q.blocks q refl h in (d, r, k.counts, k.bounded)

-- On a queue that is no message queue, the bytes that `qread` hands out and those that are left in
-- the queue are the bytes that were there, in their order, whatever the read ends with.
pub qread-content :
    (m : Allocator) (len : ℕ) (q : Queue)
    → IsCounted q
    → q.msg ≡ false
    → (d : Done (Outcome (List ℕ))) × (qread m len q ≡ some d)
      × (taken d.result ++ content d.queue.blocks ≡ content q.blocks)
unfolding qread
qread-content m len q h f =
    let (d, r, k) = read_first_lem m len q.blocks q refl h in (d, r, k.in_order f)

pub qread-keeps :
    (m : Allocator) (len : ℕ) (q : Queue)
    → IsCounted q
    → q.msg ≡ false
    → (d : Done (Outcome (List ℕ))) × (qread m len q ≡ some d)
      × IsCounted d.queue
      × (d.queue.msg ≡ false)
      × (taken d.result ++ content d.queue.blocks ≡ content q.blocks)
unfolding qread
qread-keeps m len q h f =
    let (d, r, k) = read_first_lem m len q.blocks q refl h in
    (d, r, k.counts, k.same_kind ∙ f, k.in_order f)
