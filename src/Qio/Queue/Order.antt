-- ===== src/Qio/Queue/Order.antt =====
-- What a reader gets: the first blocks of the queue, and on a closed queue its error.
use mathlib.Core.Option
use drawterm_android.Base.{
  ℕ, zero, suc, ◌+◌, ◌-◌, ◌≤◌, ◌≡◌, ◌⊎◌, ◌∙◌, ap, sym, refl, ltb, leb, ◌==◌, if◌then◌else◌, if_true,
  if_false, Bool, true, false, Bool-cases, inl, inr, ◌||◌, Option, none, some, List, [], ◌∷◌, ◌++◌,
  length, arith, drop, take-append-drop, length-take_le, append_assoc,
}
use drawterm_android.Qio.{Block, blen, Allocator, content}
use drawterm_android.Qio.Blocks.Trim.{splitblock_lem}
use drawterm_android.Qio.Queue.{Queue, Done, unlink, hungup}
use drawterm_android.Qio.Queue.Read.{
  Outcome, value, ended, failed, asleep, wait_empty, same_text, resume, part_block, bread_first,
  qbread, read_first, qread, qputback,
}
use drawterm_android.Qio.Queue.ReadLaws.{resume-blocks}

-- Reading `k` times.
unfoldable pub reads : Allocator → ℕ → ℕ → Queue → Option (List (Outcome (List ℕ)) × Queue)
reads m len zero q = some ([], q)
reads m len (suc k) q = elim (qread m len q) [
  | none ↦ none
  | some d ↦
      Option.map (λ (t : List (Outcome (List ℕ)) × Queue). (d.result ∷ t.0, t.1))
        (reads m len k d.queue)
]

-- The first reads end, and the later ones fail.
abbrev pub endings : ℕ → ℕ → List ℕ → List (Outcome (List ℕ))
endings zero first e = []
endings (suc k) zero e = failed e ∷ endings k zero e
endings (suc k) (suc first) e = ended ∷ endings k first e

-- Whether a closed queue only ends: its error is none or that of `qclose`.
abbrev ends : Queue → Bool
ends q = length q.err == 0 || same_text q.err hungup

read_closed :
    (m : Allocator) (len : ℕ) (q : Queue) (bs : List Block)
    → bs ≡ []
    → q.closed ≡ true
    → read_first m len bs q
      ≡ some (record {
        result = if ltb 3 (q.eof + 1) then failed q.err else if ends q then ended else failed q.err;
        signals = [];
        queue = record q { eof = q.eof + 1 };
      })
unfolding read_first wait_empty
read_closed m len q [] b c =
    ap some (if_true q.closed _ _ c) ∙ (elim (Bool-cases (ltb 3 (q.eof + 1))) [
      | inl late ↦ rw late refl
      | inr early ↦ elim (Bool-cases (ends q)) [
        | inl e ↦ rw (early, e) refl
        | inr e ↦ rw (early, e) refl
      ]
    ])
read_closed m len q (x ∷ bs) b c = ground arith

fails :
    (late e : Bool) (err : List ℕ)
    → (e ≡ false) ⊎ (late ≡ true)
    → ◌≡◌ {A = Outcome (List ℕ)}
        (if late then failed err else if e then ended else failed err)
        (failed err)
fails true e err h = refl
fails false true err h = ground arith
fails false false err h = refl

-- A read, and the reads after it.
one_more :
    (m : Allocator) (len k first : ℕ) (q : Queue) (r : Outcome (List ℕ))
    (outs : List (Outcome (List ℕ)))
    → q.blocks ≡ []
    → q.closed ≡ true
    → (if ltb 3 (q.eof + 1) then failed q.err else if ends q then ended else failed q.err) ≡ r
    → reads m len k (record q { eof = q.eof + 1 }) ≡ some (outs, record q { eof = q.eof + 1 + k })
    → reads m len (suc k) q ≡ some (r ∷ outs, record q { eof = q.eof + suc k })
unfolding reads qread
one_more m len k first q r outs b c e ih =
    let n : q.eof + 1 + k ≡ q.eof + suc k = omega arith in
    rw (reads, read_closed m len q q.blocks b c, ih, e, n) refl

later_ends :
    (first eof : ℕ) (q : Queue)
    → suc first ≡ (if ends q then 3 - eof else 0)
    → (ends q ≡ true) × (first ≡ 3 - (eof + 1)) × (ltb 3 (eof + 1) ≡ false)
later_ends first eof q f = ground arith

later_fails :
    (e : Bool) (eof : ℕ)
    → 0 ≡ (if e then 3 - eof else 0)
    → (0 ≡ (if e then 3 - (eof + 1) else 0)) × ((e ≡ false) ⊎ (ltb 3 (eof + 1) ≡ true))
later_fails e eof f = ground arith

reads_closed :
    (m : Allocator) (len k first : ℕ) (q : Queue)
    → q.blocks ≡ []
    → q.closed ≡ true
    → first ≡ (if ends q then 3 - q.eof else 0)
    → reads m len k q ≡ some (endings k first q.err, record q { eof = q.eof + k })
unfolding reads
reads_closed m len zero first q b c f =
    let n : q.eof ≡ q.eof + 0 = omega arith in ap (λ t. some ([], record q { eof = t })) n
reads_closed m len (suc k) zero q b c f =
    let (g, out) = later_fails (ends q) q.eof f in
    one_more m len k zero q (failed q.err) (endings k zero q.err) b c
      (fails (ltb 3 (q.eof + 1)) (ends q) q.err out)
      (reads_closed m len k zero (record q { eof = q.eof + 1 }) b c g)
reads_closed m len (suc k) (suc first) q b c f =
    let (e, g, out) = later_ends first q.eof q f in
    one_more m len k first q ended (endings k first q.err) b c
      (if_false (ltb 3 (q.eof + 1)) _ _ out ∙ if_true (ends q) _ _ e)
      (reads_closed m len k first (record q { eof = q.eof + 1 }) b c
        (g ∙ sym (if_true (ends q) _ _ e)))

-- On a closed queue without blocks every read by `qread` returns at once: where the error is none or
-- that of `qclose`, reads end until three have been counted in `eof`, and all later ones fail with
-- the error of the queue; with any other error all fail. Nothing else of the queue changes.
pub reads_lem :
    (m : Allocator) (len k : ℕ) (q : Queue)
    → q.blocks ≡ []
    → q.closed ≡ true
    → reads m len k q
      ≡ some (
        endings k (if length q.err == 0 || same_text q.err hungup then 3 - q.eof else 0) q.err,
        record q { eof = q.eof + k },
      )
reads_lem m len k q b c = reads_closed m len k _ q b c refl

-- The bytes of the block that is read.
abbrev pub got : Outcome Block → List ℕ
got (value b) = b.bytes
got ended = []
got (failed e) = []
got asleep = []

wait_first :
    (q : Queue)
    → (got ((wait_empty q).result) ++ content ((wait_empty {A = Block} q).queue.blocks)
        ≡ content q.blocks)
      × (length (got ((wait_empty q).result)) ≡ 0)
unfolding wait_empty
wait_first q = ground arith

-- The block that is read, and what is left of the queue.
handed :
    (len : ℕ) (b : Block) (q : Queue) (v : List ℕ)
    → b.bytes ++ content q.blocks ≡ v
    → blen b ≤ len
    → (got ((resume (value b) q).result) ++ content ((resume (value b) q).queue.blocks) ≡ v)
      × (length (got ((resume (value b) q).result)) ≤ len)
handed len b q v e k = let (same, out, kind) = resume-blocks (value b) q in rw (same, out) (e, k)

cut_first :
    (m : Allocator) (len : ℕ) (bs : List Block) (q : Queue)
    → q.blocks ≡ bs
    → q.msg ≡ false
    → (d : Done (Outcome Block)) × (bread_first m len bs q ≡ some d)
      × (got d.result ++ content d.queue.blocks ≡ content bs)
      × (length (got d.result) ≤ len)
unfolding bread_first part_block
cut_first m len [] q e f =
    let (all, none_) = wait_first q in
    (wait_empty q, refl, all ∙ ap content e, omega (arith, none_))
cut_first m len (b ∷ rest) q e f = elim (Bool-cases (leb (blen b) len)) [
  | inl whole ↦
      let (all, short) = handed len b (unlink b rest q) (content (b ∷ rest)) refl (ground arith) in
      (resume (value b) (unlink b rest q), if_true (leb (blen b) len) _ _ whole, all, short)
  | inr part ↦
      let (front, tail, s, v, w) = splitblock_lem m (blen b - len) b (omega arith) in
      let left = qputback tail (unlink b rest q) in
      let n : blen b - (blen b - len) ≡ len = ground arith in
      let (all, short) =
        handed len front left (content (b ∷ rest))
          (rw (v, w)
            (sym (append_assoc _ (drop (blen b - (blen b - len)) b.bytes) (content rest))
              ∙ ap (λ t. t ++ content rest) (take-append-drop (blen b - (blen b - len)) b.bytes)))
          (rw (v, n) (length-take_le len b.bytes)) in
      (
        resume (value front) left,
        if_false (leb (blen b) len) _ _ part
            ∙ if_false q.msg _ _ f
            ∙ ap (part_block (unlink b rest q)) s,
        all,
        short,
      )
]

-- On a queue that is no message queue `qbread` returns without a write behind a block; the block
-- it gives has `len` bytes at most, and its bytes and those left in the queue are, in their order,
-- those that were there.
pub qbread-content :
    (m : Allocator) (len : ℕ) (q : Queue)
    → q.msg ≡ false
    → (d : Done (Outcome Block)) × (qbread m len q ≡ some d)
      × (got d.result ++ content d.queue.blocks ≡ content q.blocks)
      × (length (got d.result) ≤ len)
unfolding qbread
qbread-content m len q f = cut_first m len q.blocks q refl f
