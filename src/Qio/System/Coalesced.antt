-- ===== src/Qio/System/Coalesced.antt =====
-- A queue that coalesces and has only empty blocks: qread drops them all and sleeps.
use drawterm_android.Base.{
  ℕ, ◌≡◌, ◌∙◌, ap, refl, ◌==◌, if_true, if_false, true, false, some, List, [], ◌∷◌, ◌++◌, length,
  arith,
}
use drawterm_android.Qio.{Block, Allocator, blen, content}
use drawterm_android.Qio.Queue.{Queue, unlink}
use drawterm_android.Qio.Queue.Read.{asleep, wait_empty, read_first, qread}
use drawterm_android.Qio.System.{read, act}
use drawterm_android.Qio.System.World.{
  World, running, slept, call, reader_sleeps, happen, pass_by, sleep_reader, flagged, notempty,
}
use drawterm_android.Qio.System.World.{asleep as sleeping}

empty_parts : (xs ys : List ℕ) → xs ++ ys ≡ [] → ((length xs == 0) ≡ true) × (ys ≡ [])
empty_parts [] ys h = (refl, h)
empty_parts (x ∷ xs) ys h = ground arith

drops_all :
    (m : Allocator) (len : ℕ) (bs : List Block) (q : Queue)
    → q.blocks ≡ bs
    → content bs ≡ []
    → q.coalesce ≡ true
    → q.closed ≡ false
    → (next : Queue) × (read_first m len bs q
        ≡ some (record { result = asleep; signals = []; queue = next }))
      × (next.blocks ≡ [])
      × (next.closed ≡ false)
unfolding read_first wait_empty
drops_all m len [] q e z c o = (record q { starve = true }, ap some (if_false q.closed _ _ o), e, o)
drops_all m len (b ∷ rest) q e z c o =
    let (none_here, later) = empty_parts b.bytes (content rest) z in
    let (next, r, n, s) = drops_all m len rest (unlink b rest q) refl later c o in
    (next, if_true q.coalesce _ _ c ∙ if_true (blen b == 0) _ _ none_here ∙ r, n, s)

-- The reader that has dropped the blocks goes to sleep.
falls_asleep :
    (m : Allocator) (w : World)
    → w.reader ≡ flagged
    → notempty w.system.queue ≡ false
    → pass_by m (reader_sleeps ∷ []) w ≡ some (record w { reader = sleeping })
unfolding pass_by happen
falls_asleep m w f e =
    ap (λ t. some (record w { reader = sleep_reader t (notempty w.system.queue) })) f
    ∙ ap (λ t. some (record w { reader = sleep_reader flagged t })) e

empty_and_open : (q : Queue) → q.blocks ≡ [] → q.closed ≡ false → notempty q ≡ false
empty_and_open q e o = ground arith

-- On an open queue that coalesces and whose blocks are all empty, a process that reads while a writer
-- sleeps behind Qflow drops all the blocks and then sleeps as well: both sleep, on an empty queue, and
-- no wakeup is on its way to either.
pub coalesced_sleep :
    (m : Allocator) (len : ℕ) (q : Queue)
    → content q.blocks ≡ []
    → q.coalesce ≡ true
    → q.closed ≡ false
    → (next : Queue) × (pass_by m (call (read len) ∷ reader_sleeps ∷ []) (record {
      system = record { queue = q; reader_due = false; writer_due = true };
      reader = running;
      writer = slept true;
      to_reader = 0;
      to_writer = 0;
    })
        ≡ some (record {
          system = record { queue = next; reader_due = true; writer_due = true };
          reader = sleeping;
          writer = slept true;
          to_reader = 0;
          to_writer = 0;
        }))
      × (next.blocks ≡ [])
unfolding pass_by happen act qread
coalesced_sleep m len q z c o =
    let (next, r, n, s) = drops_all m len q.blocks q refl z c o in
    (next, rw (pass_by, r) (falls_asleep m _ refl (empty_and_open next n s)), n)
