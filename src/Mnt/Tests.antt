-- ===== src/Mnt/Tests.antt =====
-- The theorems on the mount driver at concrete inputs.
use drawterm_android.Base.{
  ℕ, ◌+◌, ◌≤◌, ◌≡◌, ◌⊎◌, ◌++◌, arith, refl, true, false, none, some, List, [], ◌∷◌, length,
}
use drawterm_android.Wire.{Qid, CharPtr}
use drawterm_android.Qio.{Block, Allocator, content, blocklen}
use drawterm_android.Qio.Queue.{Queue, cleared}
use drawterm_android.Mnt.Reply.{mntrpcread}
use drawterm_android.Mnt.Reply.Header.{Framed}
use drawterm_android.Mnt.Reply.Framing.{mntrpcread-Framed}
use drawterm_android.Fcall.{Fcall}
use drawterm_android.Mnt.Requests.{Op, request, finish, run_pool}
use drawterm_android.Mnt.Requests.Unique.{notag, count, owned, at_reset, unique_tags}
use drawterm_android.Mnt.Mux.{Mntrpc, MntEvent, enter, look, answer, find_rpc, run}
use drawterm_android.Mnt.Mux.Lists.{sleeping, ready}
use drawterm_android.Mnt.Mux.Right.{idle, has_reader, run-answers}

abbrev some_requests : List Op
some_requests = request ∷ request ∷ finish 1 ∷ request ∷ []

unique_tags_example :
    (count 1 (run_pool some_requests at_reset).1.live
        + count 1 (run_pool some_requests at_reset).1.alloc.rpcfree
      ≤ 1)
    × (count 0 (run_pool some_requests at_reset).1.live ≡ 0)
    × (count notag (run_pool some_requests at_reset).1.live ≡ 0)
    × ((run_pool some_requests at_reset).1.alloc.nrpcused
        ≡ length (run_pool some_requests at_reset).1.live)
    × (((run_pool some_requests at_reset).0 ≡ false)
        ⊎ (65536 ≤ 1)
        ⊎ (owned 1 (run_pool some_requests at_reset).1 ≡ 1))
unique_tags_example = unique_tags 1 some_requests

abbrev no_qid : Qid
no_qid = record { path = 0; vers = 0; type = 0 }

abbrev no_names : List CharPtr
no_names =
    none ∷ none ∷ none ∷ none ∷ none ∷ none ∷ none ∷ none ∷ none ∷ none ∷ none ∷ none ∷ none ∷ none
    ∷ none ∷ none ∷ []

abbrev no_qids : List Qid
no_qids =
    no_qid ∷ no_qid ∷ no_qid ∷ no_qid ∷ no_qid ∷ no_qid ∷ no_qid ∷ no_qid ∷ no_qid ∷ no_qid ∷ no_qid
    ∷ no_qid ∷ no_qid ∷ no_qid ∷ no_qid ∷ no_qid ∷ []

-- A reply to the second request.
abbrev reply : Fcall
reply = record {
  type = 0;
  fid = 0;
  tag = 2;
  msize = 0;
  version = none;
  oldtag = 2;
  ename = none;
  qid = no_qid;
  iounit = 0;
  aqid = no_qid;
  afid = 0;
  uname = none;
  aname = none;
  perm = 0;
  name = none;
  mode = 0;
  newfid = 0;
  nwname = 0;
  wname = no_names;
  nwqid = 0;
  wqid = no_qids;
  offset = 0;
  count = 0;
  text = [];
  nstat = 0;
  stat = [];
}

-- Two processes wait, and the reader gets the answer of the other one.
abbrev two_processes : List MntEvent
two_processes = enter 1 ∷ enter 2 ∷ look 1 ∷ look 2 ∷ answer reply ∷ look 2 ∷ []

run-answers_example :
    ((find_rpc 2 (run two_processes idle).rpcs ≡ none)
      ⊎ ((q : Mntrpc) × (find_rpc 2 (run two_processes idle).rpcs ≡ some q)
          × ((q.done ≡ false) ⊎ ((f : Fcall) × (q.reply ≡ some f) × (f.tag ≡ 2)))))
    × ((has_reader (run two_processes idle).rip ≡ true)
        ⊎ (sleeping (run two_processes idle).rpcs ≡ false)
        ⊎ (ready (run two_processes idle).rpcs ≡ true))
run-answers_example = run-answers 2 two_processes

abbrev memory : Allocator
memory = record {
  allocb = λ n. record { front = 64; bytes = []; back = n + 16 };
  allocb_empty = λ n. refl;
  allocb_fits = λ n. omega arith;
}

abbrev block : List ℕ → Block
block p = record { front = 0; bytes = p; back = 1 }

-- The first bytes of an Rclunk are in the queue, and the rest comes with the next message.
abbrev begun : Queue
begun = record cleared { blocks = block (7 ∷ 0 ∷ 0 ∷ 0 ∷ 121 ∷ []) ∷ []; len = 6; dlen = 5 }

abbrev to_come : List Block
to_come = block (2 ∷ 0 ∷ 7 ∷ 0 ∷ 0 ∷ 0 ∷ 121 ∷ 3 ∷ 0 ∷ []) ∷ []

begun_filled : begun.dlen ≡ blocklen begun.blocks
unfolding blocklen
begun_filled = refl

mntrpcread-Framed_example :
    Framed (content begun.blocks ++ content to_come) (mntrpcread memory 8192 [] reply to_come begun)
mntrpcread-Framed_example = mntrpcread-Framed memory 8192 [] reply to_come begun begun_filled
