-- ===== src/Mnt/Requests.antt =====
-- The requests of the mount driver: mntralloc and mntfree of kern/devmnt.c, with the free list. A
-- request stands by its tag, which it keeps while it is on the free list. `malloc` succeeds here.
pub mod Unique
use drawterm_android.Base.{
  ℕ, zero, suc, ◌+◌, ◌-◌, ltb, ◌==◌, if◌then◌else◌, Bool, true, false, Option, none, some, List, [],
  ◌∷◌,
}
use drawterm_android.Mnt.Tags.{alloctag, freetag, reset_tags}

pub record Mntalloc : Type 0 where
  pub rpcfree : List ℕ
  pub nrpcfree : ℕ
  pub nrpcused : ℕ
  pub tagmask : List ℕ

abbrev pub mntreset : Mntalloc
mntreset = record { rpcfree = []; nrpcfree = 0; nrpcused = 0; tagmask = reset_tags }

-- A new request; `none` is the panic of `alloctag`.
unfoldable pub fresh : Mntalloc → Option (ℕ × List ℕ) → Option (ℕ × Mntalloc)
fresh a none = none
fresh a (some (t, ms)) = some (t, record a { nrpcused = a.nrpcused + 1; tagmask = ms })

unfoldable pub from_list : Mntalloc → List ℕ → Option (ℕ × Mntalloc)
from_list a [] = fresh a (alloctag a.tagmask)
from_list a (t ∷ ts) =
    some (t, record a { rpcfree = ts; nrpcfree = a.nrpcfree - 1; nrpcused = a.nrpcused + 1 })

unfoldable pub mntralloc : Mntalloc → Option (ℕ × Mntalloc)
mntralloc a = if a.nrpcfree == 0 then fresh a (alloctag a.tagmask) else from_list a a.rpcfree

unfoldable pub mntfree : ℕ → Mntalloc → Mntalloc
mntfree t a =
    if ltb a.nrpcfree 32
    then record a { rpcfree = t ∷ a.rpcfree; nrpcfree = a.nrpcfree + 1; nrpcused = a.nrpcused - 1 }
    else record a { nrpcused = a.nrpcused - 1; tagmask = freetag t a.tagmask }

-- The requests that are in use, in the order of their allocation, the last one first.
pub record Pool : Type 0 where
  pub alloc : Mntalloc
  pub live : List ℕ

-- One more request, or the end of the one at a place of the list.
pub data Op : Type 0 where
  request : Op
  finish : ℕ → Op

abbrev pub without : ℕ → List ℕ → List ℕ
without k [] = []
without zero (t ∷ ts) = ts
without (suc k) (t ∷ ts) = t ∷ without k ts

abbrev pub at_place : ℕ → List ℕ → Option ℕ
at_place k [] = none
at_place zero (t ∷ ts) = some t
at_place (suc k) (t ∷ ts) = at_place k ts

unfoldable pub finished : ℕ → Option ℕ → Pool → Pool
finished k none p = p
finished k (some t) p = record { alloc = mntfree t p.alloc; live = without k p.live }

-- Whether the panic came, and the requests then or at the end.
unfoldable pub run_pool : List Op → Pool → Bool × Pool
run_pool [] p = (false, p)
run_pool (request ∷ ops) p = elim (mntralloc p.alloc) [
  | none ↦ (true, p)
  | some (t, a) ↦ run_pool ops (record { alloc = a; live = t ∷ p.live })
]
run_pool (finish k ∷ ops) p = run_pool ops (finished k (at_place k p.live) p)
