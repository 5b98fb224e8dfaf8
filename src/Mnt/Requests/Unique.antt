-- ===== src/Mnt/Requests/Unique.antt =====
-- No two requests share a tag.
use drawterm_android.Base.{
  ℕ, zero, suc, ◌+◌, ◌-◌, ◌*◌, ◌/◌, ◌%◌, ◌^◌, ◌≤◌, ◌<◌, ◌≡◌, ◌⊎◌, ◌∙◌, inl, inr, ap, sym, refl, ltb,
  ◌==◌, if◌then◌else◌, Bool, true, false, Bool-cases, ◌&&◌, ◌||◌, Option, none, some, List, [], ◌∷◌,
  ◌++◌, length, arith, replicate,
}
use drawterm_android.Mnt.Tags.{bit, used_in, used, AreWords, alloctag, reset_tags, tags_of}
use drawterm_android.Mnt.Tags.Taken.{
  IsTaken, alloctag-IsTaken, length-freetag, freetag-AreWords, freetag_lem,
}
use drawterm_android.Mnt.Requests.{
  Mntalloc, mntreset, fresh, from_list, mntralloc, mntfree, Pool, Op, request, finish, without,
  at_place, finished, run_pool,
}

abbrev pub notag : ℕ
notag = 65535

abbrev pub one_if : Bool → ℕ
one_if b = if b then 1 else 0

abbrev pub count : ℕ → List ℕ → ℕ
count s [] = 0
count s (t ∷ ts) = one_if (s == t) + count s ts

-- How often a tag is given away: to a request in use or on the free list, or never to be used.
abbrev pub owned : ℕ → Pool → ℕ
owned s p = one_if (s == 0) + one_if (s == notag) + count s p.live + count s p.alloc.rpcfree

-- Every tag in use is owned once and no other at all; the counts are those of the lists.
record IsPool (p : Pool) : Type 0 where
  once : (s : ℕ) → owned s p ≡ one_if (used s p.alloc.tagmask)
  words : AreWords p.alloc.tagmask
  size : length p.alloc.tagmask ≡ 2048
  free_count : p.alloc.nrpcfree ≡ length p.alloc.rpcfree
  live_count : p.alloc.nrpcused ≡ length p.live

fresh_owned :
    (o s t : ℕ) (u v w : Bool)
    → o ≡ one_if u
    → v ≡ (s == t || u)
    → w ≡ false
    → (s ≡ t → u ≡ w)
    → one_if (s == t) + o ≡ one_if v
fresh_owned o s t u v w h k n m = elim (Bool-cases (s == t)) [
  | inl same ↦ ground (arith, m (ground (arith, same)))
  | inr other ↦ ground arith
]

fresh-IsPool :
    (p : Pool) (t : ℕ) (next : List ℕ)
    → IsPool p
    → IsTaken p.alloc.tagmask t next
    → IsPool (record {
      alloc = record p.alloc { nrpcused = p.alloc.nrpcused + 1; tagmask = next };
      live = t ∷ p.live;
    })
fresh-IsPool p t next h g = record {
  once = λ s.
      (let o =
          fresh_owned (owned s p) s t (used s p.alloc.tagmask) (used s next)
            (used t p.alloc.tagmask) (h.once s) (g.only s) g.was_free
            (λ e. ap (λ x. used x p.alloc.tagmask) e) in
        omega (arith, o));
  words = g.words_next;
  size = sym (length-freetag t next) ∙ ap length g.freed ∙ h.size;
  free_count = h.free_count;
  live_count = omega (arith, h.live_count);
}

listed-IsPool :
    (p : Pool) (t : ℕ) (ts : List ℕ)
    → p.alloc.rpcfree ≡ t ∷ ts
    → IsPool p
    → IsPool (record {
      alloc = record p.alloc {
        rpcfree = ts;
        nrpcfree = p.alloc.nrpcfree - 1;
        nrpcused = p.alloc.nrpcused + 1;
      };
      live = t ∷ p.live;
    })
listed-IsPool p t ts e h = record {
  once = λ s. omega (arith, h.once s, ap (count s) e);
  words = h.words;
  size = h.size;
  free_count = omega (arith, h.free_count, ap length e);
  live_count = omega (arith, h.live_count);
}

-- The two ways to a request: through the tag map, and from the free list.
record Ways (p : Pool) (r : Option (ℕ × Mntalloc)) : Type 0 where
  way :
      ((r ≡ none) × ((s : ℕ) → (65536 ≤ s) ⊎ (used s p.alloc.tagmask ≡ true)))
      ⊎ ((t : ℕ) × (a : Mntalloc) × (r ≡ some (t, a))
          × IsPool (record { alloc = a; live = t ∷ p.live }))

fresh-Ways : (p : Pool) → IsPool p → Ways p (fresh p.alloc (alloctag p.alloc.tagmask))
unfolding fresh
fresh-Ways p h = elim (alloctag-IsTaken p.alloc.tagmask h.words) [
  | inl gone ↦ record {
    way = inl (rw (fresh, gone.0) refl, λ s. (let g = gone.1 s in ground (arith, g, h.size)));
  }
  | inr (t, next, e, g) ↦ record { way = inr (t, _, rw (fresh, e) refl, fresh-IsPool p t next h g) }
]

list-Ways :
    (p : Pool) (ts : List ℕ) → p.alloc.rpcfree ≡ ts → IsPool p → Ways p (from_list p.alloc ts)
unfolding from_list
list-Ways p [] e h = fresh-Ways p h
list-Ways p (t ∷ ts) e h = record { way = inr (t, _, refl, listed-IsPool p t ts e h) }

Ways-if :
    (p : Pool) (c : Bool) (x y : Option (ℕ × Mntalloc))
    → Ways p x
    → Ways p y
    → Ways p (if c then x else y)
Ways-if p true x y h k = h
Ways-if p false x y h k = k

mntralloc-Ways : (p : Pool) → IsPool p → Ways p (mntralloc p.alloc)
unfolding mntralloc
mntralloc-Ways p h =
    Ways-if p (p.alloc.nrpcfree == 0) _ _ (fresh-Ways p h) (list-Ways p p.alloc.rpcfree refl h)

count-without :
    (k t : ℕ) (ts : List ℕ)
    → at_place k ts ≡ some t
    → ((s : ℕ) → count s ts ≡ one_if (s == t) + count s (without k ts))
      × (length ts ≡ suc (length (without k ts)))
count-without k t [] h = ground arith
count-without zero t (x ∷ ts) h = let e : x ≡ t = ground arith in (λ s. (rw e refl), refl)
count-without (suc k) t (x ∷ ts) h =
    let (c, l) = count-without k t ts h in (λ s. omega (arith, c s), omega (arith, l))

IsPool-if :
    (c : Bool) (x y : Mntalloc) (live : List ℕ)
    → IsPool (record { alloc = x; live = live })
    → IsPool (record { alloc = y; live = live })
    → IsPool (record { alloc = if c then x else y; live = live })
IsPool-if true x y live h k = h
IsPool-if false x y live h k = k

gone_once :
    (o p : ℕ) (c u : Bool) → p ≡ one_if c + o → p ≡ one_if u → o ≡ one_if (if c then false else u)
gone_once o p c u h k = ground arith

mntfree-IsPool :
    (k t : ℕ) (p : Pool)
    → at_place k p.live ≡ some t
    → IsPool p
    → IsPool (record { alloc = mntfree t p.alloc; live = without k p.live })
unfolding mntfree
mntfree-IsPool k t p e h =
    let (c, l) = count-without k t p.live e in
    let m = p.alloc.tagmask in
    IsPool-if (ltb p.alloc.nrpcfree 32) _ _ (without k p.live)
      (record {
        once = λ s. omega (arith, h.once s, c s);
        words = h.words;
        size = h.size;
        free_count = omega (arith, h.free_count);
        live_count = omega (arith, h.live_count, l);
      })
      (record {
        once = λ s.
            (gone_once _ (owned s p) (s == t) (used s m) (omega (arith, c s)) (h.once s)
              ∙ ap one_if (sym (freetag_lem s t m)));
        words = freetag-AreWords t m h.words;
        size = length-freetag t m ∙ h.size;
        free_count = h.free_count;
        live_count = omega (arith, h.live_count, l);
      })

finished-IsPool :
    (k : ℕ) (o : Option ℕ) (p : Pool) → at_place k p.live ≡ o → IsPool p → IsPool (finished k o p)
unfolding finished
finished-IsPool k none p e h = h
finished-IsPool k (some t) p e h = mntfree-IsPool k t p e h

bit_zero : (b : ℕ) → bit b 0 ≡ false
unfolding bit
bit_zero zero = refl
bit_zero (suc b) = bit_zero b

bit_pow : (k b : ℕ) → bit b (2 ^ k) ≡ (b == k)
unfolding bit
bit_pow zero zero = refl
bit_pow zero (suc b) = bit_zero b ∙ ground arith
bit_pow (suc k) zero = let p : 2 ^ suc k ≡ 2 * 2 ^ k = ground arith in ground (arith, p)
bit_pow (suc k) (suc b) =
    let p : 2 ^ suc k / 2 ≡ 2 ^ k = ground arith in rw p (bit_pow k b ∙ ground arith)

used-last : (n w a b : ℕ) → used_in a b (replicate n 0 ++ w ∷ []) ≡ (a == n && bit b w)
unfolding used_in
used-last zero w zero b = refl
used-last zero w (suc a) b = ground arith
used-last (suc n) w zero b = bit_zero b ∙ ground arith
used-last (suc n) w (suc a) b = used-last n w a b ∙ ap (λ c. c && bit b w) (ground arith)

zeros-AreWords :
    (n w : ℕ)
    → w < 2 ^ 32
    → AreWords (replicate n 0 ++ w ∷ []) × (length (replicate n 0 ++ w ∷ []) ≡ n + 1)
zeros-AreWords zero w h = ((h, tt), refl)
zeros-AreWords (suc n) w h =
    let (ws, l) = zeros-AreWords n w h in ((omega arith, ws), omega (arith, l))

tags-words : (n : ℕ) → AreWords (tags_of n) × (length (tags_of n) ≡ n + 2)
unfolding tags_of
tags-words n =
    let (ws, l) = zeros-AreWords n 0x80000000 (omega arith) in ((omega arith, ws), omega (arith, l))

last_tag :
    (n a b : ℕ) → (a == n && b == 31) ≡ ((suc a == 0 && b == 0) || (suc a == n + 1 && b == 31))
last_tag n a b = ground arith

tags-used :
    (n a b : ℕ) → b < 32 → used_in a b (tags_of n) ≡ ((a == 0 && b == 0) || (a == n + 1 && b == 31))
unfolding tags_of used_in
tags-used n zero b h = bit_pow 0 b ∙ ground arith
tags-used n (suc a) b h =
    used-last n 0x80000000 a b ∙ ap (λ c. a == n && c) (bit_pow 31 b) ∙ last_tag n a b

reserved :
    (s : ℕ)
    → one_if (s == 0) + one_if (s == notag) + 0 + 0
      ≡ one_if ((s / 32 == 0 && s % 32 == 0) || (s / 32 == 2047 && s % 32 == 31))
reserved s = ground arith

abbrev pub at_reset : Pool
at_reset = record { alloc = mntreset; live = [] }

reset-IsPool : IsPool at_reset
unfolding reset_tags
reset-IsPool =
    let (ws, l) = tags-words 2046 in
    record {
      once = λ s. (reserved s ∙ ap one_if (sym (tags-used 2046 (s / 32) (s % 32) (omega arith))));
      words = ws;
      size = l;
      free_count = refl;
      live_count = refl;
    }

-- What a run ends in: a pool, with all tags owned where the panic came.
record IsEnd (r : Bool × Pool) : Type 0 where
  pool : IsPool (r.1)
  panic : (s : ℕ) → (r.0 ≡ false) ⊎ (65536 ≤ s) ⊎ (owned s (r.1) ≡ 1)

all_owned :
    (p : Pool)
    → IsPool p
    → ((s : ℕ) → (65536 ≤ s) ⊎ (used s p.alloc.tagmask ≡ true))
    → IsEnd (true, p)
all_owned p h all = record {
  pool = h;
  panic =
      λ s. (elim (all s) [ inl big ↦ inr (inl big) | inr u ↦ inr (inr (h.once s ∙ ap one_if u)) ]);
}

run_pool-IsEnd : (ops : List Op) (p : Pool) → IsPool p → IsEnd (run_pool ops p)
unfolding run_pool
run_pool-IsEnd [] p h = record { pool = h; panic = λ s. inl refl }
run_pool-IsEnd (request ∷ ops) p h = elim ((mntralloc-Ways p h).way) [
  | inl (e, all) ↦ rw (run_pool, e) (all_owned p h all)
  | inr (t, a, e, k) ↦
      rw (run_pool, e) (run_pool-IsEnd ops (record { alloc = a; live = t ∷ p.live }) k)
]
run_pool-IsEnd (finish k ∷ ops) p h =
    run_pool-IsEnd ops (finished k (at_place k p.live) p)
      (finished-IsPool k (at_place k p.live) p refl h)

at_most_one : (o l f : ℕ) (u : Bool) → o + l + f ≡ one_if u → l + f ≤ 1
at_most_one o l f u h = ground arith

none_more : (o l f : ℕ) (u : Bool) → suc o + l + f ≡ one_if u → l ≡ 0
none_more o l f u h = ground arith

-- In every sequence of `mntralloc` and `mntfree` after `mntreset`, where each `mntfree` is of a request
-- in use: no two requests, in use or on the free list, have the same tag `s`; no request in use has the
-- tag 0 or NOTAG; `nrpcused` is their number; and the panic for want of tags comes only when every
-- tag is 0, NOTAG or that of one request.
pub unique_tags :
    (s : ℕ) (ops : List Op)
    → (count s (run_pool ops at_reset).1.live + count s (run_pool ops at_reset).1.alloc.rpcfree ≤ 1)
      × (count 0 (run_pool ops at_reset).1.live ≡ 0)
      × (count notag (run_pool ops at_reset).1.live ≡ 0)
      × ((run_pool ops at_reset).1.alloc.nrpcused ≡ length (run_pool ops at_reset).1.live)
      × (((run_pool ops at_reset).0 ≡ false)
          ⊎ (65536 ≤ s)
          ⊎ (owned s (run_pool ops at_reset).1 ≡ 1))
unique_tags s ops =
    let r = run_pool-IsEnd ops at_reset reset-IsPool in
    let p = r.pool in
    let q = (run_pool ops at_reset).1 in
    (
      at_most_one _ _ _ (used s q.alloc.tagmask) (p.once s),
      none_more _ _ _ (used 0 q.alloc.tagmask) (p.once 0),
      none_more _ _ _ (used notag q.alloc.tagmask) (p.once notag),
      p.live_count,
      r.panic s,
    )
