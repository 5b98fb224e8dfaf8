-- ===== src/Rwlock/Tests.antt =====
-- The theorem on readers and writers at a concrete sequence of steps.
use drawterm_android.Base.{◌≡◌, true, false, List, [], ◌∷◌, length, refl}
use drawterm_android.Qlock.{Waits, qlock, canqlock, qunlock, lock_by, try_by, hand_over}
use drawterm_android.Rwlock.{
  RwEvent, ask, go, leave, run, step, w_in, ask_x, go_from, enter_reader, reader_in, ask_k, give_x,
}
use drawterm_android.Rwlock.Exclusion.{unlocked, Excludes, run-Excludes, last_reader_lem}

-- The reader 1 is inside, the writer 2 sleeps, the reader 3 waits; then 1 leaves.
abbrev some_steps : List RwEvent
some_steps = ask 1 false ∷ go ∷ go ∷ ask 2 true ∷ go ∷ ask 3 false ∷ leave 1 ∷ []

run-Excludes_example :
    ((run some_steps unlocked).lock.readers ≡ length (run some_steps unlocked).inside)
    × Excludes
        (run some_steps unlocked).stage
        (run some_steps unlocked).inside
        (run some_steps unlocked).lock.k.waiting
    × Waits (run some_steps unlocked).lock.x.hold (run some_steps unlocked).lock.x.waiting
run-Excludes_example = run-Excludes some_steps

abbrev one_inside : List RwEvent
one_inside = ask 1 false ∷ go ∷ go ∷ ask 2 true ∷ go ∷ ask 3 false ∷ []

last_reader_lem_example : (step (leave 1) (run one_inside unlocked)).stage ≡ w_in 2
unfolding run step ask_x go_from enter_reader reader_in ask_k give_x qlock canqlock qunlock lock_by
    try_by hand_over
last_reader_lem_example = last_reader_lem one_inside 2 1 refl refl
