-- ===== src/Qlock/Tests.antt =====
-- The order of the processes at a lock, in a run of four calls.
use drawterm_android.Base.{◌≡◌, List, [], ◌∷◌, ◌++◌}
use drawterm_android.Qlock.{Call, lock, try_lock, unlock, calls, free_lock, calls_lem}

abbrev three_processes : List Call
three_processes = lock 1 ∷ lock 2 ∷ try_lock 3 ∷ unlock ∷ []

calls_lem_example :
    (calls three_processes free_lock).got ++ (calls three_processes free_lock).left.waiting
    ≡ (calls three_processes free_lock).asked
calls_lem_example = calls_lem three_processes
