-- ===== src/Tests/ChatState.antt =====
-- A value, a lock and a queue at concrete times.
use lfontes_nanoclaw.Prelude.{select, delete, ◌≡◌, refl, none, some, List, [], ◌∷◌, arith}
use lfontes_nanoclaw.ChatState.{StateDb, Lock, get, set, acquire_lock}
use lfontes_nanoclaw.ChatState.Expiry.{get-set}
use lfontes_nanoclaw.ChatState.Locks.{
  Step, acquire, extend, release, clean, steps, acquire_lock-excludes, acquire_lock-expires,
}
use lfontes_nanoclaw.ChatState.Refines.{
  Call, call_enqueue, call_dequeue, call_cleanup, call_append, answers, queue_answers,
  answers-refines,
}

abbrev blank : StateDb
blank = record { kv = []; subscriptions = []; locks = []; lists = [] }

abbrev lock : Lock
lock = record { thread_id = "t"; token = "a"; expires_at = 110 }

abbrev other : Lock
other = record { thread_id = "t"; token = "b"; expires_at = 500 }

get-set_example : (get (set blank 100 "k" "1" (some 10)) 111 "k").1 ≡ none
get-set_example = get-set blank 100 111 "k" "1" (some 10)

-- While the lock is held another holder tries to acquire, to extend and to release it.
abbrev attempts : List Step
attempts =
    acquire 101 "b" "t" 400
    ∷ extend 102 other 400
    ∷ clean 103
    ∷ release other
    ∷ acquire 104 "c" "u" 5
    ∷ []

acquire_lock-excludes_example :
    (acquire_lock (steps attempts (acquire_lock blank 100 "a" "t" 10).0) 110 "b" "t" 10).1 ≡ none
unfolding acquire_lock delete
acquire_lock-excludes_example =
    acquire_lock-excludes blank 100 "a" "t" 10 lock attempts 110 "b" 10 refl
      (refl, (refl, (refl, (refl, (refl, tt))))) (omega arith)

acquire_lock-expires_example :
    (acquire_lock (acquire_lock blank 100 "a" "t" 10).0 111 "b" "t" 10).1
    ≡ some (record { thread_id = "t"; token = "b"; expires_at = 121 })
unfolding acquire_lock delete
acquire_lock-expires_example =
    acquire_lock-expires blank 100 "a" "t" 10 lock 111 "b" 10 refl (omega arith)

-- Three entries in a queue of two, an append to another list, and three reads.
abbrev calls : List Call
calls =
    call_enqueue 1 "x" 2
    ∷ call_enqueue 2 "y" 2
    ∷ call_append 3 "history" "h" none (some 1)
    ∷ call_enqueue 4 "z" 2
    ∷ call_cleanup 9
    ∷ call_dequeue
    ∷ call_dequeue
    ∷ call_dequeue
    ∷ []

answers-refines_example : answers "t" calls blank ≡ queue_answers calls []
unfolding select
answers-refines_example =
    answers-refines "t" calls blank [] (0, tt)
      (refl, (refl, (refl, (refl, (refl, (refl, (refl, (refl, tt))))))))
