-- ===== src/Tests/Queues.antt =====
-- Exclusive execution: one holder of a tag, and two pipelines that wait for it.
use gopherbot.Prelude.{ℕ, List, ◌≡◌, refl, true, false, none, some, [], ◌∷◌}
use gopherbot.Prelude.Assoc.{lookup}
use gopherbot.Prelude.Bytes.{codes, bytes_eq}
use gopherbot.Exclusive.{Queues, Pipeline, Call, waiters, lock_tag, request, finish, abort_wait}
use gopherbot.Exclusive.Turns.{
  request-takes, finish_in_turn, woken, queue_in_turn, queue_in_turn-finish_in_turn,
  finish-abort_wait,
}

abbrev job : Call
job = record {
  active = true;
  tag = codes "db";
  queue_task = true;
  is_plugin = false;
  is_job = true;
  name_space = codes "a";
  task_name_space = codes "a";
}

abbrev idle : Pipeline
idle = record { exclusive = false; exclusive_tag = []; queue_task = false; abort_pipeline = false }

abbrev holder : Pipeline
holder = record idle { exclusive = true; exclusive_tag = codes "a:db" }

abbrev two_wait : Queues
two_wait = (codes "a:db", 7 ∷ 9 ∷ []) ∷ []

waits : waiters (codes "a:db") two_wait ≡ some (7 ∷ 9 ∷ [])
unfolding lookup bytes_eq
waits = refl

nobody_waits : waiters (codes "a:db") ((codes "a:db", []) ∷ []) ≡ some []
unfolding lookup bytes_eq
nobody_waits = refl

job_gets_it : (request job idle []).0 ≡ true
unfolding request lookup bytes_eq
job_gets_it = refl

request-takes_example :
    (waiters (lock_tag job) [] ≡ none)
    × (waiters (lock_tag job) (request job idle []).2 ≡ some [])
    × ((request job idle []).1.exclusive ≡ true)
    × ((request job idle []).1.exclusive_tag ≡ lock_tag job)
request-takes_example = request-takes job idle [] refl job_gets_it

abbrev queued : Pipeline
queued = record idle { exclusive_tag = codes "a:db"; queue_task = true }

abbrev held : Queues
held = (codes "a:db", []) ∷ []

abbrev two : List (ℕ × Pipeline)
two = (7, queued) ∷ (9, queued) ∷ []

queue_in_turn-finish_in_turn_example :
    ((finish_in_turn (holder ∷ (queue_in_turn two held).0) (queue_in_turn two held).1).0
      ≡ woken (7 ∷ 9 ∷ []))
    × (waiters
          (codes "a:db")
          (finish_in_turn (holder ∷ (queue_in_turn two held).0) (queue_in_turn two held).1).1
        ≡ none)
queue_in_turn-finish_in_turn_example =
    queue_in_turn-finish_in_turn (codes "a:db") holder two held refl refl nobody_waits
      (refl, (refl, tt))

finish-abort_wait_example :
    ((finish holder two_wait).0 ≡ some 7)
    × ((abort_wait 7 holder (finish holder two_wait).1).0.exclusive ≡ false)
    × (waiters (codes "a:db") (abort_wait 7 holder (finish holder two_wait).1).1 ≡ some (9 ∷ []))
finish-abort_wait_example =
    finish-abort_wait holder holder 7 (9 ∷ []) two_wait refl waits refl (refl, tt)
