-- ===== src/Exclusive.antt =====
-- bot/exclusive.go, bot/run_pipelines.go and bot/pipeline_monitoring.go: the queues of pipelines that
-- run one at a time under a tag. A tag is in the table while a pipeline holds it, with the wake-up
-- channels of those that wait; a channel is a number.
pub mod Turns
use gopherbot.Prelude.{
  ℕ, ◌≡◌, Bool, true, false, not, ◌&&◌, Option, none, some, List, [], ◌∷◌, ◌++◌, ◌==◌, is_some,
  if◌then◌else◌,
}
use gopherbot.Prelude.Assoc.{lookup, insert, delete}
use gopherbot.Prelude.Bytes.{Text, Bytes_discrete, bytes_eq, is_empty, codes}

-- `runQueues.m`
abbrev pub Queues : Type 0
Queues = List (Text × List ℕ)

-- The worker's fields for exclusive execution.
pub record Pipeline : Type 0 where
  pub exclusive : Bool
  pub exclusive_tag : Text
  pub queue_task : Bool
  pub abort_pipeline : Bool

-- A call of Exclusive: its arguments, the kind of the task that calls, and the name spaces of the
-- pipeline and of the task. `active` is false without a current task or a worker.
pub record Call : Type 0 where
  pub active : Bool
  pub tag : Text
  pub queue_task : Bool
  pub is_plugin : Bool
  pub is_job : Bool
  pub name_space : Text
  pub task_name_space : Text

abbrev pub waiters : Text → Queues → Option (List ℕ)
waiters tag q = lookup Bytes_discrete tag q

abbrev pub lock_tag : Call → Text
lock_tag c =
    (if is_empty c.name_space then c.task_name_space else c.name_space) ++ (codes ":" ++ c.tag)

-- The tag is taken if it is free; else the pipeline notes what is to happen after the task.
abbrev pub take_tag : Call → Pipeline → Queues → Option (List ℕ) → Bool × Pipeline × Queues
take_tag c p q none = (
  true,
  record p { exclusive = true; exclusive_tag = lock_tag c },
  insert Bytes_discrete (lock_tag c) [] q,
)
take_tag c p q (some ws) =
    if c.queue_task
    then (false, record p { exclusive_tag = lock_tag c; queue_task = true }, q)
    else if c.is_plugin
    then (false, record p { exclusive_tag = lock_tag c; abort_pipeline = true }, q)
    else (false, record p { exclusive_tag = lock_tag c }, q)

-- `Exclusive`
unfoldable pub request : Call → Pipeline → Queues → Bool × Pipeline × Queues
request c p q =
    if not c.active
    then (false, p, q)
    else if is_empty c.tag
    then (false, p, q)
    else if not c.is_plugin && not c.is_job && c.queue_task && is_empty c.name_space
    then (false, p, q)
    else if p.exclusive
    then (bytes_eq p.exclusive_tag (lock_tag c), p, q)
    else take_tag c p q (waiters (lock_tag c) q)

abbrev pub join_queue : ℕ → Pipeline → Queues → Option (List ℕ) → Bool × Pipeline × Queues
join_queue w p q none = (
  false,
  record p { exclusive = true; queue_task = false },
  insert Bytes_discrete p.exclusive_tag [] q,
)
join_queue w p q (some ws) = (
  true,
  record p { exclusive = true; queue_task = false },
  insert Bytes_discrete p.exclusive_tag (ws ++ w ∷ []) q,
)

-- After a task that asked to be queued: whether the pipeline is to wait on its channel.
unfoldable pub queue_up : ℕ → Pipeline → Queues → Bool × Pipeline × Queues
queue_up w p q = join_queue w p q (waiters p.exclusive_tag q)

abbrev pub pass_on : Text → Queues → Option (List ℕ) → Option ℕ × Queues
pass_on tag q none = (none, delete Bytes_discrete tag q)
pass_on tag q (some []) = (none, delete Bytes_discrete tag q)
pass_on tag q (some (w ∷ ws)) = (some w, insert Bytes_discrete tag ws q)

-- The end of a pipeline: the channel that is woken, if any.
unfoldable pub finish : Pipeline → Queues → Option ℕ × Queues
finish p q =
    if p.exclusive then pass_on p.exclusive_tag q (waiters p.exclusive_tag q) else (none, q)

unfoldable pub remove_first : ℕ → List ℕ → List ℕ
remove_first w [] = []
remove_first w (x ∷ xs) = let rest = remove_first w xs in if x == w then xs else x ∷ rest

abbrev pub leave_queue : Text → ℕ → Queues → Option (List ℕ) → Queues
leave_queue tag w q none = q
leave_queue tag w q (some ws) = insert Bytes_discrete tag (remove_first w ws) q

-- `removeExclusiveWaiter`
unfoldable pub remove_waiter : Text → ℕ → Queues → Queues
remove_waiter tag w q = if is_empty tag then q else leave_queue tag w q (waiters tag q)

-- A wait that was aborted.
unfoldable pub abort_wait : ℕ → Pipeline → Queues → Pipeline × Queues
unfolding remove_waiter
abort_wait w p q = (record p { exclusive = false }, remove_waiter p.exclusive_tag w q)
