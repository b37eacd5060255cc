-- ===== src/EventLoop/Tasks.antt =====
-- The task queue of an event loop (include/EventLoop.h lines 56 and 57, src/EventLoop.cpp lines 44 to
-- 61 and 135 to 142) with the counter of its eventfd. `T` names the queued functions.
pub mod Order
use net_module.Base.{ℕ, ◌+◌, ◌≡◌, List, [], ◌∷◌, ◌++◌, Result, ok, ◌>>=◌, ltb, if◌then◌else◌}

-- `taskQueue_`, oldest first, and the counter behind `wakeupfd_`.
pub record Tasks (T : Type 0) : Type 0 where
  pub task_queue : List T
  pub counter : ℕ

-- eventfd(2): the counter stays below 2 ^ 64 - 1, and a write that would pass that is refused.
abbrev pub counter_max : ℕ
counter_max = 0xffff_ffff_ffff_fffe

module _ {T : Type 0} where
  -- `wakeup`: writes a 1; a refused write goes unnoticed.
  unfoldable pub wakeup : Tasks T → Tasks T
  wakeup q = record q { counter = if ltb q.counter counter_max then q.counter + 1 else q.counter }

  unfoldable pub queue_in_loop : Tasks T → T → Tasks T
  queue_in_loop q fn = wakeup (record q { task_queue = q.task_queue ++ fn ∷ [] })

  -- The loop of `handlewakeup` over the queue, under its lock. A task acts on the rest of the
  -- program, `X`; one that put a task on this queue would wait for the lock for ever.
  unfoldable pub run_tasks : {X : Type 0} → (T → X → Result X) → List T → X → Result X
  run_tasks run [] x = ok x
  run_tasks run (fn ∷ fns) x = run fn x >>= run_tasks run fns

  -- `handlewakeup`: the read clears the counter, then the queue is emptied from the front.
  unfoldable pub handlewakeup :
      {X : Type 0} → (T → X → Result X) → Tasks T → X → Result (Tasks T × X)
  handlewakeup run q x = do
    x' ← run_tasks run q.task_queue x
    ok (record { task_queue = []; counter = 0 }, x')
