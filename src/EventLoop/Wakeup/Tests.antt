-- ===== src/EventLoop/Wakeup/Tests.antt =====
-- Two threads queue a task each while the loop is in the middle of serving the first.
use net_module.Base.{ℕ, ◌≡◌, refl, true, false, [], ◌∷◌, arith}
use net_module.EventLoop.Tasks.{wakeup}
use net_module.EventLoop.Wakeup.{
  Waking, go_on, waiting, locking, wake, read_counter, by_loop, push, write_counter, Reach, start,
  later, LoopRun, store_stop, returned,
}
use net_module.EventLoop.Wakeup.Served.{queued_is_served}
use net_module.EventLoop.Wakeup.Stopped.{told_returns}

-- The second task comes between the `read` and the lock.
abbrev crossed : Waking ℕ
crossed = record {
  tasks = record { task_queue = 5 ∷ 6 ∷ []; counter = 1 };
  stage = locking;
  stopped = false;
  unwritten = 0;
  submitted = 5 ∷ 6 ∷ [];
  executed = [];
}

crossed-Reach : Reach crossed
unfolding wakeup
crossed-Reach =
    later
      (later
        (later
          (later
            (later (later (later start (push 5 refl)) (write_counter 0 refl))
              (by_loop (go_on refl refl)))
            (by_loop (wake refl (omega arith))))
          (by_loop (read_counter refl)))
        (push 6 refl))
      (write_counter 0 refl)

queued_is_served_example :
    (v : Waking ℕ) × LoopRun crossed v
    × (v.stage ≡ waiting)
    × (v.tasks.task_queue ≡ [])
    × (v.executed ≡ crossed.submitted)
queued_is_served_example = queued_is_served crossed-Reach refl refl

-- The loop is told to stop there.
abbrev told : Waking ℕ
told = record crossed { stopped = true; tasks = record (crossed.tasks) { counter = 2 } }

told_returns_example : (v : Waking ℕ) × LoopRun told v × (v.stage ≡ returned)
unfolding wakeup
told_returns_example =
    told_returns (later (later crossed-Reach store_stop) (write_counter 0 refl)) refl refl
