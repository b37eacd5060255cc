-- ===== src/EventLoop/Wakeup.antt =====
-- How `queueInLoop` and `stop` wake a loop (src/EventLoop.cpp, lines 44 to 61, 76 to 91, 118 to 121 and
-- 135 to 142), as interleaved steps of the loop's thread and of the others. The channel of the eventfd
-- is level triggered: `epoll_wait` returns it as long as the counter is above 0.
pub mod Served
pub mod Stopped
mod Tests
use net_module.Base.{ℕ, suc, ◌+◌, ◌<◌, ◌≡◌, Bool, true, false, List, [], ◌∷◌, ◌++◌}
use net_module.EventLoop.Tasks.{Tasks, wakeup}

-- Where the loop's thread stands.
pub data Stage (T : Type 0) : Type 0 where
  testing : Stage T  -- in `run`, before `while (!stop_)`
  waiting : Stage T  -- in `epoll_wait`, or about to be
  reading : Stage T  -- in `handlewakeup`, before the `read`
  locking : Stage T  -- after the `read`, before the `lock_guard`
  draining : Stage T  -- with the mutex, before the test of `while`
  running : T → Stage T  -- with the mutex, in `fn()`
  returned : Stage T  -- `run` has returned

-- `stopped` is `stop_`. `unwritten` counts the calls of `queueInLoop` and of `stop` that have yet to come to
-- their `wakeup`. `submitted` and `executed` record what has been queued and run, oldest first.
pub record Waking (T : Type 0) : Type 0 where
  pub tasks : Tasks T
  pub stage : Stage T
  pub stopped : Bool
  pub unwritten : ℕ
  pub submitted : List T
  pub executed : List T

module _ {T : Type 0} where
  abbrev pub idle : Waking T
  idle = record {
    tasks = record { task_queue = []; counter = 0 };
    stage = testing;
    stopped = false;
    unwritten = 0;
    submitted = [];
    executed = [];
  }

  abbrev pub has_lock : Stage T → Bool
  has_lock draining = true
  has_lock (running fn) = true
  has_lock s = false

  -- A step of the loop's thread.
  pub data LoopStep (w : Waking T) : Waking T → Type 0 where
    go_on : w.stage ≡ testing → w.stopped ≡ false → LoopStep w (record w { stage = waiting })
    return_now : w.stage ≡ testing → w.stopped ≡ true → LoopStep w (record w { stage = returned })
    wake : w.stage ≡ waiting → 0 < w.tasks.counter → LoopStep w (record w { stage = reading })
    read_counter :
        w.stage ≡ reading
        → LoopStep w (record w { stage = locking; tasks = record (w.tasks) { counter = 0 } })
    lock : w.stage ≡ locking → LoopStep w (record w { stage = draining })
    take_task :
        (fn : T) (fns : List T)
        → w.stage ≡ draining
        → w.tasks.task_queue ≡ fn ∷ fns
        → LoopStep w (record w {
          stage = running fn;
          tasks = record (w.tasks) { task_queue = fns };
          executed = w.executed ++ fn ∷ [];
        })
    finish : (fn : T) → w.stage ≡ running fn → LoopStep w (record w { stage = draining })
    unlock :
        w.stage ≡ draining → w.tasks.task_queue ≡ [] → LoopStep w (record w { stage = testing })

  -- A step of any thread. `queueInLoop` is `push` and then `write_counter`, `stop` is `store_stop` and then
  -- `write_counter`; the loop also comes round where `epoll_wait` returns for another reason.
  pub data Step (w : Waking T) : Waking T → Type 0 where
    by_loop : {v : Waking T} → LoopStep w v → Step w v
    come_round : w.stage ≡ waiting → Step w (record w { stage = testing })
    push :
        (fn : T)
        → has_lock w.stage ≡ false
        → Step w (record w {
          tasks = record (w.tasks) { task_queue = w.tasks.task_queue ++ fn ∷ [] };
          unwritten = suc w.unwritten;
          submitted = w.submitted ++ fn ∷ [];
        })
    store_stop : Step w (record w { stopped = true; unwritten = suc w.unwritten })
    write_counter :
        (k : ℕ) → w.unwritten ≡ suc k → Step w (record w { tasks = wakeup w.tasks; unwritten = k })

  pub data Reach : Waking T → Type 0 where
    start : Reach idle
    later : {v w : Waking T} → Reach v → Step v w → Reach w

  -- Steps of the loop's thread alone.
  pub data LoopRun : Waking T → Waking T → Type 0 where
    rest : {w : Waking T} → LoopRun w w
    next : {w v u : Waking T} → LoopStep w v → LoopRun v u → LoopRun w u
