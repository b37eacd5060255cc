-- ===== src/TcpServer/Stopping/Tests.antt =====
-- A server with one thread that is stopped while its loop runs.
use net_module.EventLoop.Run.{Running, run}
use net_module.Base.{Result, ok, none, ℕ, ◌<◌, ◌≡◌, refl, inr, true, [], ◌∷◌, All, arith}
use net_module.ThreadPool
use net_module.ThreadPool.{
  Pool, sleeping, running, exited, at_loop, enter, acquire, ready, take_task, addtask,
  notify_nobody, leave, finish, store_stop, notify_all, join,
}
use net_module.TcpServer.Stopping.{
  RunEnded, Step, Closing, by_pool, stop_main, stop_loop, Reach, start_up, later,
}
use net_module.TcpServer.Stopping.Orderly.{Runs, started_loops_run, stop-Complete}

abbrev nothing_to_do : ℕ → Running ℕ ℕ ℕ → Result (Running ℕ ℕ ℕ)
nothing_to_do h r = ok r

-- A loop that was told to stop.
abbrev told_loop : Running ℕ ℕ ℕ
told_loop = record { channels = []; stopped = true; epoll_timeout_callback = none; others = 0 }

told_loop-RunEnded : RunEnded nothing_to_do nothing_to_do true
unfolding run
told_loop-RunEnded = record {
  answers = [];
  before = told_loop;
  after = told_loop;
  ran = refl;
  same_flag = refl;
}

record Example : Type 0 where
  closing : Closing
  reach : Reach nothing_to_do nothing_to_do 1 closing

nobody_sleeps : (j : ℕ) → j < 1 → ◌≡◌ {A = ThreadPool.Pc ℕ} at_loop sleeping → ⊥
nobody_sleeps j lt e = cc

-- The thread runs loop 0.
abbrev loop_runs : Example
loop_runs = record {
  closing = _;
  reach =
      later
        (later
          (later
            (later
              (later (later start_up (by_pool (addtask 0 refl) tt))
                (by_pool (notify_nobody 0 refl nobody_sleeps) tt))
              (by_pool (enter 0 (omega arith) refl refl) tt))
            (by_pool (acquire 0 (omega arith) (ground arith) refl) tt))
          (by_pool (ready 0 (omega arith) (ground arith) (inr (λ e. cc))) tt))
        (by_pool (take_task 0 0 [] (omega arith) (ground arith) refl) tt);
}

-- `stop` from there on.
abbrev all_ended : Example
unfolding net_module.Base.ℕ_discrete
all_ended = record {
  closing = _;
  reach =
      later
        (later
          (later
            (later
              (later
                (later (later loop_runs.reach (stop_main refl)) (stop_loop 0 refl (omega arith)))
                (by_pool (store_stop refl) refl))
              (by_pool (notify_all refl) tt))
            (by_pool (finish 0 0 (omega arith) (ground arith)) told_loop-RunEnded))
          (by_pool (leave 0 (omega arith) (ground arith) refl) tt))
        (by_pool (join refl (λ j lt. ground arith)) tt);
}

started_loops_run_example :
    All (Runs loop_runs.closing.loop_stopped loop_runs.closing.pool) (0 ∷ [])
started_loops_run_example = started_loops_run nothing_to_do nothing_to_do loop_runs.reach

stop-Complete_example :
    (all_ended.closing.main_stopped ≡ true)
    × ((j : ℕ)
        → j < 1
        → (all_ended.closing.loop_stopped j ≡ true) × (all_ended.closing.pool.pc j ≡ exited))
    × ((d : Closing)
        → Step nothing_to_do nothing_to_do 1 all_ended.closing d
        → d.pool.started ≡ 0 ∷ [])
unfolding all_ended
stop-Complete_example = stop-Complete nothing_to_do nothing_to_do all_ended.reach refl
