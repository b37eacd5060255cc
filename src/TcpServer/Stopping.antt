-- ===== src/TcpServer/Stopping.antt =====
-- `TcpServer::start` and `stop` (src/TcpServer.cpp, lines 30 to 42): the main loop, and the end of all
-- loops and of the threads that run them, as interleaved steps.
pub mod Orderly
mod Tests
use net_module.Base.{
  ℕ, suc, ◌+◌, ◌<◌, ◌≡◌, ◌∙◌, ◌≢◌, Bool, true, false, List, [], ◌∷◌, ◌++◌, Result, ok, ℕ_discrete,
}
use net_module.Channel.{Channel}
use net_module.Epoller.{WaitAnswer}
use net_module.EventLoop.Run.{Running, run}
use net_module.TcpServer.{TcpServer, ServerHandler}
use net_module.ThreadPool
use net_module.ThreadPool.{Pool, update, init, finish, store_stop}

-- `start`: the main loop runs in the caller's thread.
unfoldable pub start :
    {H K X : Type 0}
    → (H → Running H ServerHandler X → Result (Running H ServerHandler X))
    → (ServerHandler → Running H ServerHandler X → Result (Running H ServerHandler X))
    → List WaitAnswer
    → List (ℕ × Channel H)
    → X
    → TcpServer K
    → Result (Running H ServerHandler X)
start handle on_timeout answers channels others v = run handle on_timeout answers (record {
  channels = channels;
  stopped = v.mainloop.stopped;
  epoll_timeout_callback = v.mainloop.epoll_timeout_callback;
  others = others;
})

-- How far a call of `stop` is: not called, or the main loop and so many of the others told to stop.
pub data Told : Type 0 where
  serving : Told
  told : ℕ → Told

-- The pool of the IO threads, whose tasks are the numbers of the loops, the `stop_` of the main loop, and
-- that of each of the others.
pub record Closing : Type 0 where
  pub pool : Pool ℕ
  pub main_stopped : Bool
  pub loop_stopped : ℕ → Bool
  pub stage : Told

abbrev pub serving_all : Closing
serving_all = record {
  pool = init;
  main_stopped = false;
  loop_stopped = λ k. false;
  stage = serving;
}

module _ {H K X : Type 0} (handle : H → Running H K X → Result (Running H K X))
    (on_timeout : K → Running H K X → Result (Running H K X)) where
  -- A call of `EventLoop::run` that has returned, with its loop's `stop_` as it is.
  pub record RunEnded (flag : Bool) : Type 0 where
    pub answers : List WaitAnswer
    pub before : Running H K X
    pub after : Running H K X
    pub ran : run handle on_timeout answers before ≡ ok after
    pub same_flag : after.stopped ≡ flag

  -- A task of the pool is `run`, and ends when that returns; and `stop` comes to the pool when it has
  -- told all loops.
  abbrev pub IsPossible :
      (ℕ → Bool) → Told → {n : ℕ} {p q : Pool ℕ} → ThreadPool.Step n p q → Type 0
  IsPossible stopped stage (finish i task lt e) = RunEnded (stopped task)
  IsPossible stopped stage {n} (store_stop s) = stage ≡ told n
  IsPossible stopped stage st = Unit

  -- One step, of the pool or of `stop`, with `n` threads.
  pub data Step (n : ℕ) (c : Closing) : Closing → Type 0 where
    by_pool :
        {q : Pool ℕ}
        → (st : ThreadPool.Step n c.pool q) → IsPossible c.loop_stopped c.stage st
        → Step n c (record c { pool = q })
    stop_main : c.stage ≡ serving → Step n c (record c { main_stopped = true; stage = told 0 })
    stop_loop :
        (k : ℕ)
        → c.stage ≡ told k
        → k < n
        → Step n c (record c { stage = told (suc k); loop_stopped = update c.loop_stopped k true })

  pub data Reach (n : ℕ) : Closing → Type 0 where
    start_up : Reach n serving_all
    later : {c d : Closing} → Reach n c → Step n c d → Reach n d
