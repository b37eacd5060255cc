-- ===== src/TcpServer/Stopping/Orderly.antt =====
-- Loops run until they are told to stop, and threads end after that.
use net_module.EventLoop.Run.{Running}
use net_module.EventLoop.Run.Passes.{run_told}
use net_module.Base.{
  sym, ◌∙◌, Result, ℕ, suc, ◌<◌, ◌≡◌, refl, ap, ◌≢◌, Bool, true, false, [], ◌∷◌, All, All-map,
  arith, ℕ_discrete,
}
use net_module.Base.Text.{All-append}
use net_module.TcpServer.Stopping.{
  Told, serving, told, Closing, serving_all, IsPossible, Step, by_pool, stop_main, stop_loop, Reach,
  start_up, later,
}
use net_module.ThreadPool
use net_module.ThreadPool.{
  Pc, at_loop, running, exited, Phase, open_pool, stop_stored, joining, joined, Pool, update, init,
  roused, enter, leave, acquire, ready, unready, block, spurious, reacquire, quit, take_task,
  finish, addtask, notify_one, notify_nobody, store_stop, notify_all, join,
}

-- Where `stop` of the pool has returned, all threads have ended.
abbrev pub Ended : ℕ → Pool ℕ → Type 0
Ended n p = p.phase ≡ joined → (j : ℕ) → j < n → p.pc j ≡ exited

-- Some worker runs the loop, unless it was told to stop.
abbrev pub Runs : (ℕ → Bool) → Pool ℕ → ℕ → Type 0
Runs stopped p t = stopped t ≡ false → (i : ℕ) × (p.pc i ≡ running t)

module _ {H K X : Type 0} (handle : H → Running H K X → Result (Running H K X))
    (on_timeout : K → Running H K X → Result (Running H K X)) {n : ℕ} (stopped : ℕ → Bool)
    (stage : Told) where
  still_running :
      {p q : Pool ℕ}
      → (st : ThreadPool.Step n p q) → IsPossible handle on_timeout stopped stage st
      → (i t : ℕ) → stopped t ≡ false
      → p.pc i ≡ running t
      → q.pc i ≡ running t
  still_running (finish j task lt e) possible i t on h =
      let over : stopped task ≡ true =
        sym possible.same_flag
        ∙ run_told handle on_timeout possible.answers possible.before possible.after possible.ran in
      ground arith
  still_running (addtask task m) possible i t on h = h
  still_running (notify_nobody k w none_sleeps) possible i t on h = h
  still_running (store_stop s) possible i t on h = h
  still_running (notify_all f) possible i t on h = ap roused h
  still_running (join f all) possible i t on h = h
  still_running (enter j lt e s) possible i t on h = ground arith
  still_running (leave j lt e s) possible i t on h = ground arith
  still_running (acquire j lt e m) possible i t on h = ground arith
  still_running (ready j lt e c) possible i t on h = ground arith
  still_running (unready j lt e s c) possible i t on h = ground arith
  still_running (block j lt e) possible i t on h = ground arith
  still_running (spurious j lt e) possible i t on h = ground arith
  still_running (reacquire j lt e m) possible i t on h = ground arith
  still_running (quit j lt e s c) possible i t on h = ground arith
  still_running (take_task j task rest lt e c) possible i t on h = ground arith
  still_running (notify_one k j w lt e) possible i t on h = ground arith

  still-Runs :
      {p q : Pool ℕ}
      → (st : ThreadPool.Step n p q) → IsPossible handle on_timeout stopped stage st
      → (t : ℕ) → Runs stopped p t
      → Runs stopped q t
  still-Runs st possible t r on = let (i, h) = r on in (i, still_running st possible i t on h)

  pool-Runs :
      {p q : Pool ℕ}
      → (st : ThreadPool.Step n p q) → IsPossible handle on_timeout stopped stage st
      → All (Runs stopped p) p.started
      → All (Runs stopped q) q.started
  pool-Runs {p} {q} (take_task i task rest lt e c) possible all =
      All-append (Runs stopped q) p.started (task ∷ [])
        (All-map (Runs stopped p) (Runs stopped q) p.started
          (still-Runs {p = p} {q = q} (take_task i task rest lt e c) possible) all)
        (λ on. (i, ground arith), tt)
  pool-Runs {p} {q} st possible all =
      All-map (Runs stopped p) (Runs stopped q) p.started (still-Runs st possible) all

  -- `stop_` of the pool is set only where `stop` has come to it.
  pool_told :
      {p q : Pool ℕ}
      → (st : ThreadPool.Step n p q) → IsPossible handle on_timeout stopped stage st
      → (p.stop ≡ true → stage ≡ told n)
      → q.stop ≡ true
      → stage ≡ told n
  pool_told (store_stop s) possible h e = possible
  pool_told st possible h e = h e

module _ {n : ℕ} where
  pool_phase :
      {p q : Pool ℕ}
      → ThreadPool.Step n p q
      → (p.phase ≢ open_pool → p.stop ≡ true)
      → q.phase ≢ open_pool
      → q.stop ≡ true
  pool_phase (store_stop s) h e = refl
  pool_phase (notify_all f) h e = h (λ g. cc)
  pool_phase (join f all) h e = h (λ g. cc)
  pool_phase st h e = h e

  pool-Ended :
      {p q : Pool ℕ}
      → ThreadPool.Step n p q
      → (p.phase ≢ open_pool → p.stop ≡ true)
      → Ended n p
      → Ended n q
  pool-Ended (join f all) told_first h e j lt = all j lt
  pool-Ended (notify_all f) told_first h e j lt = cc
  pool-Ended (store_stop s) told_first h e j lt = cc
  pool-Ended (addtask task m) told_first h e j lt = h e j lt
  pool-Ended (notify_nobody k w none_sleeps) told_first h e j lt = h e j lt
  pool-Ended (notify_one k i w l g) told_first h e j lt = ground (arith, h e j lt)
  pool-Ended (enter i l g s) told_first h e j lt = ground (arith, h e j lt)
  pool-Ended (leave i l g s) told_first h e j lt = ground (arith, h e j lt)
  pool-Ended (acquire i l g m) told_first h e j lt = ground (arith, h e j lt)
  pool-Ended (ready i l g c) told_first h e j lt = ground (arith, h e j lt)
  pool-Ended (unready i l g s c) told_first h e j lt = ground (arith, h e j lt)
  pool-Ended (block i l g) told_first h e j lt = ground (arith, h e j lt)
  pool-Ended (spurious i l g) told_first h e j lt = ground (arith, h e j lt)
  pool-Ended (reacquire i l g m) told_first h e j lt = ground (arith, h e j lt)
  pool-Ended (quit i l g s c) told_first h e j lt = ground (arith, h e j lt)
  pool-Ended (take_task i task rest l g c) told_first h e j lt = ground (arith, h e j lt)
  pool-Ended (finish i task l g) told_first h e j lt = ground (arith, h e j lt)

-- Threads that have ended start no task.
none_starts :
    {n : ℕ} {p q : Pool ℕ}
    → ThreadPool.Step n p q
    → ((j : ℕ) → j < n → p.pc j ≡ exited)
    → q.started ≡ p.started
none_starts (take_task i task rest lt e c) all = absurd (cc (all i lt))
none_starts st all = refl

fewer :
    (c : Closing) (k t : ℕ)
    → Runs c.loop_stopped c.pool t
    → Runs (update c.loop_stopped k true) c.pool t
fewer c k t r on = r (ground arith)

record Inv (n : ℕ) (c : Closing) : Type 0 where
  runs : All (Runs c.loop_stopped c.pool) c.pool.started
  main_told : c.stage ≢ serving → c.main_stopped ≡ true
  told_first : c.pool.stop ≡ true → c.stage ≡ told n
  begun : c.pool.phase ≢ open_pool → c.pool.stop ≡ true
  ended : Ended n c.pool
  told_lem : (k : ℕ) → c.stage ≡ told k → (j : ℕ) → j < k → c.loop_stopped j ≡ true

module _ {H K X : Type 0} (handle : H → Running H K X → Result (Running H K X))
    (on_timeout : K → Running H K X → Result (Running H K X)) {n : ℕ} where
  init-Inv : Inv n serving_all
  init-Inv = record {
    runs = tt;
    main_told = λ e. absurd (e refl);
    told_first = λ e. cc;
    begun = λ e. absurd (e refl);
    ended = λ e. cc;
    told_lem = λ k e. cc;
  }

  later_told :
      (c : Closing) (k i : ℕ)
      → Inv n c
      → c.stage ≡ told k
      → told (suc k) ≡ told i
      → (j : ℕ) → j < i
      → update c.loop_stopped k true j ≡ true
  later_told c k i v e f j lt = elim (ℕ_discrete k j) [
    | yes same ↦ ground arith
    | no other ↦
        let next : suc k ≡ i = cc in
        let told_before : c.loop_stopped j ≡ true = v.told_lem k e j (ground (arith, next)) in
        ground arith
  ]

  Step-Inv : (c d : Closing) → Step handle on_timeout n c d → Inv n c → Inv n d
  Step-Inv c d (by_pool st possible) v = record {
    runs = pool-Runs handle on_timeout c.loop_stopped c.stage st possible v.runs;
    main_told = v.main_told;
    told_first = pool_told handle on_timeout c.loop_stopped c.stage st possible v.told_first;
    begun = pool_phase st v.begun;
    ended = pool-Ended st v.begun v.ended;
    told_lem = v.told_lem;
  }
  Step-Inv c d (stop_main e) v = record {
    runs = v.runs;
    main_told = λ f. refl;
    told_first = λ s. absurd (cc (v.told_first s));
    begun = v.begun;
    ended = v.ended;
    told_lem = λ k f j lt. absurd (ground arith);
  }
  Step-Inv c d (stop_loop k e lt) v = record {
    runs = All-map (Runs c.loop_stopped c.pool) _ c.pool.started (fewer c k) v.runs;
    main_told = λ f. v.main_told (λ g. cc);
    told_first = λ s. absurd (ground (arith, v.told_first s));
    begun = v.begun;
    ended = v.ended;
    told_lem = λ i. later_told c k i v e;
  }

  Reach-Inv : {c : Closing} → Reach handle on_timeout n c → Inv n c
  Reach-Inv start_up = init-Inv
  Reach-Inv {c = d} (later {c = c} r st) = Step-Inv c d st (Reach-Inv r)

  -- In every state of a server with `n` threads, before, during and after `stop`: each loop that a thread
  -- has started and that was not told to stop is being run by a thread, since `run` does not return before.
  pub started_loops_run :
      {c : Closing} → Reach handle on_timeout n c → All (Runs c.loop_stopped c.pool) c.pool.started
  started_loops_run r = (Reach-Inv r).runs

  none_starts_next :
      (c d : Closing)
      → Step handle on_timeout n c d
      → ((j : ℕ) → j < n → c.pool.pc j ≡ exited)
      → d.pool.started ≡ c.pool.started
  none_starts_next c d (by_pool st possible) all = none_starts st all
  none_starts_next c d (stop_main e) all = refl
  none_starts_next c d (stop_loop k e lt) all = refl

  -- When `TcpServer::stop` has returned, the main loop and every other was told to stop before the pool
  -- was, every thread has ended, and whatever happens next, no loop is started any more.
  pub stop-Complete :
      {c : Closing}
      → Reach handle on_timeout n c
      → c.pool.phase ≡ joined
      → (c.main_stopped ≡ true)
        × ((j : ℕ) → j < n → (c.loop_stopped j ≡ true) × (c.pool.pc j ≡ exited))
        × ((d : Closing) → Step handle on_timeout n c d → d.pool.started ≡ c.pool.started)
  stop-Complete {c} r e =
      let v = Reach-Inv r in
      let stopped : c.pool.stop ≡ true = v.begun (λ f. cc) in
      (
        v.main_told (λ f. cc (f, v.told_first stopped)),
        λ j lt. (v.told_lem n (v.told_first stopped) j lt, v.ended e j lt),
        λ d st. none_starts_next c d st (v.ended e),
      )
