-- ===== src/ThreadPool.antt =====
-- include/ThreadPool.h and src/ThreadPool.cpp: workers over one task queue, as interleaved steps. `T`
-- is a queued function. Each access to `stop_`, the mutex, the queue or the condition variable is
-- one step; a worker that holds the mutex keeps the others out.
pub mod Invariant
pub mod Once
pub mod Shutdown
pub mod Wakeups
mod Tests
use net_module.Base.{
  ℕ, suc, ◌+◌, ◌<◌, ◌≡◌, ◌≢◌, ◌⊎◌, Bool, true, false, List, [], ◌∷◌, ◌++◌, Option, none, some,
  ℕ_discrete,
}
use mathlib.Core.Logic.{ite}

-- Where a worker stands.
pub data Pc (T : Type 0) : Type 0 where
  at_loop : Pc T  -- before `while (stop_ == false)`
  locking : Pc T  -- before the `unique_lock`
  checking : Pc T  -- with the mutex, before the predicate of `wait`
  dozing : Pc T  -- with the mutex, the predicate was false, before it blocks
  sleeping : Pc T  -- blocked in `wait`, without the mutex
  woken : Pc T  -- notified, before it has the mutex again
  proceeding : Pc T  -- with the mutex, the predicate was true
  running : T → Pc T  -- in `task()`
  exited : Pc T

-- How far a call of `stop` is.
pub data Phase : Type 0 where
  open_pool : Phase  -- not called
  stop_stored : Phase  -- after `stop_ = true`, before `notify_all`
  joining : Phase  -- after `notify_all`, in `join`
  joined : Phase

-- `to_notify` counts the `addtask` calls between the unlock and `notify_one`. `submitted` and `started`
-- record what has been queued and taken, oldest first.
pub record Pool (T : Type 0) : Type 0 where
  pub taskqueue : List T
  pub stop : Bool
  pub mutex : Option ℕ
  pub pc : ℕ → Pc T
  pub to_notify : ℕ
  pub phase : Phase
  pub submitted : List T
  pub started : List T

abbrev pub update : {A : Type 0} → (ℕ → A) → ℕ → A → ℕ → A
update f i a j = ite (ℕ_discrete i j) a (f j)

module _ {T : Type 0} where
  -- The constructor: all workers before their loop.
  abbrev pub init : Pool T
  init = record {
    taskqueue = [];
    stop = false;
    mutex = none;
    pc = λ i. at_loop;
    to_notify = 0;
    phase = open_pool;
    submitted = [];
    started = [];
  }

  abbrev pub move : Pool T → ℕ → Pc T → Pool T
  move p i c = record p { pc = update p.pc i c }

  -- `notify_all` on one worker.
  abbrev pub roused : Pc T → Pc T
  roused sleeping = woken
  roused c = c

  -- One step of a pool with `n` workers: of worker `i`, of a call of `addtask`, or of `stop`.
  pub data Step (n : ℕ) (p : Pool T) : Pool T → Type 0 where
    enter : (i : ℕ) → i < n → p.pc i ≡ at_loop → p.stop ≡ false → Step n p (move p i locking)
    leave : (i : ℕ) → i < n → p.pc i ≡ at_loop → p.stop ≡ true → Step n p (move p i exited)
    acquire :
        (i : ℕ)
        → i < n
        → p.pc i ≡ locking
        → p.mutex ≡ none
        → Step n p (record (move p i checking) { mutex = some i })
    ready :
        (i : ℕ)
        → i < n
        → p.pc i ≡ checking
        → (p.stop ≡ true) ⊎ (p.taskqueue ≢ [])
        → Step n p (move p i proceeding)
    unready :
        (i : ℕ)
        → i < n
        → p.pc i ≡ checking
        → p.stop ≡ false
        → p.taskqueue ≡ []
        → Step n p (move p i dozing)
    block :
        (i : ℕ) → i < n → p.pc i ≡ dozing → Step n p (record (move p i sleeping) { mutex = none })
    spurious : (i : ℕ) → i < n → p.pc i ≡ sleeping → Step n p (move p i woken)
    reacquire :
        (i : ℕ)
        → i < n
        → p.pc i ≡ woken
        → p.mutex ≡ none
        → Step n p (record (move p i checking) { mutex = some i })
    quit :
        (i : ℕ)
        → i < n
        → p.pc i ≡ proceeding
        → p.stop ≡ true
        → p.taskqueue ≡ []
        → Step n p (record (move p i exited) { mutex = none })
    take_task :
        (i : ℕ) (task : T) (rest : List T)
        → i < n
        → p.pc i ≡ proceeding
        → p.taskqueue ≡ task ∷ rest
        → Step n p (record (move p i (running task)) {
          mutex = none;
          taskqueue = rest;
          started = p.started ++ task ∷ [];
        })
    finish : (i : ℕ) (task : T) → i < n → p.pc i ≡ running task → Step n p (move p i at_loop)
    addtask :
        (task : T)
        → p.mutex ≡ none
        → Step n p (record p {
          taskqueue = p.taskqueue ++ task ∷ [];
          submitted = p.submitted ++ task ∷ [];
          to_notify = suc p.to_notify;
        })
    notify_one :
        (k j : ℕ)
        → p.to_notify ≡ suc k
        → j < n
        → p.pc j ≡ sleeping
        → Step n p (record (move p j woken) { to_notify = k })
    notify_nobody :
        (k : ℕ)
        → p.to_notify ≡ suc k
        → ((j : ℕ) → j < n → p.pc j ≢ sleeping)
        → Step n p (record p { to_notify = k })
    store_stop : p.stop ≡ false → Step n p (record p { stop = true; phase = stop_stored })
    notify_all :
        p.phase ≡ stop_stored → Step n p (record p { pc = λ j. roused (p.pc j); phase = joining })
    join :
        p.phase ≡ joining
        → ((j : ℕ) → j < n → p.pc j ≡ exited)
        → Step n p (record p { phase = joined })

  pub data Reach (n : ℕ) : Pool T → Type 0 where
    start : Reach n init
    later : {p q : Pool T} → Reach n p → Step n p q → Reach n q
