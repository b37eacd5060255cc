-- ===== src/ThreadPool/Tests.antt =====
-- Instances of the pool's theorems: a pool of one worker with one task running and one waiting.
use net_module.Base.{ℕ, ◌<◌, ◌≤◌, ◌≡◌, refl, inr, true, [], ◌∷◌, ◌++◌, arith}
use net_module.ThreadPool.{
  ready, take_task, Pc, sleeping, joining, Pool, enter, acquire, addtask, notify_nobody, Reach,
  start, later, unready, block, notify_one,
}
use net_module.ThreadPool.Invariant.{mutual_exclusion, tasks_in_order}
use net_module.ThreadPool.Wakeups.{coming, no_wakeup_lost}
use mathlib.Core.List.{not-mem-nil, eq-or-mem_of_mem-cons, Nodup, Nodup-cons, Pairwise}
use mathlib.Core.Logic.Or
use mathlib.Core.HLevel.{⊥_prop}
use net_module.ThreadPool.Once.{running_once}
use net_module.ThreadPool.Shutdown.{stop_lost_wakeup, QuietRun}

record Example : Type 0 where
  pool : Pool ℕ
  reach : Reach 1 pool

not_asleep : (j : ℕ) → j < 1 → ◌≡◌ {A = Pc ℕ} Pc.at_loop sleeping → ⊥
not_asleep j h e = cc

-- Two tasks were added and both notifications made with nobody asleep; the worker then took the
-- mutex.
abbrev at_the_queue : Example
at_the_queue = record {
  pool = _;
  reach =
      later
        (later
          (later (later (later start (addtask 7 refl)) (notify_nobody 0 refl not_asleep))
            (addtask 8 refl))
          (notify_nobody 0 refl not_asleep))
        (enter 0 (omega arith) refl refl);
}

mutual_exclusion_example : ◌≡◌ {A = ℕ} 0 0
mutual_exclusion_example =
    mutual_exclusion (later at_the_queue.reach (acquire 0 (omega arith) (ground arith) refl)) 0 0
      (ground arith) (ground arith)

tasks_in_order_example :
    at_the_queue.pool.submitted ≡ at_the_queue.pool.started ++ at_the_queue.pool.taskqueue
tasks_in_order_example = tasks_in_order at_the_queue.reach

record Pair : Type 0 where
  pool : Pool ℕ
  reach : Reach 2 pool

-- Two workers fall asleep, a task is added, and one of them is notified.
abbrev one_notified : Pair
one_notified = record {
  pool = _;
  reach =
      later
        (later
          (later
            (later
              (later
                (later
                  (later
                    (later
                      (later (later start (enter 0 (omega arith) refl refl))
                        (acquire 0 (omega arith) (ground arith) refl))
                      (unready 0 (omega arith) (ground arith) refl refl))
                    (block 0 (omega arith) (ground arith)))
                  (enter 1 (omega arith) (ground arith) refl))
                (acquire 1 (omega arith) (ground arith) refl))
              (unready 1 (omega arith) (ground arith) refl refl))
            (block 1 (omega arith) (ground arith)))
          (addtask 7 refl))
        (notify_one 0 0 refl (omega arith) (ground arith));
}

no_wakeup_lost_example : 1 ≤ coming 2 one_notified.pool.pc
no_wakeup_lost_example = no_wakeup_lost one_notified.reach refl refl 1 (omega arith) (ground arith)

stop_lost_wakeup_example :
    (p : Pool ℕ) × Reach 3 p
    × (p.stop ≡ true)
    × ((q : Pool ℕ) → QuietRun 3 p q → (q.pc 1 ≡ sleeping) × (q.phase ≡ joining))
stop_lost_wakeup_example = stop_lost_wakeup 3 1 (omega arith)

-- Tasks 7 and 8; task 7 was started.
abbrev one_started : Example
one_started = record {
  pool = _;
  reach =
      later
        (later (later at_the_queue.reach (acquire 0 (omega arith) (ground arith) refl))
          (ready 0 (omega arith) (ground arith) (inr (λ e. cc))))
        (take_task 0 7 (8 ∷ []) (omega arith) (ground arith) refl);
}

two_different : Nodup {A = ℕ} (7 ∷ 8 ∷ [])
two_different = Nodup-cons.1 (
  λ m. Or.elim ⊥_prop (eq-or-mem_of_mem-cons m) (λ e. absurd (omega arith)) not-mem-nil,
  Nodup-cons.1 (not-mem-nil, Pairwise.nil),
)

running_once_example : ◌≡◌ {A = ℕ} 0 0
running_once_example =
    running_once one_started.reach two_different 0 0 7 (ground arith) (ground arith)
