-- ===== src/EventLoop/Wakeup/Served.antt =====
-- No wakeup of `queueInLoop` is lost: the loop serves everything in order.
use net_module.Base.{
  ◌+◌, ◌<◌, ◌≡◌, ◌≢◌, refl, sym, ap, ◌∙◌, Bool, true, false, List, [], ◌∷◌, ◌++◌, arith,
  append_assoc, append-nil,
}
use net_module.EventLoop.Tasks.{wakeup}
use net_module.EventLoop.Wakeup.{
  Stage, testing, waiting, reading, locking, draining, running, returned, Waking, LoopStep, go_on,
  return_now, wake, read_counter, lock, take_task, finish, unlock, Step, by_loop, come_round, push,
  store_stop, write_counter, Reach, start, later, LoopRun, rest, next,
}

module _ {T : Type 0} where
  -- Outside `handlewakeup`, and before `run` has returned.
  abbrev is_outside : Stage T → Bool
  is_outside testing = true
  is_outside waiting = true
  is_outside s = false

  -- A loop outside `handlewakeup` with tasks has been notified, or is about to be; so has a loop in
  -- `epoll_wait` that was told to stop; and one that has returned was told to.
  pub record Attended (w : Waking T) : Type 0 where
    pub of_tasks :
        is_outside w.stage ≡ true → w.tasks.task_queue ≢ [] → 0 < w.tasks.counter + w.unwritten
    pub of_stop : w.stage ≡ waiting → w.stopped ≡ true → 0 < w.tasks.counter + w.unwritten
    pub told : w.stage ≡ returned → w.stopped ≡ true

  abbrev pub InOrder : Waking T → Type 0
  InOrder w = w.submitted ≡ w.executed ++ w.tasks.task_queue

  LoopStep-Attended : {w v : Waking T} → LoopStep w v → Attended w → Attended v
  LoopStep-Attended (go_on e f) a = record {
    of_tasks = λ out some. a.of_tasks (ap is_outside e) some;
    of_stop = λ at s. absurd (cc);
    told = λ at. cc;
  }
  LoopStep-Attended (return_now e s) a = record {
    of_tasks = λ out some. cc;
    of_stop = λ at f. cc;
    told = λ at. s;
  }
  LoopStep-Attended (wake e pos) a = record {
    of_tasks = λ out some. cc;
    of_stop = λ at s. cc;
    told = λ at. cc;
  }
  LoopStep-Attended (read_counter e) a = record {
    of_tasks = λ out some. cc;
    of_stop = λ at s. cc;
    told = λ at. cc;
  }
  LoopStep-Attended (lock e) a = record {
    of_tasks = λ out some. cc;
    of_stop = λ at s. cc;
    told = λ at. cc;
  }
  LoopStep-Attended (take_task fn fns e q) a = record {
    of_tasks = λ out some. cc;
    of_stop = λ at s. cc;
    told = λ at. cc;
  }
  LoopStep-Attended (finish fn e) a = record {
    of_tasks = λ out some. cc;
    of_stop = λ at s. cc;
    told = λ at. cc;
  }
  LoopStep-Attended (unlock e q) a = record {
    of_tasks = λ out some. absurd (some q);
    of_stop = λ at s. cc;
    told = λ at. cc;
  }

  Step-Attended : {w v : Waking T} → Step w v → Attended w → Attended v
  unfolding wakeup
  Step-Attended (by_loop s) a = LoopStep-Attended s a
  Step-Attended (come_round e) a = record {
    of_tasks = λ out some. a.of_tasks (ap is_outside e) some;
    of_stop = λ at s. cc;
    told = λ at. cc;
  }
  Step-Attended (push fn free) a = record {
    of_tasks = λ out some. omega arith;
    of_stop = λ at s. omega arith;
    told = a.told;
  }
  Step-Attended store_stop a = record {
    of_tasks = λ out some. omega arith;
    of_stop = λ at s. omega arith;
    told = λ at. refl;
  }
  Step-Attended (write_counter k e) a = record {
    of_tasks = λ out some. ground (arith, a.of_tasks out some);
    of_stop = λ at s. ground (arith, a.of_stop at s);
    told = a.told;
  }

  LoopStep-InOrder : {w v : Waking T} → LoopStep w v → InOrder w → InOrder v
  LoopStep-InOrder (go_on e f) h = h
  LoopStep-InOrder (return_now e s) h = h
  LoopStep-InOrder (wake e pos) h = h
  LoopStep-InOrder (read_counter e) h = h
  LoopStep-InOrder (lock e) h = h
  LoopStep-InOrder {w} (take_task fn fns e q) h =
      h ∙ ap (◌++◌ w.executed) q ∙ sym (append_assoc w.executed (fn ∷ []) fns)
  LoopStep-InOrder (finish fn e) h = h
  LoopStep-InOrder (unlock e q) h = h

  Step-InOrder : {w v : Waking T} → Step w v → InOrder w → InOrder v
  unfolding wakeup
  Step-InOrder (by_loop s) h = LoopStep-InOrder s h
  Step-InOrder {w} (push fn free) h =
      ap (λ l. l ++ fn ∷ []) h ∙ append_assoc w.executed w.tasks.task_queue (fn ∷ [])
  Step-InOrder (write_counter k e) h = h
  Step-InOrder (come_round e) h = h
  Step-InOrder store_stop h = h

  pub Reach-Attended : {w : Waking T} → Reach w → Attended w
  Reach-Attended start = record {
    of_tasks = λ out some. absurd (some refl);
    of_stop = λ at s. cc;
    told = λ at. cc;
  }
  Reach-Attended (later r s) = Step-Attended s (Reach-Attended r)

  -- What has run and what waits are, in this order, all that was queued: no task is lost, none runs
  -- twice, and they run first come first served.
  pub executed_in_order : {w : Waking T} → Reach w → w.submitted ≡ w.executed ++ w.tasks.task_queue
  executed_in_order start = refl
  executed_in_order (later r s) = Step-InOrder s (executed_in_order r)

  -- Where the loop's own steps lead if it was not told to stop: everything that was queued has run.
  abbrev Serves : Waking T → Type 0
  Serves w =
      (v : Waking T) × LoopRun w v
      × (v.stage ≡ waiting)
      × (v.tasks.task_queue ≡ [])
      × (v.executed ≡ w.submitted)

  ahead : {w v : Waking T} → LoopStep w v → v.submitted ≡ w.submitted → Serves v → Serves w
  ahead s same (u, run, at, empty, all) = (u, next s run, at, empty, all ∙ same)

  all_run : (w : Waking T) → w.tasks.task_queue ≡ [] → InOrder w → w.executed ≡ w.submitted
  all_run w q h = sym (h ∙ ap (◌++◌ w.executed) q ∙ append-nil w.executed)

  -- Before the test of `run` again, with the queue empty.
  pub record Emptied (w : Waking T) : Type 0 where
    pub after : Waking T
    pub run : LoopRun w after
    pub at : after.stage ≡ testing
    pub empty : after.tasks.task_queue ≡ []
    pub same_stop : after.stopped ≡ w.stopped
    pub same_submitted : after.submitted ≡ w.submitted
    pub order : InOrder after

  pub emptied :
      (fns : List T) (w : Waking T)
      → w.tasks.task_queue ≡ fns
      → w.stage ≡ draining
      → InOrder w
      → Emptied w
  emptied [] w q at h = record {
    after = _;
    run = next (unlock at q) rest;
    at = refl;
    empty = q;
    same_stop = refl;
    same_submitted = refl;
    order = h;
  }
  emptied (fn ∷ fns) w q at h =
      let one = take_task fn fns at q in
      let e = emptied fns _ refl refl (LoopStep-InOrder one h) in
      record {
        after = e.after;
        run = next one (next (finish fn refl) e.run);
        at = e.at;
        empty = e.empty;
        same_stop = e.same_stop;
        same_submitted = e.same_submitted;
        order = e.order;
      }

  pub LoopRun-append : {w v u : Waking T} → LoopRun w v → LoopRun v u → LoopRun w u
  LoopRun-append rest run = run
  LoopRun-append (next s more) run = next s (LoopRun-append more run)

  drain : (w : Waking T) → w.stage ≡ draining → w.stopped ≡ false → InOrder w → Serves w
  drain w at on h =
      let e = emptied w.tasks.task_queue w refl at h in
      (
        _,
        LoopRun-append e.run (next (go_on e.at (e.same_stop ∙ on)) rest),
        refl,
        e.empty,
        all_run e.after e.empty e.order ∙ e.same_submitted,
      )

  from_read : (w : Waking T) → w.stage ≡ reading → w.stopped ≡ false → InOrder w → Serves w
  from_read w at on h = ahead (read_counter at) refl (ahead (lock refl) refl (drain _ refl on h))

  from_wait :
      (fns : List T) (w : Waking T)
      → w.tasks.task_queue ≡ fns
      → w.stage ≡ waiting
      → w.unwritten ≡ 0
      → w.stopped ≡ false
      → InOrder w
      → (w.tasks.task_queue ≢ [] → 0 < w.tasks.counter + w.unwritten)
      → Serves w
  from_wait [] w q at written on h a = (w, rest, at, q, all_run w q h)
  from_wait (fn ∷ fns) w q at written on h a =
      let pos = a (λ (e : w.tasks.task_queue ≡ []). cc) in
      ahead (wake at (omega arith)) refl (from_read _ refl on h)

  from_stage :
      (s : Stage T) (w : Waking T)
      → w.stage ≡ s
      → w.unwritten ≡ 0
      → w.stopped ≡ false
      → InOrder w
      → Attended w
      → Serves w
  from_stage testing w at written on h a =
      ahead (go_on at on) refl
        (from_wait w.tasks.task_queue _ refl refl written on h (a.of_tasks (ap is_outside at)))
  from_stage waiting w at written on h a =
      from_wait w.tasks.task_queue w refl at written on h (a.of_tasks (ap is_outside at))
  from_stage reading w at written on h a = from_read w at on h
  from_stage locking w at written on h a = ahead (lock at) refl (drain _ refl on h)
  from_stage draining w at written on h a = drain w at on h
  from_stage (running fn) w at written on h a = ahead (finish fn at) refl (drain _ refl on h)
  from_stage returned w at written on h a = absurd (cc (a.told at))

  -- While the loop was not told to stop, and whenever every call of `queueInLoop` has written to the
  -- eventfd, the loop's thread by its own steps, if the tasks return, comes to run everything that was
  -- queued, and waits again.
  pub queued_is_served :
      {w : Waking T}
      → Reach w
      → w.unwritten ≡ 0
      → w.stopped ≡ false
      → (v : Waking T) × LoopRun w v
        × (v.stage ≡ waiting)
        × (v.tasks.task_queue ≡ [])
        × (v.executed ≡ w.submitted)
  queued_is_served {w} r written on =
      from_stage w.stage w refl written on (executed_in_order r) (Reach-Attended r)
