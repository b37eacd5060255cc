-- ===== src/EventLoop/Wakeup/Stopped.antt =====
-- The loop returns when it was told to stop (src/EventLoop.cpp, lines 76 to 91 and 118 to 121).
use net_module.Base.{◌≡◌, refl, ◌∙◌, true, arith}
use net_module.EventLoop.Wakeup.{
  Stage, testing, waiting, reading, locking, draining, running, returned, Waking, LoopStep, go_on,
  return_now, wake, read_counter, lock, take_task, finish, unlock, Reach, LoopRun, rest, next,
}
use net_module.EventLoop.Wakeup.Served.{
  Attended, InOrder, Reach-Attended, executed_in_order, emptied, LoopRun-append,
}

module _ {T : Type 0} where
  -- Where the loop's own steps lead if it was told to stop: `run` has returned.
  abbrev Returns : Waking T → Type 0
  Returns w = (v : Waking T) × LoopRun w v × (v.stage ≡ returned)

  before : {w v : Waking T} → LoopStep w v → Returns v → Returns w
  before s (u, run, at) = (u, next s run, at)

  over : (w : Waking T) → w.stage ≡ draining → w.stopped ≡ true → InOrder w → Returns w
  over w at off h =
      let e = emptied w.tasks.task_queue w refl at h in
      (_, LoopRun-append e.run (next (return_now e.at (e.same_stop ∙ off)) rest), refl)

  over_stage :
      (s : Stage T) (w : Waking T)
      → w.stage ≡ s
      → w.unwritten ≡ 0
      → w.stopped ≡ true
      → InOrder w
      → Attended w
      → Returns w
  over_stage testing w at written off h a = (_, next (return_now at off) rest, refl)
  over_stage waiting w at written off h a =
      let pos = a.of_stop at off in
      before (wake at (omega arith))
        (before (read_counter refl) (before (lock refl) (over _ refl off h)))
  over_stage reading w at written off h a =
      before (read_counter at) (before (lock refl) (over _ refl off h))
  over_stage locking w at written off h a = before (lock at) (over _ refl off h)
  over_stage draining w at written off h a = over w at off h
  over_stage (running fn) w at written off h a = before (finish fn at) (over _ refl off h)
  over_stage returned w at written off h a = (w, rest, at)

  -- Once the loop was told to stop, and every call of `queueInLoop` and `stop` has written to the eventfd,
  -- the loop's thread by its own steps, if the tasks return, comes to return from `run`: it does not
  -- wait in `epoll_wait` for another event.
  pub told_returns :
      {w : Waking T}
      → Reach w
      → w.unwritten ≡ 0
      → w.stopped ≡ true
      → (v : Waking T) × LoopRun w v × (v.stage ≡ returned)
  told_returns {w} r written off =
      over_stage w.stage w refl written off (executed_in_order r) (Reach-Attended r)

  -- A task that is queued after the loop has returned is never run by it.
  pub queued_too_late : {w v : Waking T} → w.stage ≡ returned → LoopRun w v → v ≡ w
  queued_too_late at rest = refl
  queued_too_late at (next (go_on e f) run) = absurd (cc)
  queued_too_late at (next (return_now e f) run) = absurd (cc)
  queued_too_late at (next (wake e f) run) = absurd (cc)
  queued_too_late at (next (read_counter e) run) = absurd (cc)
  queued_too_late at (next (lock e) run) = absurd (cc)
  queued_too_late at (next (take_task fn fns e q) run) = absurd (cc)
  queued_too_late at (next (finish fn e) run) = absurd (cc)
  queued_too_late at (next (unlock e q) run) = absurd (cc)
