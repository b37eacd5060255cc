-- ===== src/EventLoop/Tasks/Order.antt =====
-- The queue serves its tasks in the order in which they came.
use net_module.Base.{
  ◌≡◌, refl, sym, ap, ◌∙◌, List, [], ◌∷◌, ◌++◌, Result, ok, err, ◌>>=◌, >>=_assoc, >>=_congr,
}
use net_module.EventLoop.Tasks.{Tasks, wakeup, queue_in_loop, run_tasks, handlewakeup}

module _ {T X : Type 0} (run : T → X → Result X) where
  pub run_tasks-append :
      (fns gns : List T) (x : X)
      → run_tasks run (fns ++ gns) x ≡ (run_tasks run fns x >>= run_tasks run gns)
  unfolding run_tasks
  run_tasks-append [] gns x = refl
  run_tasks-append (fn ∷ fns) gns x =
      >>=_congr (run fn x) _ _ (λ t. run_tasks-append fns gns t)
      ∙ sym (>>=_assoc (run fn x) (run_tasks run fns) (run_tasks run gns))

  -- A task that was queued last runs last, after all that stood before it, and then the queue is
  -- empty and the eventfd is cleared.
  pub handlewakeup-queue_in_loop :
      (q : Tasks T) (fn : T) (x : X)
      → handlewakeup run (queue_in_loop q fn) x ≡ (
          run_tasks run q.task_queue x >>= λ y.
          run fn y >>= λ z. ok (record { task_queue = []; counter = 0 }, z))
  unfolding handlewakeup queue_in_loop wakeup run_tasks
  handlewakeup-queue_in_loop q fn x =
      ap (λ r. r >>= λ z. ok (record { task_queue = []; counter = 0 }, z))
        (run_tasks-append q.task_queue (fn ∷ []) x)
      ∙ >>=_assoc (run_tasks run q.task_queue x) (run_tasks run (fn ∷ [])) _
      ∙ >>=_congr (run_tasks run q.task_queue x) _ _ last
    where
      emptied : X → Result (Tasks T × X)
      emptied z = ok (record { task_queue = []; counter = 0 }, z)

      under : (r : Result X) → (r >>= run_tasks run [] >>= emptied) ≡ (r >>= emptied)
      under (ok z) = refl
      under (err e) = refl

      last : (y : X) → (run_tasks run (fn ∷ []) y >>= emptied) ≡ (run fn y >>= emptied)
      last y = under (run fn y)
