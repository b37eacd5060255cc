-- ===== src/ThreadPool/Once.antt =====
-- No task is run by two workers: for the loops of a server, one loop to a thread.
use net_module.Base.{ℕ, ◌≡◌, sym, ap, ◌∙◌, ◌≢◌, List, [], ◌∷◌, ◌++◌, arith, ℕ_discrete}
use mathlib.Core.Path.{subst}
use mathlib.Core.List.{Mem, mem-cons_self, mem-append_left, mem-append_right, Nodup, Nodup-append}
use net_module.ThreadPool.{
  Pc, at_loop, running, Pool, roused, Step, take_task, addtask, notify_nobody, store_stop,
  notify_all, join, Reach, start, later,
}
use net_module.ThreadPool.Invariant.{tasks_in_order}

module _ {T : Type 0} where
  roused_running : (c : Pc T) (t : T) → roused c ≡ running t → c ≡ running t
  roused_running (running s) t e = e
  roused_running at_loop t e = cc
  roused_running c t e = ground arith

  -- A task that runs was started.
  abbrev Started : Pool T → Type 0
  Started p = (i : ℕ) (t : T) → p.pc i ≡ running t → Mem t p.started

  Step-Started : {n : ℕ} {p q : Pool T} → Step n p q → Started p → Started q
  Step-Started {p} (take_task i task rest lt e c) v j t h = elim (ℕ_discrete i j) [
    | yes same ↦
        let e : task ≡ t = ground (arith, h, same) in
        subst (λ u. Mem u (p.started ++ task ∷ [])) e
          (mem-append_right p.started (mem-cons_self {a = task} {l = []}))
    | no other ↦ mem-append_left (task ∷ []) (v j t (ground (arith, h, other)))
  ]
  Step-Started {p} (notify_all f) v j t h = v j t (roused_running (p.pc j) t h)
  Step-Started (addtask task m) v j t h = v j t h
  Step-Started (notify_nobody k w none_sleeps) v j t h = v j t h
  Step-Started (store_stop s) v j t h = v j t h
  Step-Started (join f all) v j t h = v j t h
  Step-Started st v j t h = ground (arith, v j t)

  Reach-Started : {n : ℕ} {p : Pool T} → Reach n p → Started p
  Reach-Started start i t h = cc
  Reach-Started (later r st) i t h = Step-Started st (Reach-Started r) i t h

  abbrev Alone : Pool T → Type 0
  Alone p = (i j : ℕ) (t : T) → p.pc i ≡ running t → p.pc j ≡ running t → i ≡ j

  -- The worker that takes a task is the first to run it.
  taken_alone :
      {n : ℕ} {p : Pool T} {t : T}
      → Reach n p
      → Nodup p.submitted
      → (task : T) (rest : List T) → p.taskqueue ≡ task ∷ rest
      → (j : ℕ) → p.pc j ≡ running t
      → task ≢ t
  taken_alone {p = p} {t = t} r once task rest c j h same =
      let both : Nodup (p.started ++ task ∷ rest) =
        subst Nodup (tasks_in_order r ∙ ap (◌++◌ p.started) c) once in
      (Nodup-append.0 both).2 task (subst (λ u. Mem u p.started) (sym same) (Reach-Started r j t h))
        mem-cons_self

  Step-Alone :
      {n : ℕ} {p q : Pool T} → Reach n p → Step n p q → Nodup p.submitted → Alone p → Alone q
  Step-Alone r (take_task i task rest lt e c) once v j k t g h = elim (ℕ_discrete i j) [
    | yes a ↦ elim (ℕ_discrete i k) [
      | yes b ↦ sym a ∙ b
      | no b ↦
          absurd
            (taken_alone {t = t} r once task rest c k (ground (arith, h, b)) (ground (arith, g, a)))
    ]
    | no a ↦ elim (ℕ_discrete i k) [
      | yes b ↦
          absurd
            (taken_alone {t = t} r once task rest c j (ground (arith, g, a)) (ground (arith, h, b)))
      | no b ↦ v j k t (ground (arith, g, a)) (ground (arith, h, b))
    ]
  ]
  Step-Alone {p = p} r (notify_all f) once v j k t g h =
      v j k t (roused_running (p.pc j) t g) (roused_running (p.pc k) t h)
  Step-Alone r (addtask task m) once v j k t g h = v j k t g h
  Step-Alone r (notify_nobody l w none_sleeps) once v j k t g h = v j k t g h
  Step-Alone r (store_stop s) once v j k t g h = v j k t g h
  Step-Alone r (join f all) once v j k t g h = v j k t g h
  Step-Alone r st once v j k t g h = ground (arith, v j k t)

  earlier_Nodup : {n : ℕ} {p q : Pool T} → Step n p q → Nodup q.submitted → Nodup p.submitted
  earlier_Nodup {p = p} (addtask task m) once = (Nodup-append.0 once).0
  earlier_Nodup st once = once

  -- In every state that a pool can reach, if the tasks that were added are all different, no two workers
  -- are in the same one: each loop of a server, which is a task of its pool, has one thread.
  pub running_once :
      {n : ℕ} {p : Pool T}
      → Reach n p
      → Nodup p.submitted
      → (i j : ℕ) (task : T) → p.pc i ≡ running task
      → p.pc j ≡ running task
      → i ≡ j
  running_once start once i j task g h = cc
  running_once (later r st) once i j task g h =
      let before = earlier_Nodup st once in
      Step-Alone r st before (running_once r before) i j task g h
