-- ===== src/ThreadPool/Invariant.antt =====
-- What holds in every state of the pool: one worker at a time has the mutex, and tasks start in the
-- order in which they were added and once each.
use net_module.Base.{
  ℕ, ◌≡◌, refl, sym, ap, ◌∙◌, ◌≢◌, Bool, true, false, [], ◌∷◌, ◌++◌, some, arith, append_assoc,
}
use net_module.ThreadPool.{
  Pc, at_loop, checking, dozing, proceeding, exited, Pool, init, roused, Step, enter, leave,
  acquire, ready, unready, block, spurious, reacquire, quit, take_task, finish, addtask, notify_one,
  notify_nobody, store_stop, notify_all, join, Reach, start, later,
}

module _ {T : Type 0} where
  -- Between taking the mutex and giving it up.
  abbrev pub holds : Pc T → Bool
  holds checking = true
  holds dozing = true
  holds proceeding = true
  holds _ = false

  pub record Inv (n : ℕ) (p : Pool T) : Type 0 where
    pub owner : (i : ℕ) → holds (p.pc i) ≡ true → p.mutex ≡ some i
    pub dozing_empty : (i : ℕ) → p.pc i ≡ dozing → p.stop ≡ false → p.taskqueue ≡ []
    pub alive : (i : ℕ) → p.stop ≡ false → p.pc i ≢ exited
    pub in_order : p.submitted ≡ p.started ++ p.taskqueue

  init-Inv : (n : ℕ) → Inv n init
  init-Inv n = record {
    owner = λ i h. cc;
    dozing_empty = λ i h s. refl;
    alive = λ i s h. cc;
    in_order = refl;
  }

  Step-owner :
      {n : ℕ} {p q : Pool T}
      → Inv n p
      → Step n p q
      → (j : ℕ) → holds (q.pc j) ≡ true
      → q.mutex ≡ some j
  Step-owner v (enter i lt e s) j h = ground (arith, v.owner j)
  Step-owner v (leave i lt e s) j h = ground (arith, v.owner j)
  Step-owner v (acquire i lt e m) j h = ground (arith, v.owner j)
  Step-owner v (ready i lt e c) j h = ground (arith, v.owner j, v.owner i)
  Step-owner v (unready i lt e s c) j h = ground (arith, v.owner j, v.owner i)
  Step-owner v (block i lt e) j h = ground (arith, v.owner j, v.owner i)
  Step-owner v (spurious i lt e) j h = ground (arith, v.owner j)
  Step-owner v (reacquire i lt e m) j h = ground (arith, v.owner j)
  Step-owner v (quit i lt e s c) j h = ground (arith, v.owner j, v.owner i)
  Step-owner v (take_task i task rest lt e c) j h = ground (arith, v.owner j, v.owner i)
  Step-owner v (finish i task lt e) j h = ground (arith, v.owner j)
  Step-owner v (addtask task m) j h = v.owner j h
  Step-owner v (notify_one k i w lt e) j h = ground (arith, v.owner j)
  Step-owner v (notify_nobody k w none_sleeps) j h = v.owner j h
  Step-owner v (store_stop s) j h = v.owner j h
  Step-owner {p} v (notify_all f) j h = roused_owner (p.pc j) refl h
    where
      roused_owner : (c : Pc T) → p.pc j ≡ c → holds (roused c) ≡ true → p.mutex ≡ some j
      roused_owner at_loop e k = cc
      roused_owner c e k = ground (arith, v.owner j)
  Step-owner v (join f all) j h = v.owner j h

  Step-dozing_empty :
      {n : ℕ} {p q : Pool T}
      → Inv n p
      → Step n p q
      → (j : ℕ) → q.pc j ≡ dozing
      → q.stop ≡ false
      → q.taskqueue ≡ []
  Step-dozing_empty v (unready i lt e s c) j h t = c
  Step-dozing_empty v (take_task i task rest lt e c) j h t =
      ground (arith, v.owner i, v.owner j, v.dozing_empty j)
  Step-dozing_empty v (addtask task m) j h t = ground (arith, v.owner j)
  Step-dozing_empty v (store_stop s) j h t = cc
  Step-dozing_empty {p} v (notify_all f) j h t = still_dozing (p.pc j) refl h
    where
      still_dozing : (c : Pc T) → p.pc j ≡ c → roused c ≡ dozing → p.taskqueue ≡ []
      still_dozing dozing e k = v.dozing_empty j e t
      still_dozing c e k = cc
  Step-dozing_empty v st j h t = ground (arith, v.dozing_empty j)

  Step-alive :
      {n : ℕ} {p q : Pool T} → Inv n p → Step n p q → (j : ℕ) → q.stop ≡ false → q.pc j ≢ exited
  Step-alive v (leave i lt e s) j t h = cc
  Step-alive v (quit i lt e s c) j t h = cc
  Step-alive v (store_stop s) j t h = cc
  Step-alive {p} v (notify_all f) j t h = left (p.pc j) refl h
    where
      left : (c : Pc T) → p.pc j ≡ c → roused c ≡ exited → ⊥
      left exited e k = v.alive j t e
      left c e k = cc
  Step-alive v st j t h = ground (arith, v.alive j)

  Step-in_order :
      {n : ℕ} {p q : Pool T} → Inv n p → Step n p q → q.submitted ≡ q.started ++ q.taskqueue
  Step-in_order {p} v (take_task i task rest lt e c) =
      v.in_order ∙ ap (◌++◌ p.started) c ∙ sym (append_assoc p.started (task ∷ []) rest)
  Step-in_order {p} v (addtask task m) =
      ap (λ l. l ++ task ∷ []) v.in_order ∙ append_assoc p.started p.taskqueue (task ∷ [])
  Step-in_order v st = v.in_order

  Step-Inv : {n : ℕ} {p q : Pool T} → Step n p q → Inv n p → Inv n q
  Step-Inv st v = record {
    owner = Step-owner v st;
    dozing_empty = Step-dozing_empty v st;
    alive = Step-alive v st;
    in_order = Step-in_order v st;
  }

  pub Reach-Inv : {n : ℕ} {p : Pool T} → Reach n p → Inv n p
  Reach-Inv {n} start = init-Inv n
  Reach-Inv (later r st) = Step-Inv st (Reach-Inv r)

  -- Two workers are never inside the critical section together.
  pub mutual_exclusion :
      {n : ℕ} {p : Pool T}
      → Reach n p
      → (i j : ℕ) → holds (p.pc i) ≡ true
      → holds (p.pc j) ≡ true
      → i ≡ j
  mutual_exclusion {p} r i j a b = let v = Reach-Inv r in ground (arith, v.owner i, v.owner j)

  -- The tasks that have started and those that wait are, in this order, all that were added: none is
  -- lost, none starts twice, and they start first come first served.
  pub tasks_in_order : {n : ℕ} {p : Pool T} → Reach n p → p.submitted ≡ p.started ++ p.taskqueue
  tasks_in_order r = (Reach-Inv r).in_order
