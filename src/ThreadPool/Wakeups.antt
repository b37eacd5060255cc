-- ===== src/ThreadPool/Wakeups.antt =====
-- The wakeups of `addtask` (src/ThreadPool.cpp, lines 45 to 51): no worker sleeps while a task
-- waits that nobody is on the way to.
use net_module.Base.{
  ℕ, zero, suc, ◌+◌, ◌≤◌, ◌<◌, ◌≡◌, refl, ap, ◌≢◌, false, [], ◌∷◌, arith, length, length-append,
  ℕ_discrete,
}
use net_module.ThreadPool.{
  Pc, at_loop, locking, checking, sleeping, woken, proceeding, running, Pool, open_pool, update,
  Step, enter, leave, acquire, ready, unready, block, spurious, reacquire, quit, take_task, finish,
  addtask, notify_one, notify_nobody, store_stop, notify_all, join, Reach, start, later,
}
use net_module.ThreadPool.Invariant.{Inv, Reach-Inv}

module _ {T : Type 0} where
  -- On the way to the queue: not in a task, and neither blocked nor about to be.
  abbrev pub is_coming : Pc T → ℕ
  is_coming at_loop = 1
  is_coming locking = 1
  is_coming checking = 1
  is_coming woken = 1
  is_coming proceeding = 1
  is_coming c = 0

  -- How many of the first `n` workers are on the way to the queue.
  unfoldable pub coming : ℕ → (ℕ → Pc T) → ℕ
  coming zero pc = 0
  coming (suc n) pc = coming n pc + is_coming (pc n)

  coming-update_of_le :
      (n : ℕ) (pc : ℕ → Pc T) (i : ℕ) (c : Pc T) → n ≤ i → coming n (update pc i c) ≡ coming n pc
  unfolding coming
  coming-update_of_le zero pc i c h = refl
  coming-update_of_le (suc n) pc i c h = ground (arith, coming-update_of_le n pc i c)

  coming-update :
      (n : ℕ) (pc : ℕ → Pc T) (i : ℕ) (c : Pc T)
      → i < n
      → coming n (update pc i c) + is_coming (pc i) ≡ coming n pc + is_coming c
  unfolding coming
  coming-update zero pc i c h = absurd (omega arith)
  coming-update (suc n) pc i c h = elim (ℕ_discrete i n) [
    | yes last ↦ ground (arith, coming-update_of_le n pc i c)
    | no other ↦ ground (arith, coming-update n pc i c)
  ]

  -- If a worker sleeps, as many are on the way to the queue, or about to be notified, as tasks wait.
  abbrev Enough : ℕ → Pool T → Type 0
  Enough n p =
      (i : ℕ) → i < n → p.pc i ≡ sleeping → length p.taskqueue ≤ coming n p.pc + p.to_notify

  still_asleep :
      (pc : ℕ → Pc T) (i j : ℕ) (c : Pc T)
      → c ≢ sleeping
      → update pc i c j ≡ sleeping
      → pc j ≡ sleeping
  still_asleep pc i j c other h = elim (ℕ_discrete i j) [
    | yes same ↦ absurd (other (ground arith))
    | no apart ↦ ground arith
  ]

  -- A worker that moves without leaving the way to the queue.
  moved :
      {n : ℕ} (p : Pool T) (i : ℕ) (c : Pc T)
      → i < n
      → c ≢ sleeping
      → is_coming (p.pc i) ≤ is_coming c
      → Enough n p
      → (j : ℕ) → j < n
      → update p.pc i c j ≡ sleeping
      → length p.taskqueue ≤ coming n (update p.pc i c) + p.to_notify
  moved {n} p i c lt other more enough j lt' h =
      omega (arith, coming-update n p.pc i c lt, enough j lt' (still_asleep p.pc i j c other h))

  Step-Enough :
      {n : ℕ} {p q : Pool T}
      → Inv n p
      → (p.stop ≡ false → p.phase ≡ open_pool)
      → Step n p q
      → Enough n p
      → q.stop ≡ false
      → Enough n q
  Step-Enough {n} {p} v open_lem (enter i lt e s) h on =
      moved p i locking lt (λ f. cc) (ground (arith, e)) h
  Step-Enough {n} {p} v open_lem (leave i lt e s) h on = absurd (cc)
  Step-Enough {n} {p} v open_lem (acquire i lt e m) h on =
      moved p i checking lt (λ f. cc) (ground (arith, e)) h
  Step-Enough {n} {p} v open_lem (ready i lt e c) h on =
      moved p i proceeding lt (λ f. cc) (ground (arith, e)) h
  Step-Enough {n} {p} v open_lem (unready i lt e s c) h on = λ j lt' f. ground (arith, c)
  Step-Enough {n} {p} v open_lem (block i lt e) h on =
      λ j lt' f. ground (arith, v.dozing_empty i e on)
  Step-Enough {n} {p} v open_lem (spurious i lt e) h on =
      moved p i woken lt (λ f. cc) (ground (arith, e)) h
  Step-Enough {n} {p} v open_lem (reacquire i lt e m) h on =
      moved p i checking lt (λ f. cc) (ground (arith, e)) h
  Step-Enough {n} {p} v open_lem (quit i lt e s c) h on = absurd (cc)
  Step-Enough {n} {p} v open_lem (take_task i task rest lt e c) h on = λ j lt' f.
      let asleep = still_asleep p.pc i j (running task) (λ g. cc) f in
      let before : suc (length rest) ≤ coming n p.pc + p.to_notify =
        ground (arith, c, h j lt' asleep) in
      let gone : is_coming (p.pc i) ≡ 1 = ap is_coming e in
      omega (arith, coming-update n p.pc i (running task) lt)
  Step-Enough {n} {p} v open_lem (finish i task lt e) h on =
      moved p i at_loop lt (λ f. cc) (ground (arith, e)) h
  Step-Enough {n} {p} v open_lem (addtask task m) h on =
      λ j lt' f. omega (arith, length-append p.taskqueue (task ∷ []), h j lt' f)
  Step-Enough {n} {p} v open_lem (notify_one k i w lt e) h on = λ j lt' f.
      let asleep = still_asleep p.pc i j woken (λ g. cc) f in
      let slept : is_coming (p.pc i) ≡ 0 = ap is_coming e in
      omega (arith, coming-update n p.pc i woken lt, h j lt' asleep)
  Step-Enough {n} {p} v open_lem (notify_nobody k w none_sleeps) h on =
      λ j lt' f. absurd (none_sleeps j lt' f)
  Step-Enough {n} {p} v open_lem (store_stop s) h on = absurd (cc)
  Step-Enough {n} {p} v open_lem (notify_all f) h on = absurd (cc (open_lem on, f))
  Step-Enough {n} {p} v open_lem (join f all) h on = absurd (cc (open_lem on, f))

  Step-open :
      {n : ℕ} {p q : Pool T}
      → Step n p q
      → (p.stop ≡ false → p.phase ≡ open_pool)
      → q.stop ≡ false
      → q.phase ≡ open_pool
  Step-open (store_stop s) h on = absurd (cc)
  Step-open (notify_all f) h on = absurd (cc (h on, f))
  Step-open (join f all) h on = absurd (cc (h on, f))
  Step-open st h on = h on

  Reach-open : {n : ℕ} {p : Pool T} → Reach n p → p.stop ≡ false → p.phase ≡ open_pool
  Reach-open start on = refl
  Reach-open (later r st) on = Step-open st (Reach-open r) on

  Step-on : {n : ℕ} {p q : Pool T} → Step n p q → q.stop ≡ false → p.stop ≡ false
  Step-on (store_stop s) f = s
  Step-on st f = f

  Reach-Enough : {n : ℕ} {p : Pool T} → Reach n p → p.stop ≡ false → Enough n p
  Reach-Enough start on = λ j lt f. cc
  Reach-Enough (later r st) on =
      Step-Enough (Reach-Inv r) (Reach-open r) st (Reach-Enough r (Step-on st on)) on

  -- No wakeup of `addtask` is lost: before `stop`, with every `notify_one` made, if a worker sleeps, then
  -- at least as many workers are on the way to the queue as tasks wait in it: none of these is in a
  -- task, blocked or about to block.
  pub no_wakeup_lost :
      {n : ℕ} {p : Pool T}
      → Reach n p
      → p.stop ≡ false
      → p.to_notify ≡ 0
      → (i : ℕ) → i < n
      → p.pc i ≡ sleeping
      → length p.taskqueue ≤ coming n p.pc
  no_wakeup_lost r on made i lt asleep = omega (arith, Reach-Enough r on i lt asleep)
