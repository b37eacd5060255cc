-- ===== src/ThreadPool/Shutdown.antt =====
-- `ThreadPool::stop`, lines 54 to 61 of ThreadPool.cpp: two runs that the comments of the source do not
-- foresee.
use net_module.Base.{
  ℕ, ◌<◌, ◌≡◌, refl, ap, inr, true, false, List, [], ◌∷◌, ◌++◌, none, arith, ℕ_discrete,
  append_assoc, append-nil,
}
use net_module.ThreadPool.{
  Pc, sleeping, running, joining, joined, Pool, update, Step, enter, leave, acquire, ready, unready,
  block, spurious, reacquire, quit, take_task, finish, addtask, notify_one, notify_nobody,
  store_stop, notify_all, join, Reach, start, later,
}

module _ {T : Type 0} where
  update_self : (pc : ℕ → Pc T) (i : ℕ) (c : Pc T) → update pc i c i ≡ c
  update_self pc i c = ground arith

  -- A step that is neither a spurious wakeup nor a new task.
  abbrev pub IsQuiet : {n : ℕ} {p q : Pool T} → Step n p q → Type 0
  IsQuiet (spurious i lt e) = ⊥
  IsQuiet (addtask task m) = ⊥
  IsQuiet _ = Unit

  pub data QuietRun (n : ℕ) (p : Pool T) : Pool T → Type 0 where
    here : QuietRun n p p
    on : {q r : Pool T} → QuietRun n p q → (st : Step n q r) → IsQuiet st → QuietRun n p r

  -- `stop` waits for a worker that nobody will wake.
  record Hangs (i : ℕ) (p : Pool T) : Type 0 where
    asleep : p.pc i ≡ sleeping
    waits : p.phase ≡ joining
    stopped : p.stop ≡ true
    quiet : p.to_notify ≡ 0

  -- Only a notification or a spurious wakeup takes a worker out of its sleep.
  stays_asleep :
      {n i : ℕ} {p q : Pool T}
      → (st : Step n p q) → IsQuiet st
      → p.to_notify ≡ 0
      → p.phase ≡ joining
      → p.pc i ≡ sleeping
      → q.pc i ≡ sleeping
  stays_asleep (enter j l e s) k z f h = ground arith
  stays_asleep (leave j l e s) k z f h = ground arith
  stays_asleep (acquire j l e m) k z f h = ground arith
  stays_asleep (ready j l e c) k z f h = ground arith
  stays_asleep (unready j l e s c) k z f h = ground arith
  stays_asleep (block j l e) k z f h = ground arith
  stays_asleep (spurious j l e) k z f h = absurd k
  stays_asleep (reacquire j l e m) k z f h = ground arith
  stays_asleep (quit j l e s c) k z f h = ground arith
  stays_asleep (take_task j task rest l e c) k z f h = ground arith
  stays_asleep (finish j task l e) k z f h = ground arith
  stays_asleep (addtask task m) k z f h = absurd k
  stays_asleep (notify_one w j c l e) k z f h = absurd (omega arith)
  stays_asleep (notify_nobody w c none_sleeps) k z f h = h
  stays_asleep (store_stop s) k z f h = h
  stays_asleep (notify_all g) k z f h = cc
  stays_asleep (join g all) k z f h = h

  Step-Hangs :
      {n i : ℕ} {p q : Pool T} → i < n → (st : Step n p q) → IsQuiet st → Hangs i p → Hangs i q
  Step-Hangs lt (spurious j l e) k h = absurd k
  Step-Hangs lt (addtask task m) k h = absurd k
  Step-Hangs lt (notify_one w j c l e) k h = absurd (omega (arith, h.quiet))
  Step-Hangs lt (notify_nobody w c none_sleeps) k h = absurd (omega (arith, h.quiet))
  Step-Hangs lt (store_stop s) k h = absurd (cc (h.stopped))
  Step-Hangs lt (notify_all f) k h = absurd (cc (h.waits))
  Step-Hangs {i} lt (join f all) k h = absurd (cc (all i lt, h.asleep))
  Step-Hangs lt st k h = record {
    asleep = stays_asleep st k h.quiet h.waits h.asleep;
    waits = h.waits;
    stopped = h.stopped;
    quiet = h.quiet;
  }

  QuietRun-Hangs : {n i : ℕ} {p q : Pool T} → i < n → QuietRun n p q → Hangs i p → Hangs i q
  QuietRun-Hangs lt here h = h
  QuietRun-Hangs lt (on r st k) h = Step-Hangs lt st k (QuietRun-Hangs lt r h)

  -- The join of `stop` hangs: a worker that found the queue empty, and had not yet blocked when
  -- `stop` stored its flag and notified, sleeps on, and the pool never gets further without a spurious
  -- wakeup or another task.
  pub stop_lost_wakeup :
      (n i : ℕ)
      → i < n
      → (p : Pool T) × Reach n p
        × (p.stop ≡ true)
        × ((q : Pool T) → QuietRun n p q → (q.pc i ≡ sleeping) × (q.phase ≡ joining))
  stop_lost_wakeup n i lt = (
    _,
    later
        (later
          (later
            (later (later (later start (enter i lt refl refl)) (acquire i lt (ground arith) refl))
              (unready i lt (ground arith) refl refl))
            (store_stop refl))
          (notify_all refl))
        (block i lt (ground arith)),
    refl,
    λ q run.
        let h =
          QuietRun-Hangs lt run
            (record { asleep = ground arith; waits = refl; stopped = refl; quiet = refl }) in
        (h.asleep, h.waits),
  )

  -- Tasks that are added while the only worker runs one.
  record Busy (task : T) (waiting : List T) (p : Pool T) : Type 0 where
    reached : Reach 1 p
    at_work : p.pc 0 ≡ running task
    free : p.mutex ≡ none
    not_stopped : p.stop ≡ false
    queued : p.taskqueue ≡ waiting
    begun : p.started ≡ task ∷ []

  add_all :
      (task : T) (more waiting : List T) (p : Pool T)
      → Busy task waiting p
      → (q : Pool T) × Busy task (waiting ++ more) q
  add_all task [] waiting p b = (p, rw (append-nil waiting) b)
  add_all task (t ∷ more) waiting p b =
      let (q, c) = add_all task more (waiting ++ t ∷ []) _ (record {
        reached = later b.reached (addtask t b.free);
        at_work = b.at_work;
        free = b.free;
        not_stopped = b.not_stopped;
        queued = ap (λ l. l ++ t ∷ []) b.queued;
        begun = b.begun;
      }) in
      (q, rw (← append_assoc waiting (t ∷ []) more) c)

  busy : (task : T) → (p : Pool T) × Busy task [] p
  unfolding ℕ_discrete
  busy task = (
    _,
    record {
      reached =
          later
            (later
              (later (later (later start (addtask task refl)) (enter 0 (omega arith) refl refl))
                (acquire 0 (omega arith) refl refl))
              (ready 0 (omega arith) refl (inr (λ e. cc))))
            (take_task 0 task [] (omega arith) refl refl);
      at_work = refl;
      free = refl;
      not_stopped = refl;
      queued = refl;
      begun = refl;
    },
  )

  -- `stop` lets tasks go unserved: whatever tasks wait while the worker of a pool of one runs its
  -- first, `stop` returns with all of them still in the queue and only the first one started.
  pub stop_drops_tasks :
      (task : T) (waiting : List T)
      → (p : Pool T) × Reach 1 p
        × (p.phase ≡ joined)
        × (p.taskqueue ≡ waiting)
        × (p.started ≡ task ∷ [])
  stop_drops_tasks task waiting =
      let (p₀, b₀) = busy task in
      let (p, b) = add_all task waiting [] p₀ b₀ in
      (
        _,
        later
            (later
              (later (later (later b.reached (store_stop b.not_stopped)) (notify_all refl))
                (finish 0 task (omega arith) (rw b.at_work)))
              (leave 0 (omega arith) (ground arith) refl))
            (join refl (λ j lt. ground arith)),
        refl,
        b.queued,
        b.begun,
      )
