-- ===== src/EventLoop/Timer/Idle.antt =====
-- The search for idle connections: harmless while there are none, undefined as soon as there is one.
use net_module.Base.{
  ℕ, suc, ◌+◌, ◌≡◌, refl, sym, ap, ◌∙◌, true, false, List, [], ◌∷◌, ◌++◌, some, Result, ok, err,
  undefined, ◌==◌, length, length-append, arith, All, All-append_right, append_assoc, append-nil,
}
use mathlib.Core.Path.{subst, ap₂}
use net_module.Base.IntMap.{lookup, erase}
use net_module.System.{TimerApi}
use net_module.Connection.{Connection, timeout}
use net_module.EventLoop.{EventLoop}
use net_module.EventLoop.Timer.{first_key, next_key, visit, scan, handletimer}

module _ {V : Type 0} where
  abbrev pub IsAbsent : ℕ → List (ℕ × V) → Type 0
  IsAbsent k m = All (λ (e : ℕ × V). (e.0 == k) ≡ false) m

  -- No key has two entries.
  abbrev pub IsDistinct : List (ℕ × V) → Type 0
  IsDistinct [] = Unit
  IsDistinct ((k, v) ∷ m) = All (λ (e : ℕ × V). (k == e.0) ≡ false) m × IsDistinct m

  distinct-IsAbsent :
      (k : ℕ) (v : V) (front back : List (ℕ × V))
      → IsDistinct (front ++ (k, v) ∷ back)
      → IsAbsent k front
  distinct-IsAbsent k v [] back d = tt
  distinct-IsAbsent k v ((j, w) ∷ front) back d = (
    (All-append_right (λ (e : ℕ × V). (j == e.0) ≡ false) front ((k, v) ∷ back) d.0).0,
    distinct-IsAbsent k v front back d.1,
  )

  lookup_here :
      (k : ℕ) (v : V) (front back : List (ℕ × V))
      → IsAbsent k front
      → lookup k (front ++ (k, v) ∷ back) ≡ some v
  unfolding lookup
  lookup_here k v [] back d = ground arith
  lookup_here k v ((j, w) ∷ front) back (n, d) = rw (n) (lookup_here k v front back d)

  next_here :
      (k : ℕ) (v : V) (front back : List (ℕ × V))
      → IsAbsent k front
      → next_key k (front ++ (k, v) ∷ back) ≡ ok (first_key back)
  unfolding next_key
  next_here k v [] back d = ground arith
  next_here k v ((j, w) ∷ front) back (n, d) = rw (n) (next_here k v front back d)

  next_erased : (k : ℕ) (m : List (ℕ × V)) → next_key k (erase k m) ≡ err undefined
  unfolding next_key erase
  next_erased k [] = refl
  next_erased k ((j, w) ∷ m) = ground (arith, next_erased k m)

module _ {S K T C U : Type 0} (timers : TimerApi S) (memory : ℕ → Connection C)
    (on_timer : K → ℕ → U → Result U) where
  -- The entries whose connection is not idle too long.
  abbrev pub IsFresh : ℕ → EventLoop K T → List (ℕ × ℕ) → Type 0
  IsFresh now l m = All (λ (e : ℕ × ℕ). timeout (memory e.1) now l.timeout ≡ false) m

  visit_fresh :
      (now k a : ℕ) (l : EventLoop K T) (u : U)
      → timeout (memory a) now l.timeout ≡ false
      → visit timers memory on_timer now k a l u ≡ ok (l, u)
  unfolding visit
  visit_fresh now k a l u fresh = rw fresh

  -- Entries that are not idle are passed over.
  scan_fresh :
      (now fuel : ℕ) (front middle back : List (ℕ × ℕ)) (l : EventLoop K T) (u : U)
      → l.conns ≡ front ++ (middle ++ back)
      → IsDistinct l.conns
      → IsFresh now l middle
      → scan timers memory on_timer now (length middle + fuel) (first_key (middle ++ back)) l u
        ≡ scan timers memory on_timer now fuel (first_key back) l u
  unfolding scan
  scan_fresh now fuel front [] back l u e d f =
      let none_more : 0 + fuel ≡ fuel = omega arith in rw none_more refl
  scan_fresh now fuel front ((k, a) ∷ middle) back l u e d (fresh, f) =
      let absent = distinct-IsAbsent k a front (middle ++ back) (subst IsDistinct e d) in
      let here : lookup k l.conns ≡ some a =
        ap (lookup k) e ∙ lookup_here k a front (middle ++ back) absent in
      let after : next_key k l.conns ≡ ok (first_key (middle ++ back)) =
        ap (next_key k) e ∙ next_here k a front (middle ++ back) absent in
      let one_more : length ((k, a) ∷ middle) + fuel ≡ suc (length middle + fuel) = omega arith in
      rw (one_more, here, visit_fresh now k a l u fresh, after)
        (scan_fresh now fuel (front ++ (k, a) ∷ []) middle back l u
          (e ∙ sym (append_assoc front ((k, a) ∷ []) (middle ++ back))) d f)

  visit_idle :
      (now k a : ℕ) (l : EventLoop K T) (u u' : U) (c : K)
      → timeout (memory a) now l.timeout ≡ true
      → l.timer_callback ≡ some c
      → on_timer c k u ≡ ok u'
      → visit timers memory on_timer now k a l u ≡ ok (record l { conns = erase k l.conns }, u')
  unfolding visit
  visit_idle now k a l u u' c idle set run = rw (idle, set, run)

  -- The first idle entry is erased and reported, and then the iterator on it is advanced.
  scan_idle :
      (now fuel k a : ℕ) (front back : List (ℕ × ℕ)) (l : EventLoop K T) (u u' : U) (c : K)
      → l.conns ≡ front ++ (k, a) ∷ back
      → IsDistinct l.conns
      → timeout (memory a) now l.timeout ≡ true
      → l.timer_callback ≡ some c
      → on_timer c k u ≡ ok u'
      → scan timers memory on_timer now (suc fuel) (some k) l u ≡ err undefined
  unfolding scan
  scan_idle now fuel k a front back l u u' c e d idle set run =
      let absent = distinct-IsAbsent k a front back (subst IsDistinct e d) in
      let here : lookup k l.conns ≡ some a = ap (lookup k) e ∙ lookup_here k a front back absent in
      rw (here, visit_idle now k a l u u' c idle set run, next_erased k l.conns)

  -- While no connection has been silent for too long, `handletimer` only sets the timer again, and so
  -- it does in the main loop. When one has, it erases the entry that the iterator of its range-for
  -- stands on, and the loop cannot go on: undefined behaviour, with the callback set and returning.
  pub handletimer_cases :
      (s : S) (l : EventLoop K T) (u : U)
      → IsDistinct l.conns
      → let set = timers.timerfd_settime s l.timerfd l.timetvl in
        let now = (timers.time set).0 in
        (l.mainloop ≡ true → handletimer timers memory on_timer s l u ≡ ok (set, l, u))
        × (l.mainloop ≡ false
            → IsFresh now l l.conns
            → handletimer timers memory on_timer s l u ≡ ok ((timers.time set).1, l, u))
        × ((front back : List (ℕ × ℕ)) (k a : ℕ) (u' : U) (c : K)
            → l.mainloop ≡ false
            → l.conns ≡ front ++ (k, a) ∷ back
            → IsFresh now l front
            → timeout (memory a) now l.timeout ≡ true
            → l.timer_callback ≡ some c
            → on_timer c k u ≡ ok u'
            → handletimer timers memory on_timer s l u ≡ err undefined)
  unfolding handletimer scan
  handletimer_cases s l u d = (
    λ main. rw main,
    λ sub fresh. simp (sub, through l.conns [] 0 (omega arith) (sym (append-nil l.conns)) fresh),
    λ front back k a u' c sub e fresh idle set run. simp (
      sub,
      through front ((k, a) ∷ back) (suc (length back))
          (ap length e ∙ length-append front ((k, a) ∷ back)) e fresh,
      scan_idle (timers.time (timers.timerfd_settime s l.timerfd l.timetvl)).0 (length back) k a
          front back l u u' c e d idle set run,
    ),
  )
    where
      now : ℕ
      now = (timers.time (timers.timerfd_settime s l.timerfd l.timetvl)).0

      through :
          (middle back : List (ℕ × ℕ)) (n : ℕ)
          → length l.conns ≡ length middle + n
          → l.conns ≡ middle ++ back
          → IsFresh now l middle
          → scan timers memory on_timer now (length l.conns) (first_key l.conns) l u
            ≡ scan timers memory on_timer now n (first_key back) l u
      through middle back n count e fresh =
          ap₂ (λ (f : ℕ) (m : List (ℕ × ℕ)). scan timers memory on_timer now f (first_key m) l u)
            count e
          ∙ scan_fresh now n [] middle back l u e d fresh
