-- ===== src/EventLoop/Timer.antt =====
-- `EventLoop::handletimer` (src/EventLoop.cpp, lines 95 to 116): the search for idle connections. An
-- iterator of `conns_` is the key of its entry, and `end()` is `none`.
pub mod Idle
mod Tests
use net_module.Base.{
  ℕ, zero, suc, ◌≡◌, List, [], ◌∷◌, Option, none, some, Result, ok, err, undefined, waiting, ◌>>=◌,
  ◌==◌, if◌then◌else◌, length,
}
use net_module.Base.IntMap.{lookup, erase}
use net_module.System.{TimerApi}
use net_module.Channel.{call}
use net_module.Connection.{Connection, timeout}
use net_module.EventLoop.{EventLoop}

module _ {V : Type 0} where
  -- `begin()`.
  abbrev pub first_key : List (ℕ × V) → Option ℕ
  first_key [] = none
  first_key ((k, v) ∷ m) = some k

  -- `++it`: an iterator whose entry has been erased is invalid.
  unfoldable pub next_key : ℕ → List (ℕ × V) → Result (Option ℕ)
  next_key k [] = err undefined
  next_key k ((j, v) ∷ m) = let later = next_key k m in if j == k then ok (first_key m) else later

  -- `*it`.
  abbrev pub entry_of : Option V → Result V
  entry_of none = err undefined
  entry_of (some v) = ok v

-- `memory` holds the connections at their addresses, `on_timer` is what the timer callback does.
module _ {S K T C U : Type 0} (timers : TimerApi S) (memory : ℕ → Connection C)
    (on_timer : K → ℕ → U → Result U) where
  -- The body of the loop, for one entry.
  unfoldable pub visit : ℕ → ℕ → ℕ → EventLoop K T → U → Result (EventLoop K T × U)
  visit now fd address l u =
      if timeout (memory address) now l.timeout
      then (do
        let l' = record l { conns = erase fd l.conns }
        c ← call l'.timer_callback
        u' ← on_timer c fd u
        ok (l', u'))
      else ok (l, u)

  -- `for (auto conn : conns_)`, from an iterator on.
  unfoldable pub scan : ℕ → ℕ → Option ℕ → EventLoop K T → U → Result (EventLoop K T × U)
  scan now fuel none l u = ok (l, u)
  scan now zero (some fd) l u = err waiting
  scan now (suc fuel) (some fd) l u = do
    address ← entry_of (lookup fd l.conns)
    (l', u') ← visit now fd address l u
    it ← next_key fd l'.conns
    scan now fuel it l' u'

  unfoldable pub handletimer : S → EventLoop K T → U → Result (S × EventLoop K T × U)
  handletimer s l u =
      let s' = timers.timerfd_settime s l.timerfd l.timetvl in
      if l.mainloop then ok (s', l, u) else do
        let (now, s'') = timers.time s'
        (l', u') ← scan now (length l.conns) (first_key l.conns) l u
        ok (s'', l', u')
