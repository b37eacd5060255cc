-- ===== src/EventLoop/Run.antt =====
-- `EventLoop::run` (src/EventLoop.cpp, lines 77 to 91), over what the calls of `epoll_wait` return.
pub mod Passes
mod Tests
use net_module.Base.{
  ℕ, ◌≡◌, Bool, List, [], ◌∷◌, Option, none, some, Result, ok, err, undefined, waiting, ◌>>=◌,
  if◌then◌else◌,
}
use net_module.Base.IntMap.{lookup}
use net_module.Channel.{Channel, call, handle_event}
use net_module.Epoller.{WaitAnswer, loop}

-- What the loop's thread sees: the channels in memory by their addresses, `stop_`,
-- `epollTimeoutCallback_`, and all else.
pub record Running (H K X : Type 0) : Type 0 where
  pub channels : List (ℕ × Channel H)
  pub stopped : Bool
  pub epoll_timeout_callback : Option K
  pub others : X

-- `handle` is what the callbacks of channels do, `on_timeout` what the callback for timeouts does.
module _ {H K X : Type 0} (handle : H → Running H K X → Result (Running H K X))
    (on_timeout : K → Running H K X → Result (Running H K X)) where
  -- `ch->handleEvent()`, for a pointer that must still lead to a channel.
  unfoldable pub handle_at : ℕ → Running H K X → Result (Running H K X)
  handle_at address r = elim (lookup address r.channels) [
    | none ↦ err undefined
    | some ch ↦ (do h ← handle_event ch; handle h r)
  ]

  unfoldable pub handle_all : List ℕ → Running H K X → Result (Running H K X)
  handle_all [] r = ok r
  handle_all (address ∷ rest) r = handle_at address r >>= handle_all rest

  -- What one pass does with the channels that `Epoller::loop` returned.
  unfoldable pub pass : List ℕ → Running H K X → Result (Running H K X)
  pass [] r = do c ← call r.epoll_timeout_callback; on_timeout c r
  pass (address ∷ rest) r = handle_all (address ∷ rest) r

  unfoldable pub run : List WaitAnswer → Running H K X → Result (Running H K X)
  run [] r = if r.stopped then ok r else err waiting
  run (answer ∷ answers) r = if r.stopped then ok r else do
    (active, channels) ← loop answer r.channels
    r' ← pass active (record r { channels = channels })
    run answers r'
