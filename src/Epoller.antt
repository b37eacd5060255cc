-- ===== src/Epoller.antt =====
-- include/Epoller.h and src/Epoller.cpp, and the calls of Channel.cpp that reach it through the
-- event loop: putting a channel into its epoll instance, changing it there, taking it out.
pub mod Sync
pub mod Unordered
pub mod Wait
mod Tests
use net_module.Base.{
  ℕ, ◌≡◌, true, false, List, [], ◌∷◌, Option, none, some, Result, ok, err, exit_process, undefined,
  ◌>>=◌, if◌then◌else◌, ◌==◌,
}
use net_module.Base.Word.{minus_one}
use net_module.System.{WaitApi, MakeApi, EpollApi, EpollEvent, add, modify, delete}
use net_module.Channel.{
  Channel, getevents, getfd, getinepoll, setinepoll, setrevents, with_reading, without_reading,
  with_writing, without_writing, without_all,
}
use net_module.Base.IntMap.{lookup, insert}

-- A failed `epoll_ctl` ends the process.
abbrev pub or_exit {ℓ} : {A : Type ℓ} → Option A → Result A
or_exit none = err exit_process
or_exit (some a) = ok a

-- `Epoller::Epoller`.
unfoldable pub create : {S : Type 0} → MakeApi S → S → Result (ℕ × S)
create makes s =
    let (epollfd, s') = makes.epoll_create s in
    if epollfd == minus_one then err exit_process else ok (epollfd, s')

module _ {S H : Type 0} (api : EpollApi S) where
  abbrev pub event_of : Channel H → EpollEvent
  event_of ch = record { events = ch.events; ptr = ch.self }

  -- `Epoller::updateChannel` on a channel.
  unfoldable pub update_channel : S → Channel H → Result (Channel H × S)
  unfolding getevents getfd getinepoll setinepoll
  update_channel s ch =
      if getinepoll ch
      then (do t ← or_exit (api.ctl s ch.epollfd modify (getfd ch) (event_of ch)); ok (ch, t))
      else do
        t ← or_exit (api.ctl s ch.epollfd add (getfd ch) (event_of ch))
        ok (setinepoll ch true, t)

  -- The null test in front of it: nothing happens.
  unfoldable pub update_channel_ptr : S → Option (Channel H) → Result (Option (Channel H) × S)
  update_channel_ptr s none = ok (none, s)
  update_channel_ptr s (some ch) = do (ch', t) ← update_channel s ch; ok (some ch', t)

  -- `Epoller::removeChannel`; the event of DEL is ignored by the kernel, and NULL in the source.
  unfoldable pub remove_channel : S → Channel H → Result (Channel H × S)
  unfolding getfd getinepoll setinepoll
  remove_channel s ch =
      if getinepoll ch
      then (do
        t ← or_exit (api.ctl s ch.epollfd delete (getfd ch) (record { events = 0; ptr = 0 }))
        ok (setinepoll ch false, t))
      else ok (ch, s)

  unfoldable pub enable_reading : S → Channel H → Result (Channel H × S)
  enable_reading s ch = update_channel s (with_reading ch)

  unfoldable pub disable_reading : S → Channel H → Result (Channel H × S)
  disable_reading s ch = update_channel s (without_reading ch)

  unfoldable pub enable_writing : S → Channel H → Result (Channel H × S)
  enable_writing s ch = update_channel s (with_writing ch)

  unfoldable pub disable_writing : S → Channel H → Result (Channel H × S)
  disable_writing s ch = update_channel s (without_writing ch)

  unfoldable pub disable_all : S → Channel H → Result (Channel H × S)
  disable_all s ch = update_channel s (without_all ch)

-- The most events that one `epoll_wait` returns.
abbrev pub max_events : ℕ
max_events = 100

-- What `epoll_wait` returns: -1, or the events it wrote, none of them on a timeout.
pub data WaitAnswer : Type 0 where
  failed : WaitAnswer
  occurred : List EpollEvent → WaitAnswer

abbrev pub answer_of : Option (List EpollEvent) → WaitAnswer
answer_of none = failed
answer_of (some events) = occurred events

module _ {H : Type 0} where
  -- The loop over the events: each pointer must lead to a live channel, whose `revents_` is set.
  unfoldable pub mark_events :
      List EpollEvent → List (ℕ × Channel H) → Result (List ℕ × List (ℕ × Channel H))
  unfolding setrevents
  mark_events [] channels = ok ([], channels)
  mark_events (e ∷ es) channels = elim (lookup e.ptr channels) [
    | none ↦ err undefined
    | some ch ↦ (do
      (ptrs, channels') ← mark_events es (insert e.ptr (setrevents ch e.events) channels)
      ok (e.ptr ∷ ptrs, channels'))
  ]

  -- `Epoller::loop`: the addresses of the channels with events, over the channels in memory.
  unfoldable pub loop : WaitAnswer → List (ℕ × Channel H) → Result (List ℕ × List (ℕ × Channel H))
  loop failed channels = err exit_process
  loop (occurred es) channels = mark_events es channels

  -- The same with its call of `epoll_wait` on the descriptor, and the timeout that is passed on.
  unfoldable pub poll :
      {S : Type 0}
      → WaitApi S
      → S
      → ℕ
      → ℕ
      → List (ℕ × Channel H)
      → Result (List ℕ × List (ℕ × Channel H) × S)
  poll api s epollfd timeout channels = do
    let (events, t) = api.epoll_wait s epollfd max_events timeout
    (active, channels') ← loop (answer_of events) channels
    ok (active, channels', t)
