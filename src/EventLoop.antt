-- ===== src/EventLoop.antt =====
-- include/EventLoop.h and src/EventLoop.cpp: an event loop. `K` names the functions that a server binds
-- to it, `T` the functions in its task queue.
pub mod Tasks
pub mod Wakeup
pub mod Timer
pub mod Run
use net_module.Base.{
  ℕ, ◌+◌, ◌≡◌, Bool, true, false, List, [], ◌∷◌, Option, none, some, Result, ok, ◌>>=◌,
}
use net_module.Base.IntMap.{insert}
use net_module.System.{EpollApi, TimerApi, MakeApi}
use net_module.Channel
use net_module.Channel.{Channel, setread_callback}
use net_module.Epoller
use net_module.Epoller.{enable_reading}
use net_module.EventLoop.Tasks.{wakeup}

-- The member functions that a loop binds to its own two channels.
pub data LoopHandler : Type 0 where
  handlewakeup handletimer : LoopHandler

-- `conns_` maps descriptors to the addresses of the shared connections.
pub record EventLoop (K T : Type 0) : Type 0 where
  pub timetvl : ℕ
  pub timeout : ℕ
  pub epoll_timeout_callback : Option K
  pub timer_callback : Option K
  pub tasks : Tasks.Tasks T
  pub conns : List (ℕ × ℕ)
  pub wakeupfd : ℕ
  pub wake_channel : Channel LoopHandler
  pub timerfd : ℕ
  pub time_channel : Channel LoopHandler
  pub mainloop : Bool
  pub stopped : Bool

-- `createtimerfd`: a timer that goes off once, after `sec` seconds.
unfoldable pub createtimerfd : {S : Type 0} → TimerApi S → S → ℕ → ℕ × S
createtimerfd timers s sec =
    let (tfd, s₁) = timers.timerfd_create s in (tfd, timers.timerfd_settime s₁ tfd sec)

-- The constructor; the members come in the order of the class, the epoll instance last.
unfoldable pub make :
    {S K T : Type 0}
    → MakeApi S
    → EpollApi S
    → TimerApi S
    → S
    → Bool
    → ℕ
    → ℕ
    → Result (EventLoop K T × S)
unfolding createtimerfd setread_callback enable_reading
make makes epoll timers s mainloop timetvl timeout = do
  let (wakeupfd, s₁) = timers.eventfd s
  let (wake_address, s₂) = makes.new s₁
  let (timerfd, s₃) = createtimerfd timers s₂ timeout
  let (time_address, s₄) = makes.new s₃
  (epollfd, s₅) ← Epoller.create makes s₄
  let wake = setread_callback (Channel.make wake_address epollfd wakeupfd) handlewakeup
  (wake', s₆) ← enable_reading epoll s₅ wake
  let time = setread_callback (Channel.make time_address epollfd timerfd) handletimer
  (time', s₇) ← enable_reading epoll s₆ time
  ok (
    record {
      timetvl = timetvl;
      timeout = timeout;
      epoll_timeout_callback = none;
      timer_callback = none;
      tasks = record { task_queue = []; counter = 0 };
      conns = [];
      wakeupfd = wakeupfd;
      wake_channel = wake';
      timerfd = timerfd;
      time_channel = time';
      mainloop = mainloop;
      stopped = false;
    },
    s₇,
  )

module _ {K T : Type 0} where
  -- `newconnection`: `conns_[conn->getCfd()] = conn`.
  unfoldable pub newconnection : EventLoop K T → ℕ → ℕ → EventLoop K T
  newconnection l cfd address = record l { conns = insert cfd address l.conns }

  unfoldable pub set_timer_callback : EventLoop K T → K → EventLoop K T
  set_timer_callback l cb = record l { timer_callback = some cb }

  unfoldable pub set_epoll_timeout_callback : EventLoop K T → K → EventLoop K T
  set_epoll_timeout_callback l cb = record l { epoll_timeout_callback = some cb }

  unfoldable pub stop : EventLoop K T → EventLoop K T
  unfolding wakeup
  stop l = record l { stopped = true; tasks = wakeup l.tasks }
