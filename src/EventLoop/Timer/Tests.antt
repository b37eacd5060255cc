-- ===== src/EventLoop/Timer/Tests.antt =====
-- A loop with a busy and a silent connection.
use net_module.Base.{
  ℕ, ◌*◌, ◌==◌, if◌then◌else◌, ◌≡◌, refl, true, false, List, [], ◌∷◌, ◌++◌, none, some, Result, ok,
  err, undefined,
}
use net_module.System.{TimerApi}
use net_module.Channel
use net_module.Buffer.{make}
use net_module.Timestamp.{to_int}
use net_module.Connection.{Connection, timeout}
use net_module.EventLoop.{EventLoop}
use net_module.EventLoop.Timer.{handletimer}
use net_module.EventLoop.Timer.Idle.{IsFresh, handletimer_cases}

-- The state of the system is the time in seconds.
abbrev timers : TimerApi ℕ
timers = record {
  eventfd = λ s. (4, s);
  timerfd_create = λ s. (5, s);
  timerfd_settime = λ s fd sec. s;
  time = λ s. (s, s);
}

abbrev connection : ℕ → ℕ → Connection ℕ
connection fd seconds = record {
  client_sock = record { fd = fd; ip = []; port = 4000 };
  client_channel = Channel.make 64 9 fd;
  input_buffer = make 1;
  output_buffer = make 1;
  dis_connect = false;
  closecallback = none;
  errorcallback = none;
  onmessagecallback = none;
  sendcompletecallback = none;
  last_time = record { ticks = seconds * 1_000_000_000 };
}

-- The one at address 1 was last heard 3 seconds ago, the other 50.
abbrev memory : ℕ → Connection ℕ
memory address = if address == 1 then connection 7 97 else connection 8 50

abbrev subloop : EventLoop ℕ ℕ
subloop = record {
  timetvl = 5;
  timeout = 10;
  epoll_timeout_callback = none;
  timer_callback = some 3;
  tasks = record { task_queue = []; counter = 0 };
  conns = (7, 1) ∷ (8, 2) ∷ [];
  wakeupfd = 4;
  wake_channel = Channel.make 16 9 4;
  timerfd = 5;
  time_channel = Channel.make 17 9 5;
  mainloop = false;
  stopped = false;
}

abbrev report : ℕ → ℕ → List ℕ → Result (List ℕ)
report c fd fds = ok (fds ++ fd ∷ [])

handletimer_cases_example :
    (false ≡ true → handletimer timers memory report 100 subloop [] ≡ ok (100, subloop, []))
    × (false ≡ false
        → IsFresh timers memory report 100 subloop subloop.conns
        → handletimer timers memory report 100 subloop [] ≡ ok (100, subloop, []))
    × ((front back : List (ℕ × ℕ)) (k a : ℕ) (u' : List ℕ) (c : ℕ)
        → false ≡ false
        → subloop.conns ≡ front ++ (k, a) ∷ back
        → IsFresh timers memory report 100 subloop front
        → timeout (memory a) 100 10 ≡ true
        → some 3 ≡ some c
        → report c k [] ≡ ok u'
        → handletimer timers memory report 100 subloop [] ≡ err undefined)
handletimer_cases_example =
    handletimer_cases timers memory report 100 subloop [] ((refl, tt), (tt, tt))

-- The third part at the silent connection.
silent : handletimer timers memory report 100 subloop [] ≡ err undefined
unfolding timeout to_int
silent =
    (handletimer_cases timers memory report 100 subloop [] ((refl, tt), (tt, tt))).2 ((7, 1) ∷ [])
      [] 8 2 (8 ∷ []) 3 refl refl (refl, tt) refl refl refl
