-- ===== src/TcpServer/Tests.antt =====
-- A server with three loops in the simulated system.
use net_module.Base.{
  ℕ, ◌+◌, ◌≡◌, refl, false, [], ◌∷◌, none, some, Result, ok, err, undefined, arith,
}
use net_module.Socket.{Socket, getfd}
use net_module.Channel
use net_module.Buffer
use net_module.Connection
use net_module.Connection.{Connection, get_cfd}
use net_module.EventLoop.{EventLoop}
use net_module.TcpServer.{
  ServerHandler, newconnection_bound, UserCall, Service, newconnection, descriptor_first, TcpServer,
  make, new_loop, new_subloops,
}
use net_module.TcpServer.Making.{Ready, make-Ready}
use net_module.Epoller
use net_module.Epoller.{enable_reading, update_channel}
use net_module.Channel.{setread_callback}
use net_module.EventLoop
use net_module.EventLoop.{createtimerfd}
use net_module.TcpServer.Joining.{accept_refused_undefined}
use net_module.TcpServer.Leaving.{IsAloof}
use net_module.Simulation.{World, quiet_world, epoll, clock_api, sockets, inet, makes, timers}
use net_module.Acceptor.{Acceptor, new_connection}
use net_module.InetAddress.{of_ip_port}

-- A loop on an epoll instance of its own.
abbrev loop_on : ℕ → EventLoop ServerHandler ℕ
loop_on epollfd = record {
  timetvl = 5;
  timeout = 10;
  epoll_timeout_callback = none;
  timer_callback = none;
  tasks = record { task_queue = []; counter = 0 };
  conns = [];
  wakeupfd = 4;
  wake_channel = Channel.make 16 epollfd 4;
  timerfd = 5;
  time_channel = Channel.make 17 epollfd 5;
  mainloop = false;
  stopped = false;
}

abbrev pub socket : ℕ → Socket
socket fd = record { fd = fd; ip = []; port = 4000 }

abbrev acceptor : Acceptor ServerHandler
acceptor = record {
  serv_sock = socket 6;
  accept_channel = Channel.make 60 19 6;
  new_conn_cb = some newconnection_bound;
}

abbrev pub Counted : Type 0
Counted = Service World ℕ ℕ

abbrev pub service : Counted
service = record {
  server = record {
    mainloop = loop_on 19;
    acceptor = acceptor;
    to_run = 0 ∷ 1 ∷ 2 ∷ [];
    thread_num = 3;
    subloops = loop_on 20 ∷ loop_on 21 ∷ loop_on 22 ∷ [];
    conns = [];
    closecallback = some 1;
    errorcallback = none;
    onmessagecallback = none;
    sendcompletecallback = none;
    newconnectioncb = some 2;
    removeconnectioncb = none;
    timeoutcb = none;
  };
  memory = [];
  sys = quiet_world;
  user = 0;
}

-- The user counts the calls.
abbrev pub count : ℕ → UserCall → Counted → Result Counted
count cb c v = ok (record v { user = v.user + 1 })

pub count-IsAloof : IsAloof count
count-IsAloof cb c v = (record v { user = v.user + 1 }, refl, refl, refl)

accept_refused_undefined_example :
    new_connection
      (sockets 6)
      inet
      (λ h sock s (w : Counted).
        newconnection count descriptor_first epoll clock_api 64 65 sock (record w { sys = s }))
      quiet_world
      0
      (of_ip_port inet [] 0)
      acceptor
      service
    ≡ err undefined
accept_refused_undefined_example =
    accept_refused_undefined count epoll clock_api (sockets 6) inet 64 65 0 (of_ip_port inet [] 0)
      descriptor_first acceptor newconnection_bound service refl refl (omega arith) (omega arith)
      refl

abbrev pub joined_connection : Connection ServerHandler
joined_connection = record {
  client_sock = socket 7;
  client_channel = Channel.make 65 21 7;
  input_buffer = Buffer.make 1;
  output_buffer = Buffer.make 1;
  dis_connect = false;
  closecallback = none;
  errorcallback = none;
  onmessagecallback = none;
  sendcompletecallback = none;
  last_time = record { ticks = 0 };
}

-- One connection, on loop 1.
abbrev occupied : Counted
occupied = record service {
  server = record (service.server) {
    conns = (7, 64) ∷ [];
    subloops = loop_on 20 ∷ record (loop_on 21) { conns = (7, 64) ∷ [] } ∷ loop_on 22 ∷ [];
  };
  memory = (64, joined_connection) ∷ [];
}

abbrev pub value_or : {A : Type 0} → A → Result A → A
value_or a (ok b) = b
value_or a (err f) = a

-- A new system, in which numbers start at 20.
abbrev pub booted : World
booted = record quiet_world { clock = 20 }

abbrev made : TcpServer ℕ × World
made =
    value_or (service.server, booted) (make makes epoll timers (sockets 6) inet booted 0 [] 9090 3)

booted-Ready : Ready makes epoll timers 3 made.0
unfolding make new_loop new_subloops Epoller.create EventLoop.make createtimerfd setread_callback
    enable_reading update_channel Channel.with_reading net_module.Acceptor.make
    net_module.Socket.create_nonblocking net_module.Socket.bind net_module.Socket.listen
    net_module.Socket.setkeepalive net_module.Socket.setreuseport net_module.Socket.settcpnodelay
    net_module.Socket.setreuseaddr EventLoop.set_epoll_timeout_callback getfd
booted-Ready =
    make-Ready makes epoll timers (sockets 6) inet booted made.1 0 9090 3 [] made.0 refl refl
