-- ===== src/EchoServer/Program/Tests.antt =====
-- `./Server "" 9090` on a system that refuses nothing.
use net_module.Base.{ℕ, ◌≡◌, refl, List, [], ◌∷◌, Option, none, some, length}
use net_module.Base.Text.{atoi}
use net_module.Channel
use net_module.Channel.{setread_callback}
use net_module.Epoller
use net_module.Epoller.{update_channel, enable_reading}
use net_module.EventLoop
use net_module.EventLoop.{createtimerfd}
use net_module.Socket.{getfd}
use net_module.TcpServer
use net_module.TcpServer.{
  TcpServer, new_loop, new_subloops, setnewconnectioncb, setcloseconnectioncb, seterrorconnectioncb,
  setonmessagecb, setsendcompletecb,
}
use net_module.TcpServer.Tests.{booted, value_or, service}
use net_module.EchoServer.Program.{EchoServer, make, boot, Booted, boot-Booted}
use net_module.Simulation.{World, epoll, makes, timers, sockets, inet}

abbrev argv : List (List ℕ)
argv = [] ∷ [] ∷ (57 ∷ 48 ∷ 57 ∷ 48 ∷ []) ∷ []

-- A server to stand for one that was not made.
abbrev pub spare : EchoServer
spare = record {
  tcpserver = record {
    mainloop = service.server.mainloop;
    acceptor = service.server.acceptor;
    to_run = [];
    thread_num = 3;
    subloops = service.server.subloops;
    conns = [];
    closecallback = none;
    errorcallback = none;
    onmessagecallback = none;
    sendcompletecallback = none;
    newconnectioncb = none;
    removeconnectioncb = none;
    timeoutcb = none;
  };
  workers = 0;
}

abbrev or_spare : Option EchoServer → EchoServer
or_spare none = spare
or_spare (some e) = e

abbrev result : Option EchoServer × World
result = value_or (none, booted) (boot makes epoll timers (sockets 6) inet argv booted 0)

boot-Booted_example :
    Booted makes epoll timers (sockets 6) inet (or_spare result.0) × (length argv ≡ 3)
unfolding boot make atoi setnewconnectioncb setcloseconnectioncb seterrorconnectioncb setonmessagecb
    setsendcompletecb TcpServer.make new_loop new_subloops Epoller.create EventLoop.make
    createtimerfd setread_callback enable_reading update_channel Channel.with_reading
    net_module.Acceptor.make net_module.Socket.create_nonblocking net_module.Socket.bind
    net_module.Socket.listen net_module.Socket.setkeepalive net_module.Socket.setreuseport
    net_module.Socket.settcpnodelay net_module.Socket.setreuseaddr
    EventLoop.set_epoll_timeout_callback getfd
boot-Booted_example =
    boot-Booted makes epoll timers (sockets 6) inet argv booted result.1 0 (or_spare result.0) refl
