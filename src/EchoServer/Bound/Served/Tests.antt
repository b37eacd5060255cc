-- ===== src/EchoServer/Bound/Served/Tests.antt =====
-- Two messages through a server with three loops, in which another connection is open.
use net_module.Base.{◌≡◌, refl, [], ◌∷◌, ◌++◌, some, ok, arith}
use net_module.Buffer.{make, append_sep}
use net_module.Connection.{Connection}
use net_module.Connection.Receive.{with_input}
use net_module.Connection.Receive.Stream.{read_events}
use net_module.TcpServer.{ServerHandler, close_bound, error_bound, message_bound, complete_bound}
use net_module.TcpServer.Binding.{Outer}
use net_module.EchoServer.{Backlog}
use net_module.EchoServer.Tests
use net_module.EchoServer.Tests.{clock_keeps, half, other_half, events, events-Bursts, no_stale}
use net_module.EchoServer.Program.{EchoHandler, handle_message, handle_close}
use net_module.EchoServer.Program.Tests.{spare}
use net_module.EchoServer.Bound.{Inner, echo_callbacks, within}
use net_module.EchoServer.Bound.Served.{Ready, server_echoes}
use net_module.Simulation.{World, epoll, epoll_laws, clock_api, open_sender}

-- The connection on descriptor 7, with the server's functions as callbacks.
abbrev pub conn : Connection ServerHandler
conn = record {
  client_sock = Tests.session.conn.client_sock;
  client_channel = Tests.session.conn.client_channel;
  input_buffer = make 1;
  output_buffer = make 1;
  dis_connect = Tests.session.conn.dis_connect;
  closecallback = some close_bound;
  errorcallback = some error_bound;
  onmessagecallback = some message_bound;
  sendcompletecallback = some complete_bound;
  last_time = Tests.session.conn.last_time;
}

abbrev pub session : Inner World
session = record {
  conn = conn;
  sys = Tests.session.sys;
  user = [];
  tasks = record { task_queue = []; counter = 0 };
}

-- The server's tables, with that connection at address 64 and another one at 66.
abbrev pub outer : Outer Backlog EchoHandler
outer = record {
  server = record (spare.tcpserver) {
    conns = (7, 64) ∷ (8, 66) ∷ [];
    closecallback = some handle_close;
    onmessagecallback = some handle_message;
  };
  memory = (66, conn) ∷ [];
  user = [];
}

pub session-Ready : Ready epoll epoll_laws open_sender clock_api 80 64 clock_keeps session
session-Ready = record { alive = refl; framed = refl; in_step = refl; known = refl; set = refl }

two_served :
    (t : Inner World) × (read_events epoll clock_api
        (echo_callbacks epoll open_sender clock_api 80 64)
        no_stale
        9
        events
        (with_input (make 1) (within 64 outer session))
      ≡ ok (with_input (make 1) (within 64 outer t)))
    × (t.conn.output_buffer.buf ≡ half ++ (other_half ++ []))
    × Ready epoll epoll_laws open_sender clock_api 80 64 clock_keeps t
unfolding append_sep
two_served =
    server_echoes epoll epoll_laws open_sender clock_api 80 64 clock_keeps no_stale 9
      (Tests.hello ∷ [] ∷ []) outer session refl (λ s i. omega arith) events-Bursts (omega arith)
      (omega arith) refl session-Ready
