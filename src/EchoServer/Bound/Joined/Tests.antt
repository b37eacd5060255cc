-- ===== src/EchoServer/Bound/Joined/Tests.antt =====
-- A client joins a server with three loops on descriptor 7, in loop 1, and sends two messages.
use net_module.Base.{ℕ, List, ◌≡◌, refl, [], ◌∷◌, ◌++◌, some, ok, ◌>>=◌, arith}
use net_module.Buffer.{append_sep}
use net_module.Connection.{Session}
use net_module.Base.Bits.{bit}
use net_module.Connection.{ReadAnswer, bytes, failed, eagain}
use net_module.Connection.Receive.Stream.{drained, more}
use net_module.Connection.Events.Stream.{IsInput, Arrivals, next, none_left, dispatch_events}
use net_module.TcpServer.{Service, newconnection, descriptor_first}
use net_module.TcpServer.Binding.{as_session}
use net_module.EchoServer.{Backlog}
use net_module.EchoServer.Tests.{hello, clock_keeps, half, other_half, no_stale}
use net_module.EchoServer.Program.{EchoHandler, handle_message, handle_new_connection}
use net_module.EchoServer.Program.Tests.{spare}
use net_module.EchoServer.Bound.{Full, user_call, echo_callbacks}
use net_module.EchoServer.Bound.Joined.{Answered, taken_in_echoes}
use net_module.TcpServer.Tests.{socket, value_or}
use net_module.Simulation.{World, quiet_world, epoll, epoll_laws, clock_api, open_sender}

abbrev pub before : Service World Backlog EchoHandler
before = record {
  server = record (spare.tcpserver) {
    newconnectioncb = some handle_new_connection;
    onmessagecallback = some handle_message;
  };
  memory = [];
  sys = quiet_world;
  user = [];
}

abbrev pub joined : Service World Backlog EchoHandler
joined = value_or before (
    newconnection (user_call epoll open_sender 0 80) descriptor_first epoll clock_api 64 65
      (socket 7) before)

-- The same two messages, with the masks that `epoll_wait` reports.
abbrev pub masked_events : List (ℕ × List ReadAnswer)
masked_events =
    (1, bytes half ∷ failed eagain ∷ []) ∷ (1, bytes other_half ∷ failed eagain ∷ []) ∷ []

epollin-IsInput : IsInput 1
unfolding bit
epollin-IsInput = (refl, refl)

pub masked_events-Arrivals : Arrivals masked_events (half ++ (other_half ++ []))
masked_events-Arrivals =
    next epollin-IsInput (more drained) (next epollin-IsInput (more drained) none_left)

taken_in_echoes_example :
    (t : Full World) × ((as_session 64 (record { task_queue = []; counter = 0 }) joined
        >>= dispatch_events epoll open_sender clock_api
            (echo_callbacks epoll open_sender clock_api 80 64)
            no_stale
            9
            masked_events)
      ≡ ok t)
    × Answered epoll epoll_laws open_sender clock_api 80 64 clock_keeps
        (half ++ (other_half ++ []))
        joined
        t
unfolding append_sep newconnection user_call net_module.TcpServer.int_rem net_module.Socket.getfd
    net_module.Connection.make net_module.Epoller.update_channel net_module.Channel.with_reading
    net_module.Timestamp.now net_module.Connection.get_cfd
taken_in_echoes_example =
    taken_in_echoes epoll epoll_laws open_sender clock_api 80 64 clock_keeps descriptor_first
      no_stale 65 9 (socket 7) before joined (record { task_queue = []; counter = 0 })
      (hello ∷ [] ∷ []) refl refl (λ ep. refl) refl (λ s i. omega arith) masked_events-Arrivals
      (omega arith) (omega arith) refl
