-- ===== src/EchoServer/Bound/Sent/Tests.antt =====
-- A client joins on descriptor 7 and twice sends two messages, in two parts; each time there is then room to
-- write.
use net_module.Base.{
  Result, false, none, map, ltb, length, ◌^◌, ℕ, List, ◌≡◌, refl, [], ◌∷◌, ◌++◌, ok, ◌>>=◌, arith,
}
use net_module.Base.Bits.{bit}
use net_module.Buffer.{append_sep}
use net_module.Connection.{Connection, SendTask, ReadAnswer}
use net_module.Connection.Events.Output.{IsOutput}
use net_module.TcpServer.Binding.{Outer}
use net_module.TcpServer.Tests.{socket, value_or, joined_connection}
use net_module.EchoServer.Tests.{hello, clock_keeps, half, other_half, no_stale}
use net_module.EchoServer.Bound.{Full, echo_callbacks}
use net_module.EchoServer.Bound.Joined.Tests.{before, joined, masked_events, masked_events-Arrivals}
use net_module.EchoServer.Bound.Exchange.{Exchange, over, messages, room}
use net_module.EchoServer.Bound.Sent.{echoes_sent}
use net_module.Connection.Events.Stream.{answers_of}
use net_module.Connection.Events.Looped.{Looped, handle, reported}
use net_module.EventLoop.Run.{run}
use net_module.EventLoop.Tasks.{Tasks}
use net_module.Base.IntMap.{lookup, erase}
use net_module.Epoller.{occurred}
use net_module.TcpServer.{descriptor_first, ServerHandler, at_index}
use net_module.EchoServer.{Backlog}
use net_module.EchoServer.Program.{EchoHandler}
use net_module.Simulation.{
  World, epoll, epoll_laws, clock_api, open_sender, open_laws, open_sender-whole, control_quiet,
  take_bytes-interests,
}

abbrev no_timeout :
    ℕ
    → Looped World (Outer Backlog EchoHandler) ServerHandler ℕ
    → Result (Looped World (Outer Backlog EchoHandler) ServerHandler ℕ)
no_timeout c r = ok r

abbrev stream : List ℕ
stream = half ++ (other_half ++ [])

room-IsOutput : IsOutput (4, [])
unfolding bit
room-IsOutput = (refl, refl, refl)

-- The two messages, room to write, the two messages again, and room again.
abbrev events : List (ℕ × List ReadAnswer)
events = masked_events ++ (4, []) ∷ (masked_events ++ (4, []) ∷ [])

events-Exchange : Exchange 9 events [] (stream ++ ((stream ++ stream) ++ []))
unfolding append_sep
events-Exchange =
    messages (hello ∷ [] ∷ []) masked_events-Arrivals (omega arith) (omega arith) refl (
      room room-IsOutput (omega arith) (omega arith) (
        messages (hello ∷ [] ∷ []) masked_events-Arrivals (omega arith) (omega arith) refl
          (room room-IsOutput (omega arith) (omega arith) over)))

abbrev empty_queue : Tasks SendTask
empty_queue = record { task_queue = []; counter = 0 }

-- The stored connection in its loop.
abbrev stored : Connection ServerHandler
stored = value_or joined_connection (at_index (lookup 64 joined.memory))

abbrev seated : Full World
seated = record {
  conn = stored;
  sys = joined.sys;
  user = record { server = joined.server; memory = erase 64 joined.memory; user = joined.user };
  tasks = empty_queue;
}

abbrev in_loop : Looped World (Outer Backlog EchoHandler) ServerHandler ℕ
in_loop = record {
  channels = (65, seated.conn.client_channel) ∷ [];
  stopped = false;
  epoll_timeout_callback = none;
  others = (seated, answers_of events);
}

echoes_sent_example :
    (t : Full World) × (s : Looped World (Outer Backlog EchoHandler) ServerHandler ℕ) × (run
        (handle epoll open_sender clock_api
          (echo_callbacks epoll open_sender clock_api 80 64)
          no_stale
          9
          65
          no_timeout)
        no_timeout
        (map (reported 65) events ++ occurred [] ∷ [])
        in_loop
      ≡ run
          (handle epoll open_sender clock_api
            (echo_callbacks epoll open_sender clock_api 80 64)
            no_stale
            9
            65
            no_timeout)
          no_timeout
          (occurred [] ∷ [])
          s)
    × (s.others ≡ (t, []))
    × (s.stopped ≡ false)
    × (t.sys.wire 7 ≡ stream ++ ((stream ++ stream) ++ []))
unfolding net_module.TcpServer.newconnection net_module.EchoServer.Bound.user_call
    net_module.TcpServer.int_rem net_module.Socket.getfd net_module.Connection.make
    net_module.Epoller.update_channel net_module.Channel.with_reading net_module.Timestamp.now
    net_module.Connection.get_cfd lookup net_module.Base.IntMap.insert
echoes_sent_example =
    echoes_sent epoll epoll_laws open_sender clock_api 80 64 clock_keeps open_laws control_quiet
      (λ s j. refl) (λ s fd m ep j. take_bytes-interests (ltb (length m) (2 ^ 31)) s fd m ep j)
      open_sender-whole no_stale (λ s i. omega arith) no_timeout descriptor_first 65 9 (socket 7)
      before joined empty_queue seated in_loop (occurred [] ∷ []) refl refl (λ ep. refl) refl refl
      refl refl refl events-Exchange
