-- ===== src/EchoServer/Bound/Sent.antt =====
-- A connection of the echo server from `newconnection` on, with the answers on their way back to the
-- client: src/TcpServer.cpp, lines 121 to 138, src/Connection.cpp, lines 52 to 100, and
-- example/EchoServer.cpp, lines 76 to 103.
mod Tests
use net_module.Base.{
  false, Result, map, ℕ, ◌^◌, ◌<◌, ◌≡◌, sym, ap, ◌∙◌, List, [], ◌++◌, some, none, ok, ◌>>=◌, length,
}
use net_module.System.{EpollApi, EpollLaws, ControlOp, EpollEvent, SendApi, SendLaws, ClockApi}
use net_module.Buffer.{make}
use net_module.Buffer.Pick.{IsByte}
use net_module.Socket.{Socket, getfd}
use net_module.EventLoop.Tasks.{Tasks}
use net_module.Connection.{SendTask, ReadAnswer, get_cfd}
use net_module.Connection.Receive.{with_input}
use net_module.Connection.Events.Looped.{Looped, handle, reported, run-dispatch}
use net_module.Connection.Events.Stream.{answers_of, dispatch_events}
use net_module.EventLoop.Run.{run}
use net_module.Base.IntMap.{lookup}
use net_module.Epoller.{WaitAnswer}
use net_module.TcpServer.{ServerHandler}
use net_module.TcpServer.Binding.{Outer}
use net_module.TcpServer.{Service, newconnection, ArgumentOrder}
use net_module.TcpServer.Binding.{as_session}
use net_module.EchoServer.{Backlog}
use net_module.EchoServer.Program.{EchoHandler, handle_message, handle_new_connection}
use net_module.EchoServer.Bound.{Full, within, user_call, echo_callbacks}
use net_module.EchoServer.Bound.Seated.{around, taken_in-Seated}
use net_module.EchoServer.Bound.Exchange.{Exchange, exchanged}

-- Neither `epoll_ctl` nor the clock puts bytes on a wire, and neither the clock nor a send touches what epoll
-- watches; every send is taken whole.
module _ {S : Type 0} (epoll : EpollApi S) (laws : EpollLaws epoll) (sender : SendApi S)
    (clock : ClockApi S) (address at : ℕ)
    (clock_keeps : (s : S) (ep fd : ℕ)
      → laws.registered (clock.now s).1 ep fd ≡ laws.registered s ep fd)
    (wires : SendLaws sender)
    (control_quiet : (s t : S) (ep fd j : ℕ) (op : ControlOp) (e : EpollEvent)
      → epoll.ctl s ep op fd e ≡ some t
      → wires.wire t j ≡ wires.wire s j)
    (clock_quiet : (s : S) (j : ℕ) → wires.wire (clock.now s).1 j ≡ wires.wire s j)
    (send_keeps : (s : S) (fd : ℕ) (m : List ℕ) (ep j : ℕ)
      → laws.registered (sender.send s fd m).1 ep j ≡ laws.registered s ep j)
    (whole : (s : S) (fd : ℕ) (message : List ℕ)
      → length message < 2 ^ 31
      → (sender.send s fd message).0 ≡ length message)
    (stale : S → ℕ → ℕ) (bytes : (s : S) (i : ℕ) → IsByte (stale s i)) where
  -- What the events do to the stored connection.
  echoes_handled :
      (order : ArgumentOrder) (channel_address fuel : ℕ) (sock : Socket)
      (v w : Service S Backlog EchoHandler) (tasks : Tasks SendTask)
      {events : List (ℕ × List ReadAnswer)} {sent : List ℕ}
      → v.server.newconnectioncb ≡ some handle_new_connection
      → v.server.onmessagecallback ≡ some handle_message
      → ((ep : ℕ) → laws.registered v.sys ep (getfd sock) ≡ none)
      → newconnection (user_call epoll sender 0 address) order epoll clock at channel_address sock v
        ≡ ok w
      → Exchange fuel events [] sent
      → (t : Full S) × ((as_session at tasks w
            >>= dispatch_events epoll sender clock
                (echo_callbacks epoll sender clock address at)
                stale
                fuel
                events)
          ≡ ok t)
        × (get_cfd t.conn ≡ getfd sock)
        × (wires.wire t.sys (getfd sock) ≡ wires.wire w.sys (getfd sock) ++ sent)
  unfolding get_cfd
  echoes_handled order channel_address fuel sock v w tasks {sent = sent} printing handler fresh run
        events =
      let seat =
        taken_in-Seated epoll laws sender clock address at clock_keeps order channel_address sock v
          w tasks printing handler fresh run in
      let (t, rest, handled, last, sends) =
        exchanged epoll laws sender clock address at clock_keeps wires control_quiet clock_quiet
          send_keeps whole stale bytes fuel (around w) seat.handler events seat.alone
          (record { ready = seat.ready; bound = seat.listens; output = seat.empty }) in
      let same = sends.same ∙ seat.descriptor in
      (
        with_input (make 1) (within at (around w) t),
        rw seat.stored handled,
        same,
        ap (wires.wire t.sys) (sym same)
            ∙ sends.grown
            ∙ ap (λ j. wires.wire seat.alone.sys j ++ sent) seat.descriptor
            ∙ ap (λ s. wires.wire s (getfd sock) ++ sent) seat.same_sys,
      )

  -- A server without workers takes in a connection on a descriptor that no epoll instance knows, and
  -- `newconnection` returns. Then its thread's `EventLoop::run`, with the channel in memory, gets one event of
  -- the connection in each pass, and after these whatever `more` says: the client's messages and room to
  -- write in any order, each message below 2 ^ 31 - 4 bytes and in events of any cut, and room only
  -- while from 1 to 2 ^ 31 - 1 bytes are in the output buffer. The loop handles all these events and goes
  -- on with the rest; and the descriptor of the accepted socket has then got, behind what it had got when
  -- `newconnection` returned, for each event with room to write once more the stream of all the messages
  -- up to then.
  pub echoes_sent :
      {K : Type 0}
      (on_timeout : K
        → Looped S (Outer Backlog EchoHandler) ServerHandler K
        → Result (Looped S (Outer Backlog EchoHandler) ServerHandler K))
      (order : ArgumentOrder) (channel_address fuel : ℕ) (sock : Socket)
      (v w : Service S Backlog EchoHandler) (tasks : Tasks SendTask)
      {events : List (ℕ × List ReadAnswer)} {sent : List ℕ} (ses : Full S)
      (r : Looped S (Outer Backlog EchoHandler) ServerHandler K) (more : List WaitAnswer)
      → v.server.newconnectioncb ≡ some handle_new_connection
      → v.server.onmessagecallback ≡ some handle_message
      → ((ep : ℕ) → laws.registered v.sys ep (getfd sock) ≡ none)
      → newconnection (user_call epoll sender 0 address) order epoll clock at channel_address sock v
        ≡ ok w
      → as_session at tasks w ≡ ok ses
      → r.stopped ≡ false
      → lookup channel_address r.channels ≡ some ses.conn.client_channel
      → r.others ≡ (ses, answers_of events)
      → Exchange fuel events [] sent
      → (t : Full S) × (s : Looped S (Outer Backlog EchoHandler) ServerHandler K) × (run
            (handle epoll sender clock
              (echo_callbacks epoll sender clock address at)
              stale
              fuel
              channel_address
              on_timeout)
            on_timeout
            (map (reported channel_address) events ++ more)
            r
          ≡ run
              (handle epoll sender clock
                (echo_callbacks epoll sender clock address at)
                stale
                fuel
                channel_address
                on_timeout)
              on_timeout
              more
              s)
        × (s.others ≡ (t, []))
        × (s.stopped ≡ false)
        × (wires.wire t.sys (getfd sock) ≡ wires.wire w.sys (getfd sock) ++ sent)
  echoes_sent on_timeout order channel_address fuel sock v w tasks {events} ses r more printing
        handler fresh ran seated going here others exchange =
      let (t, handled, same, grown) =
        echoes_handled order channel_address fuel sock v w tasks printing handler fresh ran
          exchange in
      let (s, passes, left, still, there) =
        run-dispatch epoll sender clock (echo_callbacks epoll sender clock address at) stale fuel
          channel_address on_timeout events ses t r more going here others
          (ap
              (λ (m : Result (Full S)).
                m
                >>= dispatch_events epoll sender clock
                    (echo_callbacks epoll sender clock address at) stale fuel events)
              (sym seated)
            ∙ handled) in
      (t, s, passes, left, still, grown)
