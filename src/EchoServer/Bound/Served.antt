-- ===== src/EchoServer/Bound/Served.antt =====
-- The way of a message through the whole server, from the channel of its connection by
-- `TcpServer::onmessage` (src/TcpServer.cpp, lines 81 to 85) to `EchoServer::HandleMessage`
-- (example/EchoServer.cpp, lines 76 to 103), and back into the output buffer.
pub mod Tests
use net_module.Base.{
  ℕ, ◌<◌, ◌≡◌, refl, sym, ap, ◌∙◌, List, [], ◌∷◌, ◌++◌, some, Result, ok, err, ◌>>=◌, map_ok, All,
  length, arith,
}
use net_module.Base.IntMap.{erase-erase}
use net_module.System.{EpollApi, EpollLaws, SendApi, ClockApi}
use net_module.Buffer.{make}
use net_module.Buffer.Pick.{IsByte, IsFramable}
use net_module.Buffer.Framing.{append_sep_all}
use net_module.EventLoop.Tasks.{Tasks}
use net_module.Connection.{SendTask, ReadAnswer, get_con_statue}
use net_module.Connection.Receive.{with_input, touch}
use net_module.Connection.Receive
use net_module.Connection.Receive.Deliver.{serve}
use net_module.Connection.Receive.Stream.{Bursts, read_events, read_events_complete}
use net_module.Connection.Transmit.{send, send_inloop}
use net_module.TcpServer.{message_bound, onmessage}
use net_module.TcpServer.Binding.{Outer}
use net_module.EchoServer
use net_module.EchoServer.{Backlog, callbacks}
use net_module.EchoServer.Program.{EchoHandler, handle_message}
use net_module.EchoServer.Echo.{Answering, handled, one-Echoes, serve-arrived}
use net_module.EchoServer.Bound.Blind.{echo_callbacks-IsBlind}
use net_module.EchoServer.Bound.{
  no_tasks, Inner, echo_callbacks, restore, within, calling, calling-handle_message,
}

module _ {S : Type 0} where
  abbrev with_tasks : Tasks SendTask → Inner S → Inner S
  with_tasks q ses = record ses { tasks = q }

module _ {S : Type 0} (epoll : EpollApi S) (sender : SendApi S) (clock : ClockApi S)
    (address at : ℕ) where
  -- `HandleMessage` leaves the loop's queue alone.
  handle_message-tasks :
      (m : List ℕ) (ses : Inner S)
      → EchoServer.handle_message epoll sender 0 address m ses
        ≡ map_ok
            (with_tasks ses.tasks)
            (EchoServer.handle_message epoll sender 0 address m (with_tasks no_tasks ses))
  unfolding EchoServer.handle_message EchoServer.on_message get_con_statue send send_inloop
  handle_message-tasks m ses = ground arith

  touched : Inner S → Inner S
  unfolding touch
  touched ses = touch clock (callbacks epoll sender 0 address) ses

  dispatched :
      (o : Outer Backlog EchoHandler) (m : List ℕ) (ses : Inner S)
      → ses.conn.onmessagecallback ≡ some message_bound
      → Receive.handle_message clock
          (echo_callbacks epoll sender clock address at)
          (within at o ses)
          m
        ≡ calling epoll sender clock address at o.server.onmessagecallback m
            (within at o (touched ses))
  unfolding Receive.handle_message touch onmessage touched
  dispatched o m ses bound = rw bound refl

  handled_within :
      (o : Outer Backlog EchoHandler) (m : List ℕ) (ses : Inner S)
      → calling epoll sender clock address at (some handle_message) m (within at o ses)
        ≡ map_ok (within at o) (EchoServer.handle_message epoll sender 0 address m ses)
  handled_within o m ses =
      calling-handle_message epoll sender clock address at m (within at o ses)
      ∙ kept (EchoServer.handle_message epoll sender 0 address m (with_tasks no_tasks ses))
      ∙ ap (map_ok (within at o)) (sym (handle_message-tasks m ses))
    where
      kept :
          (r : Result (Inner S))
          → map_ok (restore at (within at o ses)) r
            ≡ map_ok (within at o) (map_ok (with_tasks ses.tasks) r)
      kept (err e) = refl
      kept (ok t) = rw (erase-erase at o.memory) refl

  -- Through the server's functions a message does to the connection what it does without them, and to
  -- the rest nothing.
  handle_message-within :
      (o : Outer Backlog EchoHandler) (m : List ℕ) (ses : Inner S)
      → o.server.onmessagecallback ≡ some handle_message
      → ses.conn.onmessagecallback ≡ some message_bound
      → Receive.handle_message clock
          (echo_callbacks epoll sender clock address at)
          (within at o ses)
          m
        ≡ map_ok
            (within at o)
            (Receive.handle_message clock (callbacks epoll sender 0 address) ses m)
  unfolding touched EchoServer.handle_message
  handle_message-within o m ses set bound =
      dispatched o m ses bound
      ∙ ap (λ h. calling epoll sender clock address at h m (within at o (touched ses))) set
      ∙ handled_within o m (touched ses)
      ∙ ap (map_ok (within at o))
          (sym (handled epoll sender clock address message_bound m ses bound))

module _ {S : Type 0} (epoll : EpollApi S) (laws : EpollLaws epoll) (sender : SendApi S)
    (clock : ClockApi S) (address at : ℕ)
    (clock_keeps : (s : S) (ep fd : ℕ)
      → laws.registered (clock.now s).1 ep fd ≡ laws.registered s ep fd) where
  abbrev pub Ready : Inner S → Type 0
  Ready = Answering epoll laws sender clock address clock_keeps message_bound

  serve-within :
      (o : Outer Backlog EchoHandler) (ms : List (List ℕ)) (ses : Inner S)
      → o.server.onmessagecallback ≡ some handle_message
      → Ready ses
      → serve clock (echo_callbacks epoll sender clock address at) ms (within at o ses)
        ≡ map_ok (within at o) (serve clock (callbacks epoll sender 0 address) ms ses)
  serve-within o [] ses set ready = refl
  serve-within o (m ∷ ms) ses set ready =
      let (t, run, (out, still)) =
        one-Echoes epoll laws sender clock address clock_keeps message_bound m ses ready in
      rw (handle_message-within epoll sender clock address at o m ses set ready.set, run)
        (serve-within o ms t set still)

  -- In a server without workers whose callback for messages is `HandleMessage`, on a registered connection
  -- with the server's functions as callbacks, and with a clock that leaves epoll alone: however the
  -- stream of a client's `appendSep` calls, each of a message below 2 ^ 31 - 4 bytes, is cut into reads
  -- and events, once all of it has arrived the output buffer has got just that stream, the same messages in
  -- the same order, the input buffer is empty, the connection is as ready as before, and the server, its
  -- loops, its tables and its other connections are as they were.
  pub server_echoes :
      (stale : S → ℕ → ℕ) (fuel : ℕ) {events : List (List ReadAnswer)} {arrived : List ℕ}
      (ms : List (List ℕ)) (o : Outer Backlog EchoHandler) (ses : Inner S)
      → o.server.onmessagecallback ≡ some handle_message
      → ((s : S) (i : ℕ) → IsByte (stale s i))
      → Bursts events arrived
      → length ms < fuel
      → All IsFramable ms
      → arrived ≡ (append_sep_all (make 1) ms).buf
      → Ready ses
      → (t : Inner S) × (read_events epoll clock
            (echo_callbacks epoll sender clock address at)
            stale
            fuel
            events
            (with_input (make 1) (within at o ses))
          ≡ ok (with_input (make 1) (within at o t)))
        × (t.conn.output_buffer.buf ≡ ses.conn.output_buffer.buf ++ arrived)
        × Ready t
  server_echoes stale fuel ms o ses set bytes cut enough fit all ready =
      let (t, run, out, still) =
        serve-arrived epoll laws sender clock address clock_keeps message_bound ms ses all ready in
      (
        t,
        read_events_complete epoll clock (echo_callbacks epoll sender clock address at) stale bytes
              (echo_callbacks-IsBlind epoll sender clock address at) fuel cut ms (within at o ses)
              enough fit all
            ∙ ap (map_ok (with_input (make 1)))
                (serve-within o ms ses set ready ∙ ap (map_ok (within at o)) run),
        out,
        still,
      )
