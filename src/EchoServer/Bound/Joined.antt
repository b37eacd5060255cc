-- ===== src/EchoServer/Bound/Joined.antt =====
-- A client of example/EchoServer.cpp from the moment when the server takes it in (src/TcpServer.cpp,
-- lines 119 to 137) to its answers.
pub mod Tests
use net_module.Base.{
  ℕ, ◌<◌, ◌≡◌, refl, ap, ◌∙◌, List, [], ◌∷◌, ◌++◌, none, some, ok, ◌>>=◌, >>=-eq-ok, All, length,
}
use net_module.System.{EpollApi, EpollLaws, SendApi, ClockApi}
use net_module.Buffer.{make}
use net_module.Buffer.Pick.{IsByte, IsFramable}
use net_module.Buffer.Framing.{append_sep_all}
use net_module.Socket.{Socket, getfd}
use net_module.EventLoop.Tasks.{Tasks}
use net_module.Connection
use net_module.Connection.{SendTask, ReadAnswer}
use net_module.Connection.Receive.{with_input}
use net_module.Connection.Events.{with_revents}
use net_module.Connection.Events.Stream.{
  Arrivals, Arrivals-Bursts, last_mask, dispatch_events, dispatch_events-read,
}
use net_module.EchoServer.Bound.Blind.{echo_callbacks-IsMaskBlind}
use net_module.EchoServer.Bound.Kept.{echo-Preserves_handlers}
use net_module.Channel.{setrevents}
use net_module.Base.{map_ok}
use net_module.TcpServer.{Service, newconnection, ArgumentOrder}
use net_module.TcpServer.Binding.{as_session}
use net_module.EchoServer.{Backlog}
use net_module.EchoServer.Program.{EchoHandler, handle_message, handle_new_connection}
use net_module.EchoServer.Bound.{Full, inner, user_call, echo_callbacks, within}
use net_module.EchoServer.Bound.Served.{Ready, server_echoes}
use net_module.EchoServer.Bound.Seated.{around, taken_in-Seated}

module _ {S : Type 0} (epoll : EpollApi S) (laws : EpollLaws epoll) (sender : SendApi S)
    (clock : ClockApi S) (address at : ℕ)
    (clock_keeps : (s : S) (ep fd : ℕ)
      → laws.registered (clock.now s).1 ep fd ≡ laws.registered s ep fd) where
  -- A connection whose messages have all been answered, with its server as `newconnection` left it.
  pub record Answered (arrived : List ℕ) (w : Service S Backlog EchoHandler) (t : Full S)
      : Type 0 where
    pub output : t.conn.output_buffer.buf ≡ arrived
    pub input : t.conn.input_buffer ≡ make 1
    pub same_server : t.user.server ≡ w.server
    pub ready : Ready epoll laws sender clock address at clock_keeps (inner at t)

  -- A server without workers takes in a connection on a descriptor that no epoll instance knows, and
  -- `newconnection` returns; the clock leaves epoll alone. However the stream of the client's `appendSep`
  -- calls, each of a message below 2 ^ 31 - 4 bytes, is then cut into reads and into events of the
  -- connection's channel, each with EPOLLIN and without EPOLLRDHUP in its mask: once all of it has arrived,
  -- the output buffer holds just that stream and the input buffer is empty, the connection is open, its
  -- flag agrees with the kernel, and the server's tables are as `newconnection` left them.
  pub taken_in_echoes :
      (order : ArgumentOrder) (stale : S → ℕ → ℕ) (channel_address fuel : ℕ) (sock : Socket)
      (v w : Service S Backlog EchoHandler) (tasks : Tasks SendTask)
      {events : List (ℕ × List ReadAnswer)} {arrived : List ℕ} (ms : List (List ℕ))
      → v.server.newconnectioncb ≡ some handle_new_connection
      → v.server.onmessagecallback ≡ some handle_message
      → ((ep : ℕ) → laws.registered v.sys ep (getfd sock) ≡ none)
      → newconnection (user_call epoll sender 0 address) order epoll clock at channel_address sock v
        ≡ ok w
      → ((s : S) (i : ℕ) → IsByte (stale s i))
      → Arrivals events arrived
      → length ms < fuel
      → All IsFramable ms
      → arrived ≡ (append_sep_all (make 1) ms).buf
      → (t : Full S) × ((as_session at tasks w
            >>= dispatch_events epoll sender clock
                (echo_callbacks epoll sender clock address at)
                stale
                fuel
                events)
          ≡ ok t)
        × Answered arrived w t
  unfolding setrevents
  taken_in_echoes order stale channel_address fuel sock v w tasks {events} {arrived} ms printing
        handler fresh run bytes cut enough fit all =
      let cbs = echo_callbacks epoll sender clock address at in
      let seat =
        taken_in-Seated epoll laws sender clock address at clock_keeps order channel_address sock v
          w tasks printing handler fresh run in
      let (u, served, out, still) =
        server_echoes epoll laws sender clock address at clock_keeps stale fuel ms (around w)
          seat.alone seat.handler bytes (Arrivals-Bursts cut) enough fit all seat.ready in
      let seen =
        dispatch_events-read epoll sender clock cbs stale
          (echo_callbacks-IsMaskBlind epoll sender clock address at stale)
          (echo-Preserves_handlers epoll sender clock address at) fuel cut
          (with_input (make 1) (within at (around w) seat.alone)) seat.listens in
      let mask = last_mask seat.alone.conn.client_channel.revents events in
      (
        with_revents mask (with_input (make 1) (within at (around w) u)),
        rw seat.stored (seen ∙ ap (map_ok (with_revents mask)) served),
        record {
          output = out ∙ ap (λ l. l ++ arrived) seat.empty;
          input = refl;
          same_server = refl;
          ready = record {
            alive = still.alive;
            framed = still.framed;
            in_step = still.in_step;
            known = still.known;
            set = still.set;
          };
        },
      )
