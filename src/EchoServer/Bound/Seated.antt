-- ===== src/EchoServer/Bound/Seated.antt =====
-- What `newconnection` leaves of a client of example/EchoServer.cpp (src/TcpServer.cpp, lines 121 to 138).
use net_module.Base.{ℕ, ◌≡◌, refl, sym, ap, ◌∙◌, [], Option, none, some, ok, >>=-eq-ok, get_elem?}
use net_module.Base.IntMap.{lookup, lookup-insert_same}
use net_module.System.{EpollApi, EpollLaws, SendApi, ClockApi}
use net_module.Buffer.{Buffer, make}
use net_module.Socket.{Socket, getfd}
use net_module.EventLoop.Tasks.{Tasks}
use net_module.Connection
use net_module.Connection.{
  Connection, SendTask, ReadAnswer, get_cfd, set_onmessage_callback, set_close_callback,
  set_error_callback, set_write_callback,
}
use net_module.Connection.Made.{make-Made_of_ok}
use net_module.Connection.Receive.{with_input}
use net_module.Connection.Events.Kept.{handlers}
use net_module.Connection.Events.Stream.{as_made}
use net_module.TcpServer.{
  ServerHandler, on_connection, Service, int_rem, at_index, call_if_set, bound, newconnection,
  ArgumentOrder, descriptor_first, moved_first,
}
use net_module.TcpServer.Binding.{Outer, as_session}
use net_module.EchoServer.{Backlog}
use net_module.EchoServer.Program.{EchoHandler, handle_message, handle_new_connection}
use net_module.EchoServer.Bound.{Inner, user_call, within}
use net_module.EchoServer.Bound.Served.{Ready}

module _ {S : Type 0} (epoll : EpollApi S) (sender : SendApi S) (clock : ClockApi S)
    (address at : ℕ) where
  -- What `newconnection` leaves for the connection that it put at `at`.
  record Taken (channel_address : ℕ) (sock : Socket) (v w : Service S Backlog EchoHandler)
      : Type 0 where
    epollfd : ℕ
    conn : Connection ServerHandler
    made : Connection.make epoll clock v.sys channel_address epollfd sock ≡ ok (conn, w.sys)
    stored : lookup at w.memory ≡ some (bound (user_call epoll sender 0 address) conn)
    same_handler : w.server.onmessagecallback ≡ v.server.onmessagecallback

  -- `HandleNewConnection` only prints.
  printed :
      (o : Option EchoHandler) (v w : Service S Backlog EchoHandler)
      → o ≡ some handle_new_connection
      → call_if_set (user_call epoll sender 0 address) o (on_connection at) v ≡ ok w
      → v ≡ w
  unfolding user_call
  printed o v w set h =
      let run : call_if_set (user_call epoll sender 0 address) o (on_connection at) v ≡ ok v =
        ap (λ k. call_if_set (user_call epoll sender 0 address) k (on_connection at) v) set in
      cc (run, h)

  newconnection-Taken :
      (order : ArgumentOrder) (channel_address : ℕ) (sock : Socket)
      (v w : Service S Backlog EchoHandler)
      → v.server.newconnectioncb ≡ some handle_new_connection
      → newconnection (user_call epoll sender 0 address) order epoll clock at channel_address sock v
        ≡ ok w
      → Taken channel_address sock v w
  unfolding newconnection
  newconnection-Taken moved_first channel_address sock v w printing h = absurd (cc)
  newconnection-Taken descriptor_first channel_address sock v w printing h =
      let act = user_call epoll sender 0 address in
      let (i, index, h₁) = >>=-eq-ok (int_rem (getfd sock) v.server.thread_num) _ h in
      let (l, there, h₂) = >>=-eq-ok (at_index (get_elem? v.server.subloops i)) _ h₁ in
      let ((conn, s), made, h₃) =
        >>=-eq-ok (Connection.make epoll clock v.sys channel_address l.wake_channel.epollfd sock) _
          h₂ in
      let (j, again, h₄) = >>=-eq-ok (int_rem (get_cfd conn) v.server.thread_num) _ h₃ in
      let (m, here, h₅) = >>=-eq-ok (at_index (get_elem? v.server.subloops j)) _ h₄ in
      let same = printed v.server.newconnectioncb _ w printing h₅ in
      record {
        epollfd = l.wake_channel.epollfd;
        conn = conn;
        made = made ∙ ap (λ (x : Service S Backlog EchoHandler). ok (conn, x.sys)) same;
        stored =
            ap (λ (x : Service S Backlog EchoHandler). lookup at x.memory) (sym same)
            ∙ lookup-insert_same at (bound act conn) v.memory;
        same_handler =
            ap (λ (x : Service S Backlog EchoHandler). x.server.onmessagecallback) (sym same);
      }

-- What surrounds a connection in a server.
abbrev pub around : {S : Type 0} → Service S Backlog EchoHandler → Outer Backlog EchoHandler
around w = record { server = w.server; memory = w.memory; user = w.user }

module _ {S : Type 0} (epoll : EpollApi S) (laws : EpollLaws epoll) (sender : SendApi S)
    (clock : ClockApi S) (address at : ℕ)
    (clock_keeps : (s : S) (ep fd : ℕ)
      → laws.registered (clock.now s).1 ep fd ≡ laws.registered s ep fd) where
  -- The stored connection, of a socket and with nothing received, nothing to send and nothing sent.
  pub record Seated (sock : Socket) (w : Service S Backlog EchoHandler) (tasks : Tasks SendTask)
      : Type 0 where
    pub alone : Inner S
    pub stored : as_session at tasks w ≡ ok (with_input (make 1) (within at (around w) alone))
    pub listens : handlers alone ≡ as_made
    pub same_sys : alone.sys ≡ w.sys
    pub descriptor : get_cfd alone.conn ≡ getfd sock
    pub empty : alone.conn.output_buffer.buf ≡ []
    pub ready : Ready epoll laws sender clock address at clock_keeps alone
    pub handler : w.server.onmessagecallback ≡ some handle_message

  pub taken_in-Seated :
      (order : ArgumentOrder) (channel_address : ℕ) (sock : Socket)
      (v w : Service S Backlog EchoHandler) (tasks : Tasks SendTask)
      → v.server.newconnectioncb ≡ some handle_new_connection
      → v.server.onmessagecallback ≡ some handle_message
      → ((ep : ℕ) → laws.registered v.sys ep (getfd sock) ≡ none)
      → newconnection (user_call epoll sender 0 address) order epoll clock at channel_address sock v
        ≡ ok w
      → Seated sock w tasks
  unfolding set_onmessage_callback set_close_callback set_error_callback set_write_callback get_cfd
      getfd
  taken_in-Seated order channel_address sock v w tasks printing handler fresh run =
      let taken =
        newconnection-Taken epoll sender clock address at order channel_address sock v w printing
          run in
      let born =
        make-Made_of_ok epoll laws clock clock_keeps v.sys w.sys channel_address taken.epollfd sock
          taken.conn (fresh taken.epollfd) taken.made in
      let alone : Inner S = record {
        conn = bound (user_call epoll sender 0 address) taken.conn;
        sys = w.sys;
        user = w.user;
        tasks = tasks;
      } in
      record {
        alone = alone;
        stored =
            rw taken.stored (ap (λ b. ok (with_input b (within at (around w) alone))) born.input);
        listens =
            ap (λ r. (r, taken.conn.client_channel.write_callback)) born.bound.on_read
            ∙ ap (λ r. (some Connection.onmessage_callback, r)) born.bound.on_write;
        same_sys = refl;
        descriptor = ap getfd born.socket;
        empty = ap (λ (b : Buffer). b.buf) born.output;
        ready = record {
          alive = born.alive;
          framed = ap (λ (b : Buffer). b.sep) born.output;
          in_step = born.in_step;
          known = born.known;
          set = refl;
        };
        handler = taken.same_handler ∙ handler;
      }
