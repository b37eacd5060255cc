-- ===== src/TcpServer.antt =====
-- include/TcpServer.h and src/TcpServer.cpp: the server over its loops and connections. `K` names the
-- functions of the user.
pub mod Making
pub mod Affinity
pub mod Binding
pub mod Joining
pub mod Leaving
pub mod Ownership
pub mod Stopping
pub mod Table
pub mod Tests
use net_module.Base.{
  ℕ, zero, suc, ◌+◌, ◌-◌, ◌%◌, ◌^◌, ◌≡◌, Bool, true, false, List, [], ◌∷◌, Option, none, some,
  Result, ok, err, undefined, ◌>>=◌, ◌==◌, if◌then◌else◌, get_elem?, set_at, map,
}
use net_module.Base.Word.{is_negative}
use net_module.Base.IntMap.{lookup, insert, erase}
use net_module.System.{EpollApi, ClockApi, MakeApi, TimerApi, SocketApi, InetApi}
use net_module.Epoller
use net_module.Acceptor
use net_module.Acceptor.{Acceptor, set_new_conn_cb}
use net_module.Socket.{Socket, getfd}
use net_module.Connection
use net_module.Connection.{
  Connection, get_cfd, set_close_callback, set_error_callback, set_onmessage_callback,
  set_write_callback,
}
use net_module.EventLoop
use net_module.EventLoop.{EventLoop, set_epoll_timeout_callback, set_timer_callback}

-- The member functions that a server binds: to each connection, to its loops, and to its acceptor.
pub data ServerHandler : Type 0 where
  close_bound error_bound message_bound complete_bound : ServerHandler
  epolltimeout_bound removeconn_bound newconnection_bound : ServerHandler

-- What a function of the user is called with: a connection by its address, with a message or not, a
-- descriptor, or the number of a loop.
pub data UserCall : Type 0 where
  on_connection : ℕ → UserCall
  on_message : ℕ → List ℕ → UserCall
  on_descriptor : ℕ → UserCall
  on_loop : ℕ → UserCall

-- `conns_` maps descriptors to the addresses of the connections. The loops stand in their order, and
-- `to_run` holds the numbers of those whose `run` the constructor gives to the thread pool.
pub record TcpServer (K : Type 0) : Type 0 where
  pub mainloop : EventLoop ServerHandler ℕ
  pub acceptor : Acceptor ServerHandler
  pub to_run : List ℕ
  pub thread_num : ℕ
  pub subloops : List (EventLoop ServerHandler ℕ)
  pub conns : List (ℕ × ℕ)
  pub closecallback : Option K
  pub errorcallback : Option K
  pub onmessagecallback : Option K
  pub sendcompletecallback : Option K
  pub newconnectioncb : Option K
  pub removeconnectioncb : Option K
  pub timeoutcb : Option K

-- The server, the connections in memory by their addresses, the system, and what the user keeps.
pub record Service (S U K : Type 0) : Type 0 where
  pub server : TcpServer K
  pub memory : List (ℕ × Connection ServerHandler)
  pub sys : S
  pub user : U

module _ {S : Type 0} (makes : MakeApi S) (epoll : EpollApi S) (timers : TimerApi S) where
  -- `new EventLoop(...)`, and the callback for its timeouts.
  unfoldable pub new_loop : S → Bool → ℕ → ℕ → Result (EventLoop ServerHandler ℕ × S)
  new_loop s mainloop timetvl timeout = do
    (l, s') ← EventLoop.make makes epoll timers s mainloop timetvl timeout
    ok (set_epoll_timeout_callback l epolltimeout_bound, s')

  -- The loop of the constructor, from loop `i` on, with `n` to come.
  unfoldable pub new_subloops : ℕ → ℕ → S → Result (List (EventLoop ServerHandler ℕ) × List ℕ × S)
  new_subloops zero i s = ok ([], [], s)
  new_subloops (suc n) i s = do
    (l, s₁) ← new_loop s false 5 10
    (ls, to_run, s₂) ← new_subloops n (suc i) s₁
    ok (set_timer_callback l removeconn_bound ∷ ls, i ∷ to_run, s₂)

  -- The constructor. A number of threads below 0 makes no loop.
  unfoldable pub make :
      {K : Type 0} → SocketApi S → InetApi → S → ℕ → List ℕ → ℕ → ℕ → Result (TcpServer K × S)
  make sockets inet s garbage ip port threadnum = do
    (mainloop, s₁) ← new_loop s true 10 20
    let (address, s₂) = makes.new s₁
    (acceptor, s₃) ←
        Acceptor.make sockets inet epoll s₂ garbage address mainloop.wake_channel.epollfd ip port
    (subloops, to_run, s₄) ← new_subloops (if is_negative threadnum then 0 else threadnum) 0 s₃
    ok (
      record {
        mainloop = mainloop;
        acceptor = set_new_conn_cb acceptor newconnection_bound;
        to_run = to_run;
        thread_num = threadnum;
        subloops = subloops;
        conns = [];
        closecallback = none;
        errorcallback = none;
        onmessagecallback = none;
        sendcompletecallback = none;
        newconnectioncb = none;
        removeconnectioncb = none;
        timeoutcb = none;
      },
      s₄,
    )

module _ {K : Type 0} where
  unfoldable pub setcloseconnectioncb : TcpServer K → K → TcpServer K
  setcloseconnectioncb v cb = record v { closecallback = some cb }

  unfoldable pub seterrorconnectioncb : TcpServer K → K → TcpServer K
  seterrorconnectioncb v cb = record v { errorcallback = some cb }

  unfoldable pub setonmessagecb : TcpServer K → K → TcpServer K
  setonmessagecb v cb = record v { onmessagecallback = some cb }

  unfoldable pub setnewconnectioncb : TcpServer K → K → TcpServer K
  setnewconnectioncb v cb = record v { newconnectioncb = some cb }

  unfoldable pub setremoveconnectioncb : TcpServer K → K → TcpServer K
  setremoveconnectioncb v cb = record v { removeconnectioncb = some cb }

  unfoldable pub settimeoutcb : TcpServer K → K → TcpServer K
  settimeoutcb v cb = record v { timeoutcb = some cb }

  unfoldable pub setsendcompletecb : TcpServer K → K → TcpServer K
  setsendcompletecb v cb = record v { sendcompletecallback = some cb }

-- The first half of `stop`; then it stops the thread pool.
unfoldable pub stop_loops : {K : Type 0} → TcpServer K → TcpServer K
stop_loops v = record v {
  mainloop = EventLoop.stop v.mainloop;
  subloops = map EventLoop.stop v.subloops;
}

-- `a % b` on `int`s: the remainder has the sign of `a`, and there is none by 0.
unfoldable pub int_rem : ℕ → ℕ → Result ℕ
int_rem a b =
    let magnitude = (λ (x : ℕ). if is_negative x then 2 ^ 32 - x else x) in
    if b == 0
    then err undefined
    else let r = magnitude a % magnitude b in
      ok (if is_negative a then (2 ^ 32 - r) % 2 ^ 32 else r)

-- `subloops_[i]`: an index past the end, as each negative one is, is undefined.
abbrev pub at_index : {A : Type 0} → Option A → Result A
at_index none = err undefined
at_index (some a) = ok a

-- Which argument of `new Connection(subloops_[clientsock->getfd() % ...], std::move(clientsock))` the
-- compiler evaluates first: the language leaves it open.
pub data ArgumentOrder : Type 0 where
  descriptor_first moved_first : ArgumentOrder

module _ {S U K : Type 0} (act : K → UserCall → Service S U K → Result (Service S U K)) where
  -- `if (cb) cb(...)`.
  abbrev pub call_if_set : Option K → UserCall → Service S U K → Result (Service S U K)
  call_if_set none c v = ok v
  call_if_set (some cb) c v = act cb c v

  unfoldable pub onmessage : ℕ → List ℕ → Service S U K → Result (Service S U K)
  onmessage address message v =
      call_if_set v.server.onmessagecallback (on_message address message) v

  unfoldable pub sendcomplete : ℕ → Service S U K → Result (Service S U K)
  sendcomplete address v = call_if_set v.server.sendcompletecallback (on_connection address) v

  unfoldable pub epolltimeout : ℕ → Service S U K → Result (Service S U K)
  epolltimeout loop v = call_if_set v.server.timeoutcb (on_loop loop) v

  -- `conns_.erase(fd)`.
  abbrev pub without : ℕ → Service S U K → Service S U K
  without fd v = record v { server = record (v.server) { conns = erase fd v.server.conns } }

  -- `conns_.erase(conn->getCfd())`, for the connection at an address.
  unfoldable pub forget : ℕ → Service S U K → Result (Service S U K)
  forget address v = do conn ← at_index (lookup address v.memory); ok (without (get_cfd conn) v)

  unfoldable pub removeconn : ℕ → Service S U K → Result (Service S U K)
  removeconn fd v = call_if_set v.server.removeconnectioncb (on_descriptor fd) (without fd v)

  unfoldable pub errorconnection : ℕ → Service S U K → Result (Service S U K)
  errorconnection address v =
      call_if_set v.server.errorcallback (on_connection address) v >>= forget address

  unfoldable pub closeconnection : ℕ → Service S U K → Result (Service S U K)
  closeconnection address v =
      call_if_set v.server.closecallback (on_connection address) v >>= forget address

  -- The callbacks of a new connection.
  abbrev pub bound : Connection ServerHandler → Connection ServerHandler
  bound c =
      set_write_callback
        (set_onmessage_callback (set_error_callback (set_close_callback c close_bound) error_bound)
          message_bound)
        complete_bound

  -- `newconnection`, for a connection and a channel that `new` puts at two addresses. Where the
  -- compiler has moved `clientsock` into the parameter first, `getfd` is called on a null pointer.
  unfoldable pub newconnection :
      ArgumentOrder
      → EpollApi S
      → ClockApi S
      → ℕ
      → ℕ
      → Socket
      → Service S U K
      → Result (Service S U K)
  newconnection moved_first epoll clock address channel_address clientsock v = err undefined
  newconnection descriptor_first epoll clock address channel_address clientsock v = do
    i ← int_rem (getfd clientsock) v.server.thread_num
    l ← at_index (get_elem? v.server.subloops i)
    (conn, s) ← Connection.make epoll clock v.sys channel_address l.wake_channel.epollfd clientsock
    let conns = insert (get_cfd conn) address v.server.conns
    j ← int_rem (get_cfd conn) v.server.thread_num
    m ← at_index (get_elem? v.server.subloops j)
    let subloops = set_at v.server.subloops j (EventLoop.newconnection m (get_cfd conn) address)
    let joined = record v {
      server = record (v.server) { conns = conns; subloops = subloops };
      memory = insert address (bound conn) v.memory;
      sys = s;
    }
    call_if_set joined.server.newconnectioncb (on_connection address) joined
