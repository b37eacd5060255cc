-- ===== src/TcpServer/Joining.antt =====
-- `TcpServer::newconnection`: the choice of the loop, and what is stored where.
use net_module.Base.{
  ℕ, ◌%◌, ◌^◌, ◌≤◌, ◌<◌, ◌≡◌, ◌≢◌, refl, false, List, some, Result, ok, err, undefined, ◌==◌,
  length, get_elem?, arith, get_elem?_of_length-le,
}
use native.Mathlib.Nat.{mod-eq_of_lt}
use net_module.Base.Word.{minus_one}
use net_module.Base.IntMap.{lookup}
use net_module.System.{EpollApi, ClockApi, SocketApi, InetApi}
use net_module.InetAddress.{InetAddress}
use net_module.Socket.{Socket, getfd, set_ip_port, accept}
use net_module.Acceptor.{Acceptor, accepted, new_connection}
use net_module.Connection
use net_module.Connection.{Connection}
use net_module.EventLoop
use net_module.EventLoop.{EventLoop}
use net_module.TcpServer.{
  ServerHandler, UserCall, Service, int_rem, bound, newconnection, ArgumentOrder, descriptor_first,
  moved_first,
}

int_rem_of_minus_one : (n : ℕ) → 2 ≤ n → n < 2 ^ 31 → int_rem minus_one n ≡ ok minus_one
unfolding int_rem
int_rem_of_minus_one n two small = let one : 1 % n ≡ 1 = mod-eq_of_lt two in ground (arith, one)

-- A connection keeps the socket that it was made with.
pub make_socket :
    {S C : Type 0} (epoll : EpollApi S) (clock : ClockApi S) (s t : S) (address epollfd : ℕ)
    (sock : Socket) (conn : Connection C)
    → Connection.make epoll clock s address epollfd sock ≡ ok (conn, t)
    → conn.client_sock ≡ sock
unfolding Connection.make
make_socket epoll clock s t address epollfd sock conn h = ground arith

module _ {S U K : Type 0} (act : K → UserCall → Service S U K → Result (Service S U K))
    (epoll : EpollApi S) (clock : ClockApi S) where
  abbrev pub loops : Service S U K → List (EventLoop ServerHandler ℕ)
  loops v = v.server.subloops

  -- What a connection on descriptor `fd` finds when it has joined: its entries in the table of the
  -- server and in that of its loop, its four callbacks, and all else as it was.
  pub record Joined (fd address i : ℕ) (conn : Connection ServerHandler) (v w : Service S U K)
      : Type 0 where
    pub listed : lookup fd w.server.conns ≡ some address
    pub others : (j : ℕ) → (fd == j) ≡ false → lookup j w.server.conns ≡ lookup j v.server.conns
    pub hosted :
        (l : EventLoop ServerHandler ℕ) × (get_elem? (loops w) i ≡ some l)
        × (lookup fd l.conns ≡ some address)
    pub other_loops : (j : ℕ) → i ≢ j → get_elem? (loops w) j ≡ get_elem? (loops v) j
    pub in_memory : lookup address w.memory ≡ some (bound act conn)

  newconnection_undefined :
      (order : ArgumentOrder) (address channel_address : ℕ) (sock : Socket) (v : Service S U K)
      → getfd sock ≡ minus_one
      → 2 ≤ v.server.thread_num
      → v.server.thread_num < 2 ^ 31
      → length (loops v) ≡ v.server.thread_num
      → newconnection act order epoll clock address channel_address sock v ≡ err undefined
  unfolding newconnection
  newconnection_undefined moved_first address channel_address sock v refused two small loops_there =
      refl
  newconnection_undefined descriptor_first address channel_address sock v refused two small
        loops_there =
      rw (
        refused,
        int_rem_of_minus_one v.server.thread_num two small,
        get_elem?_of_length-le (loops v) minus_one (omega arith),
      )

  -- A refused `accept` hands over descriptor -1, which nothing checks: with two threads or more, the
  -- index of its loop is -1 modulo their number, that is -1, and the subscript is undefined, whichever
  -- argument the compiler evaluates first.
  pub accept_refused_undefined :
      {H : Type 0} (api : SocketApi S) (inet : InetApi) (address channel_address garbage : ℕ)
      (stale : InetAddress) (order : ArgumentOrder) (a : Acceptor H) (cb : H) (v : Service S U K)
      → a.new_conn_cb ≡ some cb
      → (api.accept4 v.sys a.serv_sock.fd).0.0 ≡ minus_one
      → 2 ≤ v.server.thread_num
      → v.server.thread_num < 2 ^ 31
      → length (loops v) ≡ v.server.thread_num
      → new_connection api inet
          (λ h sock s (w : Service S U K).
            newconnection act order epoll clock address channel_address sock (record w { sys = s }))
          v.sys
          garbage
          stale
          a
          v
        ≡ err undefined
  unfolding new_connection accepted accept set_ip_port getfd
  accept_refused_undefined api inet address channel_address garbage stale order a cb v set refused
        two small there =
      rw set (
        newconnection_undefined order address channel_address
          (accepted api inet v.sys garbage stale a).0
          (record v { sys = (accepted api inet v.sys garbage stale a).1 }) refused two small there)
