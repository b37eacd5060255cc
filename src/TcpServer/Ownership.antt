-- ===== src/TcpServer/Ownership.antt =====
-- Who keeps a connection: the shared pointers in the tables of the server and of its loops, the
-- destructor of the socket (src/Socket.cpp, lines 24 to 26), and which descriptors are open.
pub mod Accepted
pub mod Fresh
pub mod Kept
pub mod TimedOut
use net_module.Base.{
  ℕ, ◌≡◌, ◌∙◌, Bool, true, false, List, [], ◌∷◌, some, Result, ok, ◌==◌, ==_iff, if◌then◌else◌,
  get_elem?, set_at,
}
use net_module.Base.IntMap.{lookup, erase}
use net_module.System.{EpollApi, ClockApi}
use net_module.Socket.{Socket, getfd}
use net_module.EventLoop.{EventLoop}
use net_module.Connection.{Connection, get_cfd}
use net_module.TcpServer.{
  ServerHandler, UserCall, Service, ArgumentOrder, newconnection, closeconnection, errorconnection,
  removeconn,
}

-- A table has a pointer to the connection at an address.
unfoldable pub held_in : ℕ → List (ℕ × ℕ) → Bool
held_in address [] = false
held_in address ((fd, a) ∷ table) =
    let later = held_in address table in if a == address then true else later

unfoldable pub held_by_loop : ℕ → List (EventLoop ServerHandler ℕ) → Bool
held_by_loop address [] = false
held_by_loop address (l ∷ ls) =
    let later = held_by_loop address ls in if held_in address l.conns then true else later

-- The descriptors of sockets that are open.
abbrev pub Descriptors : Type 0
Descriptors = ℕ → Bool

abbrev pub opened : ℕ → Descriptors → Descriptors
opened fd fds j = if fd == j then true else fds j

-- `Socket::~Socket`.
abbrev pub closed : ℕ → Descriptors → Descriptors
closed fd fds j = if fd == j then false else fds j

module _ {S U K : Type 0} where
  unfoldable pub is_held : ℕ → Service S U K → Bool
  is_held address v =
      if held_in address v.server.conns then true else held_by_loop address v.server.subloops

  -- A pointer to the connection at an address, on descriptor `fd`, has gone: with the last one the
  -- connection is destroyed, and its socket with it.
  unfoldable pub drop : ℕ → ℕ → Service S U K → Descriptors → Descriptors
  drop address fd v fds = if is_held address v then fds else closed fd fds

  -- `conns_.erase(conn.first)` in `handletimer` of loop `i`, without the step of the iterator after it.
  unfoldable pub erase_in_loop : ℕ → EventLoop ServerHandler ℕ → ℕ → Service S U K → Service S U K
  erase_in_loop i l fd v = record v {
    server = record (v.server) {
      subloops = set_at v.server.subloops i (record l { conns = erase fd l.conns });
    };
  }

  -- The connection on a descriptor is in the table of loop `i`.
  abbrev pub IsIn : ℕ → ℕ → ℕ → Service S U K → Type 0
  IsIn i fd address v =
      (l : EventLoop ServerHandler ℕ) × (get_elem? v.server.subloops i ≡ some l)
      × (lookup fd l.conns ≡ some address)

module _ {S U K : Type 0} (act : K → UserCall → Service S U K → Result (Service S U K))
    (epoll : EpollApi S) (clock : ClockApi S) where
  -- The calls that change a table, with what they open and close. `accept` returns a descriptor that is
  -- not open, and `new` an address that no table has. A connection that its loop keeps is closed or fails,
  -- in any order and more than once; a loop's timer takes one out of the table of the loop, and then
  -- `removeconn` takes it out of that of the server. In the source the `++` of the range-for on the iterator
  -- that was erased comes after that, and is undefined (`visit` in EventLoop.Timer); the lives go on
  -- behind it as if it left the tables alone, so that they are more than the program has.
  pub data Lives (v : Service S U K) (fds : Descriptors)
      : Service S U K → Descriptors → Type 0 where
    at_start : Lives v fds v fds
    accepts :
        {w : Service S U K} {now : Descriptors} (order : ArgumentOrder) (x : Service S U K)
        (address channel_address : ℕ) (sock : Socket)
        → Lives v fds w now
        → now (getfd sock) ≡ false
        → is_held address w ≡ false
        → newconnection act order epoll clock address channel_address sock w ≡ ok x
        → Lives v fds x (opened (getfd sock) now)
    closes :
        {w : Service S U K} {now : Descriptors} (x : Service S U K) (i address : ℕ)
        (conn : Connection ServerHandler)
        → Lives v fds w now
        → lookup address w.memory ≡ some conn
        → IsIn i (get_cfd conn) address w
        → closeconnection act address w ≡ ok x
        → Lives v fds x (drop address (get_cfd conn) x now)
    fails :
        {w : Service S U K} {now : Descriptors} (x : Service S U K) (i address : ℕ)
        (conn : Connection ServerHandler)
        → Lives v fds w now
        → lookup address w.memory ≡ some conn
        → IsIn i (get_cfd conn) address w
        → errorconnection act address w ≡ ok x
        → Lives v fds x (drop address (get_cfd conn) x now)
    times_out :
        {w : Service S U K} {now : Descriptors} (x : Service S U K) (i fd address : ℕ)
        (l : EventLoop ServerHandler ℕ)
        → Lives v fds w now
        → get_elem? w.server.subloops i ≡ some l
        → lookup fd l.conns ≡ some address
        → removeconn act fd (erase_in_loop i l fd w) ≡ ok x
        → Lives v fds x (drop address fd x now)
