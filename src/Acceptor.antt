-- ===== src/Acceptor.antt =====
-- include/Acceptor.h and src/Acceptor.cpp: the listening socket of the main loop.
pub mod Listening
mod Tests
use net_module.Base.{ℕ, ◌≡◌, true, List, Option, none, some, Result, ok, ◌>>=◌}
use net_module.System.{EpollApi, InetApi, SocketApi}
use net_module.InetAddress
use net_module.InetAddress.{InetAddress, of_ip_port}
use net_module.Socket
use net_module.Socket.{
  Socket, getfd, set_ip_port, create_nonblocking, setreuseaddr, settcpnodelay, setreuseport,
  setkeepalive, bind, listen, accept,
}
use net_module.Channel
use net_module.Channel.{Channel, call, setread_callback}
use net_module.Epoller.{enable_reading}

-- The member function that an acceptor binds to its channel.
pub data AcceptHandler : Type 0 where
  new_connection_bound : AcceptHandler

-- `K` names the bound callbacks.
pub record Acceptor (K : Type 0) : Type 0 where
  pub serv_sock : Socket
  pub accept_channel : Channel AcceptHandler
  pub new_conn_cb : Option K

-- The length of the queue of `listen`, its default.
abbrev pub backlog : ℕ
backlog = 128

unfoldable pub set_new_conn_cb : {K : Type 0} → Acceptor K → K → Acceptor K
set_new_conn_cb a cb = record a { new_conn_cb = some cb }

-- The four options of the constructor, in order.
abbrev pub set_options : {S : Type 0} → SocketApi S → S → Socket → S
set_options api s sock =
    setkeepalive api
      (setreuseport api (settcpnodelay api (setreuseaddr api s sock true) sock true) sock true) sock
      true

module _ {S K : Type 0} (api : SocketApi S) (inet : InetApi) where
  -- The constructor, for a channel at an address inside the acceptor; `garbage` was in `port_`.
  unfoldable pub make : EpollApi S → S → ℕ → ℕ → ℕ → List ℕ → ℕ → Result (Acceptor K × S)
  make epoll s garbage address epollfd ip port = do
    (fd, s₁) ← create_nonblocking api s
    let sock = Socket.make garbage fd
    let channel = Channel.make address epollfd (getfd sock)
    let servaddr = of_ip_port inet ip port
    (sock', s₂) ← bind api inet (set_options api s₁ sock) sock servaddr
    s₃ ← listen api s₂ sock' backlog
    (channel', s₄) ← enable_reading epoll s₃ (setread_callback channel new_connection_bound)
    ok (record { serv_sock = sock'; accept_channel = channel'; new_conn_cb = none }, s₄)

  -- The socket that `newConnection` makes, whatever `accept` returned. `stale` is in the local address
  -- object.
  unfoldable pub accepted : S → ℕ → InetAddress → Acceptor K → Socket × S
  accepted s garbage stale a =
      let (connfd, client_addr, s') = accept api s a.serv_sock stale in
      (
        set_ip_port (Socket.make garbage connfd) (InetAddress.get_ip inet client_addr)
            (InetAddress.get_port inet client_addr),
        s',
      )

  -- `newConnection`, where `act` is what the callbacks do with the socket.
  unfoldable pub new_connection :
      {X : Type 0}
      → (K → Socket → S → X → Result X)
      → S
      → ℕ
      → InetAddress
      → Acceptor K
      → X
      → Result X
  new_connection act s garbage stale a x = do
    let (sock, s') = accepted s garbage stale a
    cb ← call a.new_conn_cb
    act cb sock s' x
