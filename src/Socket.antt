-- ===== src/Socket.antt =====
-- include/Socket.h and src/Socket.cpp.
use net_module.Base.{ℕ, Bool, List, [], Result, ok, err, exit_process, if◌then◌else◌}
use net_module.Base.Word.{is_negative}
use net_module.System.{InetApi, SocketApi, so_reuseaddr, so_reuseport, tcp_nodelay, so_keepalive}
use net_module.InetAddress
use net_module.InetAddress.{InetAddress, get_addr, set_addr}

-- `fd_`, `ip_` and `port_`.
pub record Socket : Type 0 where
  pub fd : ℕ
  pub ip : List ℕ
  pub port : ℕ

unfoldable pub getfd : Socket → ℕ
getfd s = s.fd

unfoldable pub get_ip : Socket → List ℕ
get_ip s = s.ip

unfoldable pub get_port : Socket → ℕ
get_port s = s.port

unfoldable pub set_ip_port : Socket → List ℕ → ℕ → Socket
set_ip_port s ip port = record s { ip = ip; port = port }

-- `Socket(int fd)`; `port_` holds whatever it held.
abbrev pub make : ℕ → ℕ → Socket
make garbage fd = record { fd = fd; ip = []; port = garbage }

module _ {S : Type 0} (api : SocketApi S) where
  unfoldable pub create_nonblocking : S → Result (ℕ × S)
  create_nonblocking s =
      let (listenfd, s') = api.socket s in
      if is_negative listenfd then err exit_process else ok (listenfd, s')

  unfoldable pub setreuseaddr : S → Socket → Bool → S
  setreuseaddr s sock on = api.setsockopt s sock.fd so_reuseaddr on

  unfoldable pub setreuseport : S → Socket → Bool → S
  setreuseport s sock on = api.setsockopt s sock.fd so_reuseport on

  unfoldable pub settcpnodelay : S → Socket → Bool → S
  settcpnodelay s sock on = api.setsockopt s sock.fd tcp_nodelay on

  unfoldable pub setkeepalive : S → Socket → Bool → S
  setkeepalive s sock on = api.setsockopt s sock.fd so_keepalive on

  unfoldable pub bind : InetApi → S → Socket → InetAddress → Result (Socket × S)
  unfolding set_ip_port
  bind inet s sock servaddr =
      let (bound, s') = api.bind s sock.fd (get_addr servaddr) in
      if bound
      then ok (
        set_ip_port sock (InetAddress.get_ip inet servaddr) (InetAddress.get_port inet servaddr),
        s',
      )
      else err exit_process

  unfoldable pub listen : S → Socket → ℕ → Result S
  listen s sock n =
      let (listening, s') = api.listen s sock.fd n in if listening then ok s' else err exit_process

  -- The descriptor, and the caller's address object with the peer's address.
  unfoldable pub accept : S → Socket → InetAddress → ℕ × InetAddress × S
  unfolding set_addr
  accept s sock clientaddr =
      let ((connfd, peeraddr), s') = api.accept4 s sock.fd in
      (connfd, set_addr clientaddr peeraddr, s')
