-- ===== src/InetAddress.antt =====
-- include/InetAddress.h and src/InetAddress.cpp.
use net_module.Base.{ℕ, List}
use net_module.System.{SockaddrIn, InetApi, af_inet}

pub record InetAddress : Type 0 where
  pub addr : SockaddrIn

-- `InetAddress(const sockaddr_in)`.
abbrev pub of_sockaddr : SockaddrIn → InetAddress
of_sockaddr addr = record { addr = addr }

unfoldable pub get_addr : InetAddress → SockaddrIn
get_addr a = a.addr

unfoldable pub set_addr : InetAddress → SockaddrIn → InetAddress
set_addr a client_addr = record a { addr = client_addr }

module _ (inet : InetApi) where
  -- `InetAddress(const std::string &, uint16_t)`.
  unfoldable pub of_ip_port : List ℕ → ℕ → InetAddress
  of_ip_port ip port = record {
    addr = record { sin_family = af_inet; sin_port = inet.htons port; s_addr = inet.inet_addr ip };
  }

  unfoldable pub get_ip : InetAddress → List ℕ
  get_ip a = inet.inet_ntoa a.addr.s_addr

  unfoldable pub get_port : InetAddress → ℕ
  get_port a = inet.ntohs a.addr.sin_port
