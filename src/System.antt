-- ===== src/System.antt =====
-- The operating system as the program sees it: parameters of the model. `S` is the state of the
-- system. Each interface has the calls, and beside it the documented behaviour that is relied on.
use net_module.Base.Word.{is_negative}
use net_module.Base.{
  true, false, ℕ, ◌≡◌, List, ◌++◌, Option, none, some, ◌==◌, ◌&&◌, if◌then◌else◌, take, ◌<◌, ◌≤◌,
  length, Bool, ◌^◌,
}

-- `struct epoll_event`: the mask, and the pointer in `data`.
pub record EpollEvent : Type 0 where
  pub events : ℕ
  pub ptr : ℕ

pub data ControlOp : Type 0 where
  add modify delete : ControlOp

-- sys/epoll.h.
abbrev pub epollin : ℕ
epollin = 0x001

abbrev pub epollpri : ℕ
epollpri = 0x002

abbrev pub epollout : ℕ
epollout = 0x004

abbrev pub epollerr : ℕ
epollerr = 0x008

abbrev pub epollhup : ℕ
epollhup = 0x010

abbrev pub epollrdhup : ℕ
epollrdhup = 0x2000

abbrev pub epollet : ℕ
epollet = 0x8000_0000

-- `epoll_ctl(epollfd, op, fd, event)`; `none` is -1.
pub record EpollApi (S : Type 0) : Type 0 where
  pub ctl : S → ℕ → ControlOp → ℕ → EpollEvent → Option S

-- The entry of one fd in one epoll instance after a call of `epoll_ctl` on another or the same.
abbrev pub updated :
    (ℕ → ℕ → Option EpollEvent) → ℕ → ℕ → Option EpollEvent → ℕ → ℕ → Option EpollEvent
updated r ep fd e ep' fd' = if ep == ep' && fd == fd' then e else r ep' fd'

-- epoll_ctl(2): an instance holds at most one entry for a descriptor. ADD fails when it is there
-- (EEXIST), MOD and DEL when it is not (ENOENT); a descriptor that is there can be changed and
-- taken out.
pub record EpollLaws {S : Type 0} (api : EpollApi S) : Type 0 where
  pub registered : S → ℕ → ℕ → Option EpollEvent
  pub add_lem :
      (s t : S) (ep fd : ℕ) (e : EpollEvent)
      → api.ctl s ep add fd e ≡ some t
      → (ep' fd' : ℕ) → registered t ep' fd' ≡ updated (registered s) ep fd (some e) ep' fd'
  pub add_again :
      (s : S) (ep fd : ℕ) (e f : EpollEvent)
      → registered s ep fd ≡ some f
      → api.ctl s ep add fd e ≡ none
  pub modify_lem :
      (s t : S) (ep fd : ℕ) (e : EpollEvent)
      → api.ctl s ep modify fd e ≡ some t
      → (ep' fd' : ℕ) → registered t ep' fd' ≡ updated (registered s) ep fd (some e) ep' fd'
  pub modify_works :
      (s : S) (ep fd : ℕ) (e f : EpollEvent)
      → registered s ep fd ≡ some f
      → (t : S) × (api.ctl s ep modify fd e ≡ some t)
  pub modify_missing :
      (s : S) (ep fd : ℕ) (e : EpollEvent)
      → registered s ep fd ≡ none
      → api.ctl s ep modify fd e ≡ none
  pub delete_lem :
      (s t : S) (ep fd : ℕ) (e : EpollEvent)
      → api.ctl s ep delete fd e ≡ some t
      → (ep' fd' : ℕ) → registered t ep' fd' ≡ updated (registered s) ep fd none ep' fd'
  pub delete_works :
      (s : S) (ep fd : ℕ) (e f : EpollEvent)
      → registered s ep fd ≡ some f
      → (t : S) × (api.ctl s ep delete fd e ≡ some t)

-- `send(fd, data, size, 0)`: the `int` that it returns, -1 for an error, and the new state.
pub record SendApi (S : Type 0) : Type 0 where
  pub send : S → ℕ → List ℕ → ℕ × S

-- `std::chrono::system_clock::now`, in ticks of a nanosecond since the epoch.
pub record ClockApi (S : Type 0) : Type 0 where
  pub now : S → ℕ × S

-- send(2): a return that is not negative is the number of bytes, from the front, that the peer will
-- get; on an error it gets none.
pub record SendLaws {S : Type 0} (api : SendApi S) : Type 0 where
  pub wire : S → ℕ → List ℕ
  pub sent_lem :
      (s : S) (fd : ℕ) (message : List ℕ)
      → is_negative (api.send s fd message).0 ≡ false
      → wire (api.send s fd message).1 fd ≡ wire s fd ++ take (api.send s fd message).0 message
  pub failed_lem :
      (s : S) (fd : ℕ) (message : List ℕ)
      → is_negative (api.send s fd message).0 ≡ true
      → wire (api.send s fd message).1 fd ≡ wire s fd

-- eventfd(2), timerfd_create(2), timerfd_settime(2) with seconds to one expiration, and time(2).
pub record TimerApi (S : Type 0) : Type 0 where
  pub eventfd : S → ℕ × S
  pub timerfd_create : S → ℕ × S
  pub timerfd_settime : S → ℕ → ℕ → S
  pub time : S → ℕ × S

-- `sockaddr_in`: family, port and address in network order.
pub record SockaddrIn : Type 0 where
  pub sin_family : ℕ
  pub sin_port : ℕ
  pub s_addr : ℕ

abbrev pub af_inet : ℕ
af_inet = 2

-- htons(3), ntohs(3), inet_addr(3) and inet_ntoa(3).
pub record InetApi : Type 0 where
  pub htons : ℕ → ℕ
  pub ntohs : ℕ → ℕ
  pub inet_addr : List ℕ → ℕ
  pub inet_ntoa : ℕ → List ℕ

pub record InetLaws (inet : InetApi) : Type 0 where
  pub ntohs-htons : (port : ℕ) → port < 2 ^ 16 → inet.ntohs (inet.htons port) ≡ port

pub data SocketOption : Type 0 where
  so_reuseaddr so_reuseport tcp_nodelay so_keepalive : SocketOption

-- socket(2), setsockopt(2), bind(2), listen(2) and accept4(2). `true` is success; what
-- `setsockopt` returns is not used. A refused `accept4` returns -1 and leaves the address as
-- it found it, whatever that was.
pub record SocketApi (S : Type 0) : Type 0 where
  pub socket : S → ℕ × S
  pub setsockopt : S → ℕ → SocketOption → Bool → S
  pub bind : S → ℕ → SockaddrIn → Bool × S
  pub listen : S → ℕ → ℕ → Bool × S
  pub accept4 : S → ℕ → (ℕ × SockaddrIn) × S

-- bind(2) and listen(2): a call that succeeds has bound the descriptor to the address, or has it accept
-- connections; the latter leaves the address. Neither is touched by epoll_ctl(2).
pub record SocketLaws {S : Type 0} (api : SocketApi S) (epoll : EpollApi S) : Type 0 where
  pub bound_to : S → ℕ → Option SockaddrIn
  pub is_listening : S → ℕ → Bool
  pub bind_lem :
      (s : S) (fd : ℕ) (address : SockaddrIn)
      → (api.bind s fd address).0 ≡ true
      → bound_to (api.bind s fd address).1 fd ≡ some address
  pub listen_lem :
      (s : S) (fd n : ℕ)
      → (api.listen s fd n).0 ≡ true
      → (is_listening (api.listen s fd n).1 fd ≡ true)
        × (bound_to (api.listen s fd n).1 fd ≡ bound_to s fd)
  pub control_lem :
      (s t : S) (ep fd j : ℕ) (op : ControlOp) (e : EpollEvent)
      → epoll.ctl s ep op fd e ≡ some t
      → (is_listening t j ≡ is_listening s j) × (bound_to t j ≡ bound_to s j)

-- What a constructor takes from the system: `new`, by the address it returns, and epoll_create(2).
pub record MakeApi (S : Type 0) : Type 0 where
  pub new : S → ℕ × S
  pub epoll_create : S → ℕ × S

-- What `recv` gives: the bytes that it wrote into the caller's memory, none at the end of the
-- stream, or -1.
pub data Received : Type 0 where
  received : List ℕ → Received
  recv_failed : Received

-- connect(2), recv(2) with a descriptor and a number of bytes, and close(2).
pub record PeerApi (S : Type 0) : Type 0 where
  pub connect : S → ℕ → SockaddrIn → Bool × S
  pub recv : S → ℕ → ℕ → Received × S
  pub close : S → ℕ → S

-- recv(2): no more bytes are written than were asked for.
pub record PeerLaws {S : Type 0} (peer : PeerApi S) : Type 0 where
  pub recv_lem :
      (s t : S) (fd n : ℕ) (bytes : List ℕ)
      → peer.recv s fd n ≡ (received bytes, t)
      → length bytes ≤ n

-- inet_pton(3) for a text, `none` if that is no address; epoll_create1(2); and epoll_wait(2) for at
-- most so many events and without a timeout, `none` for -1.
pub record PollApi (S : Type 0) : Type 0 where
  pub inet_pton : List ℕ → Option ℕ
  pub epoll_create1 : S → ℕ × S
  pub epoll_wait : S → ℕ → ℕ → Option (List EpollEvent) × S

-- epoll_wait(2) on an epoll instance, for at most so many events, with a timeout in milliseconds; `none`
-- for -1.
pub record WaitApi (S : Type 0) : Type 0 where
  pub epoll_wait : S → ℕ → ℕ → ℕ → Option (List EpollEvent) × S
