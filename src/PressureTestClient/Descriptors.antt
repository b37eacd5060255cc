-- ===== src/PressureTestClient/Descriptors.antt =====
-- Which descriptors are open, and what the calls on them do.
pub mod Loop
pub mod Main
use net_module.Base.{
  ℕ, suc, ◌≡◌, ◌∙◌, Bool, true, false, List, [], ◌∷◌, some, ◌==◌, >>=-IfOk, ◌>>=◌, if◌then◌else◌,
  arith,
}
use net_module.Base.Word.{minus_one}
use net_module.System.{
  SocketApi, EpollApi, EpollEvent, ControlOp, SockaddrIn, SendApi, PeerApi, PollApi,
}

-- The open descriptors of a process, and how many calls of `close` were on one that was not open.
pub record Table : Type 0 where
  pub is_open : ℕ → Bool
  pub strays : ℕ

abbrev pub with_open : ℕ → Table → Table
with_open fd t = record t { is_open = λ j. if fd == j then true else t.is_open j }

abbrev pub after_close : ℕ → Table → Table
after_close fd t =
    if t.is_open fd
    then record t { is_open = λ j. if fd == j then false else t.is_open j }
    else record t { strays = suc t.strays }

-- The same descriptors are open, and no `close` more went astray.
pub record Same (t u : Table) : Type 0 where
  pub open_lem : (j : ℕ) → t.is_open j ≡ u.is_open j
  pub strays_lem : t.strays ≡ u.strays

-- socket(2), epoll_create1(2) and close(2): a call that succeeds returns a descriptor that was not open, and
-- opens it; `close` closes it. The other calls leave the descriptors alone.
pub record DescriptorLaws {S : Type 0} (epoll : EpollApi S) (sender : SendApi S) (peer : PeerApi S)
    (sockets : SocketApi S) (poll : PollApi S) : Type 0 where
  pub table : S → Table
  pub socket_lem :
      (s : S)
      → ((sockets.socket s).0 == minus_one) ≡ false
      → ((table s).is_open (sockets.socket s).0 ≡ false)
        × (table (sockets.socket s).1 ≡ with_open (sockets.socket s).0 (table s))
  pub socket_refused :
      (s : S) → ((sockets.socket s).0 == minus_one) ≡ true → table (sockets.socket s).1 ≡ table s
  pub create_lem :
      (s : S)
      → ((poll.epoll_create1 s).0 == minus_one) ≡ false
      → ((table s).is_open (poll.epoll_create1 s).0 ≡ false)
        × (table (poll.epoll_create1 s).1 ≡ with_open (poll.epoll_create1 s).0 (table s))
  pub create_refused :
      (s : S)
      → ((poll.epoll_create1 s).0 == minus_one) ≡ true
      → table (poll.epoll_create1 s).1 ≡ table s
  pub close_lem : (s : S) (fd : ℕ) → table (peer.close s fd) ≡ after_close fd (table s)
  pub connect_lem : (s : S) (fd : ℕ) (a : SockaddrIn) → table (peer.connect s fd a).1 ≡ table s
  pub recv_lem : (s : S) (fd n : ℕ) → table (peer.recv s fd n).1 ≡ table s
  pub send_lem : (s : S) (fd : ℕ) (m : List ℕ) → table (sender.send s fd m).1 ≡ table s
  pub wait_lem : (s : S) (ep n : ℕ) → table (poll.epoll_wait s ep n).1 ≡ table s
  pub control_lem :
      (s t : S) (ep fd : ℕ) (op : ControlOp) (e : EpollEvent)
      → epoll.ctl s ep op fd e ≡ some t
      → table t ≡ table s

-- A socket that was opened and closed.
pub one_back :
    (fd : ℕ) (t : Table) → t.is_open fd ≡ false → Same (after_close fd (with_open fd t)) t
one_back fd t new = record { open_lem = λ j. ground arith; strays_lem = ground arith }

pub two_back :
    (fd ep : ℕ) (t : Table)
    → t.is_open fd ≡ false
    → (with_open fd t).is_open ep ≡ false
    → Same (after_close ep (after_close fd (with_open ep (with_open fd t)))) t
two_back fd ep t new later = record { open_lem = λ j. ground arith; strays_lem = ground arith }
