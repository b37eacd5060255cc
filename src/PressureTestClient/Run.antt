-- ===== src/PressureTestClient/Run.antt =====
-- `main` of example/PressureTestClient.cpp.
use net_module.Base.{
  ℕ, zero, suc, Bool, true, false, not, List, [], ◌∷◌, ◌++◌, Option, none, some, Result, ok, err,
  waiting, ◌>>=◌, ◌==◌, if◌then◌else◌,
}
use net_module.Base.Word.{minus_one}
use net_module.Base.Text.{zeros, overwrite}
use Prim.Native.Nat.{bit_and, bit_or}
use net_module.System.{
  SocketApi, InetApi, EpollApi, EpollEvent, add, modify, epollin, epollout, SendApi, PeerApi,
  PollApi, Received, received, recv_failed, af_inet,
}
use net_module.PressureTestClient.{sent_bytes, recv_message}

-- `RecvBuffer`, the lines that were printed for messages, oldest first, and the system.
pub record Generator (S : Type 0) : Type 0 where
  pub recv_buffer : List ℕ
  pub printed : List (List ℕ)
  pub sys : S

-- In the loop still, or a `return`.
pub data Outcome (S : Type 0) : Type 0 where
  running : Generator S → Outcome S
  returned : ℕ → Generator S → Outcome S

-- `SERVER_ADDRESS`, "172.17.32.175".
abbrev pub server_name : List ℕ
server_name = 49 ∷ 55 ∷ 50 ∷ 46 ∷ 49 ∷ 55 ∷ 46 ∷ 51 ∷ 50 ∷ 46 ∷ 49 ∷ 55 ∷ 53 ∷ []

-- The size of `SEND_MESSAGE` in UTF-8.
abbrev pub message_size : ℕ
message_size = 36

abbrev pub client_max_events : ℕ
client_max_events = 10

abbrev pub buffer_size : ℕ
buffer_size = 1024

-- The generator before its first event.
abbrev pub started : {S : Type 0} → S → Generator S
started s = record { recv_buffer = zeros buffer_size; printed = []; sys = s }

module _ {S : Type 0} (peer : PeerApi S) where
  -- `close(clientSocket); close(epollFd);`.
  abbrev pub shut : ℕ → ℕ → Generator S → Generator S
  shut client_socket epoll_fd g = record g {
    sys = peer.close (peer.close g.sys client_socket) epoll_fd;
  }

module _ {S : Type 0} (epoll : EpollApi S) (sender : SendApi S) (peer : PeerApi S)
    (object : S → List ℕ) where
  abbrev pub watch_reading : ℕ → ℕ → Generator S → Option S → Outcome S
  watch_reading client_socket epoll_fd g none = returned 1 (shut peer client_socket epoll_fd g)
  watch_reading client_socket epoll_fd g (some s) = running (record g { sys = s })

  -- The branch for `EPOLLOUT`. The string object of the message stands at `object`.
  unfoldable pub write_event : ℕ → ℕ → Generator S → Result (Outcome S)
  write_event client_socket epoll_fd g = do
    bytes ← sent_bytes (object g.sys) message_size
    let (n, s) = sender.send g.sys client_socket bytes
    let g' = record g { sys = s }
    if n == minus_one
        then ok (returned 1 (shut peer client_socket epoll_fd g'))
        else ok (
            watch_reading client_socket epoll_fd g' (
              epoll.ctl s epoll_fd modify client_socket
                (record { events = epollin; ptr = client_socket })))

  -- What a message does.
  abbrev pub show : Generator S → Bool × List ℕ → Generator S
  show g (true, text) = record g { printed = g.printed ++ text ∷ [] }
  show g (false, text) = g

  abbrev pub unpack_answer : ℕ → ℕ → Generator S → Received → Result (Outcome S)
  unpack_answer client_socket epoll_fd g recv_failed =
      ok (returned 1 (shut peer client_socket epoll_fd g))
  unpack_answer client_socket epoll_fd g (received []) =
      ok (returned 0 (shut peer client_socket epoll_fd g))
  unpack_answer client_socket epoll_fd g (received (b ∷ bytes)) = do
    let g' = record g { recv_buffer = overwrite (b ∷ bytes) g.recv_buffer }
    answer ← recv_message g'.recv_buffer []
    ok (running (show g' answer))

  -- The branch for `EPOLLIN`.
  unfoldable pub read_event : ℕ → ℕ → Generator S → Result (Outcome S)
  read_event client_socket epoll_fd g =
      let (answer, s) = peer.recv g.sys client_socket buffer_size in
      unpack_answer client_socket epoll_fd (record g { sys = s }) answer

  unfoldable pub on_event : ℕ → ℕ → ℕ → Generator S → Result (Outcome S)
  on_event client_socket epoll_fd mask g =
      if not (bit_and mask epollout == 0)
      then write_event client_socket epoll_fd g
      else if not (bit_and mask epollin == 0)
      then read_event client_socket epoll_fd g
      else ok (running g)

  -- The inner loop.
  unfoldable pub on_events : ℕ → ℕ → List EpollEvent → Generator S → Result (Outcome S)
  on_events client_socket epoll_fd [] g = ok (running g)
  on_events client_socket epoll_fd (e ∷ es) g = do
    outcome ← on_event client_socket epoll_fd e.events g
    elim outcome [
      | running g' ↦ on_events client_socket epoll_fd es g'
      | returned status g' ↦ ok (returned status g')
    ]

  -- `while (true)`, on fuel, and what follows a `break`.
  unfoldable pub event_loop : PollApi S → ℕ → ℕ → ℕ → Generator S → Result (ℕ × Generator S)
  event_loop poll client_socket epoll_fd zero g = err waiting
  event_loop poll client_socket epoll_fd (suc fuel) g =
      let (events, s) = poll.epoll_wait g.sys epoll_fd client_max_events in
      let woken = record g { sys = s } in
      elim events [
        | none ↦ ok (0, shut peer client_socket epoll_fd woken)
        | some es ↦ do
          outcome ← on_events client_socket epoll_fd es woken
          elim outcome [
            | running g' ↦ event_loop poll client_socket epoll_fd fuel g'
            | returned status g' ↦ ok (status, g')
          ]
      ]

  -- `main` once it is connected.
  unfoldable pub watch : PollApi S → ℕ → ℕ → S → Result (ℕ × Generator S)
  watch poll fuel client_socket s =
      let (epoll_fd, s₁) = poll.epoll_create1 s in
      if epoll_fd == minus_one
      then ok (1, started (peer.close s₁ client_socket))
      else elim (epoll.ctl s₁ epoll_fd add client_socket
          (record { events = bit_or epollout epollin; ptr = client_socket })) [
            | none ↦ ok (1, shut peer client_socket epoll_fd (started s₁))
            | some s₂ ↦ event_loop poll client_socket epoll_fd fuel (started s₂)
          ]

  unfoldable pub main : SocketApi S → InetApi → PollApi S → ℕ → S → Result (ℕ × Generator S)
  main sockets inet poll fuel s =
      let (client_socket, s₁) = sockets.socket s in
      if client_socket == minus_one then ok (1, started s₁) else elim (poll.inet_pton server_name) [
        | none ↦ ok (1, started (peer.close s₁ client_socket))
        | some a ↦
            let (connected, s₂) =
              peer.connect s₁ client_socket
                (record { sin_family = af_inet; sin_port = inet.htons 9090; s_addr = a }) in
            if not connected
            then ok (1, started (peer.close s₂ client_socket))
            else watch poll fuel client_socket s₂
      ]
