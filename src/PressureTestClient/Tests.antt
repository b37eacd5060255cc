-- ===== src/PressureTestClient/Tests.antt =====
-- The message of the load generator has 36 bytes; the string object has 32, and other memory follows.
use net_module.Base.{ℕ, ◌≡◌, refl, false, List, [], ◌∷◌, some, ok, arith, ltb, length, ◌^◌}
use net_module.Base.Text.{zeros}
use net_module.Base.{true, ◌==◌, if◌then◌else◌}
use net_module.Base.Word.{minus_one}
use net_module.System.{epollin, modify, EpollApi, SendApi, PeerApi, SocketApi, PollApi, received}
use net_module.Buffer.{make, append, pick_message}
use net_module.Buffer.Erase.{frame}
use net_module.PressureTestClient.Run.{
  Generator, running, started, write_event, read_event, on_event, on_events, event_loop, watch,
  main,
}
use net_module.PressureTestClient.Stall.{write_event-stalls}
use net_module.PressureTestClient.Descriptors.{Table, with_open, after_close, Same, DescriptorLaws}
use net_module.PressureTestClient.Descriptors.Main.{main_closes}
use net_module.Simulation.{
  World, quiet_world, enter, epoll, epoll_laws, open_sender, open_laws, open_sender-whole, inet,
  silent_peer, control_quiet, take_bytes-interests,
}
use net_module.Simulation.Pipe.{Pipe}

-- Descriptor 3 is in the epoll instance of the number that comes next.
abbrev taken : World
taken = enter quiet_world 1_700_000_000_000_000_000 3 (some (record { events = 5; ptr = 3 }))

abbrev memory : {S : Type 0} → S → List ℕ
memory s = zeros 64

-- A system that is its table of descriptors: sockets are 3, epoll instances are 4, and the server answers
-- nothing and goes.
abbrev bare_epoll : EpollApi Table
bare_epoll = record { ctl = λ t ep op fd e. some t }

abbrev bare_sender : SendApi Table
bare_sender = record { send = λ t fd m. (length m, t) }

abbrev bare_peer : PeerApi Table
bare_peer = record {
  connect = λ t fd address. (true, t);
  recv = λ t fd n. (received [], t);
  close = λ t fd. after_close fd t;
}

abbrev opens : ℕ → Table → ℕ × Table
opens fd t = if t.is_open fd then (minus_one, t) else (fd, with_open fd t)

abbrev bare_sockets : SocketApi Table
bare_sockets = record {
  socket = opens 3;
  setsockopt = λ t fd option on. t;
  bind = λ t fd address. (true, t);
  listen = λ t fd n. (true, t);
  accept4 = λ t fd. ((minus_one, record { sin_family = 0; sin_port = 0; s_addr = 0 }), t);
}

abbrev bare_polls : PollApi Table
bare_polls = record {
  inet_pton = λ name. some 1;
  epoll_create1 = opens 4;
  epoll_wait = λ t ep n. (some (record { events = epollin; ptr = 3 } ∷ []), t);
}

bare_laws : DescriptorLaws bare_epoll bare_sender bare_peer bare_sockets bare_polls
bare_laws = record {
  table = λ t. t;
  socket_lem = λ t opened. ground arith;
  socket_refused = λ t refused. ground arith;
  create_lem = λ t opened. ground arith;
  create_refused = λ t refused. ground arith;
  close_lem = λ t fd. refl;
  connect_lem = λ t fd a. refl;
  recv_lem = λ t fd n. refl;
  send_lem = λ t fd m. refl;
  wait_lem = λ t ep n. refl;
  control_lem = λ t u ep fd op e h. cc;
}

-- Descriptor 1 is open, and the load generator runs until the server has gone.
abbrev console : Table
console = record { is_open = λ j. j == 1; strays = 0 }

abbrev gone : Generator Table
gone = started (after_close 4 (after_close 3 (with_open 4 (with_open 3 console))))

returned_0 :
    main bare_epoll bare_sender bare_peer memory bare_sockets inet bare_polls 9 console
    ≡ ok (0, gone)
unfolding main watch event_loop on_events on_event read_event
returned_0 = refl

main_closes_example : Same gone.sys console
unfolding bare_laws
main_closes_example =
    main_closes bare_epoll bare_sender bare_peer memory bare_sockets inet bare_polls bare_laws 9 0
      console gone returned_0

write_event-stalls_example :
    (t : World) × (write_event epoll open_sender silent_peer memory 3 1_700_000_000_000_000_000
        (started taken)
      ≡ ok (running (record (started taken) { sys = t })))
    × (t.wire 3 ≡ 36 ∷ [])
    × (t.interests 1_700_000_000_000_000_000 3 ≡ some (record { events = epollin; ptr = 3 }))
    × (pick_message (λ i. 0) (append (make 1) (36 ∷ [])) []
        ≡ ok (record { found = false; buffer = append (make 1) (36 ∷ []); message = [] }))
write_event-stalls_example =
    write_event-stalls epoll epoll_laws open_sender open_laws silent_peer memory
      (λ w fd m ep j. take_bytes-interests (ltb (length m) (2 ^ 31)) w fd m ep j) open_sender-whole
      (λ w v ep fd j e h. control_quiet w v ep fd j modify e h) 3 1_700_000_000_000_000_000
      (started taken) _ (λ i. 0) [] refl (omega arith) (λ i. omega arith)

-- The answer "hi".
abbrev greeted : Pipe
greeted fd = frame (104 ∷ 105 ∷ [])
