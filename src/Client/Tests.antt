-- ===== src/Client/Tests.antt =====
-- Clients with port 9090 and descriptor 3.
use net_module.Base.{ℕ, ◌≡◌, refl, true, List, [], ◌∷◌, ◌++◌, ok, length, arith, ◌≤◌, ==-refl}
use net_module.Base.Text.{atoi, digits, zeros}
use net_module.Buffer.{make, append_sep}
use net_module.Buffer.Erase.{frame}
use net_module.Client.{text, receive, round, rounds, main}
use net_module.Client.Rounds.{round-append_sep}
use net_module.Client.Answers.{PromptEcho, shown, main-echoed}
use net_module.Client.Served.{client_stream-echoed}
use net_module.Buffer.Framing.{frames}
use net_module.Client.Answers.{texts}
use net_module.Base.{ltb, ◌^◌}
use net_module.Base.Bits.{bit}
use net_module.Connection.{ReadAnswer, bytes, failed, eagain, get_cfd}
use net_module.Connection.Receive.{with_input}
use net_module.Connection.Receive.Stream.{drained, more}
use net_module.Connection.Events.Stream.{Arrivals, none_left, next, dispatch_events}
use net_module.Connection.Events.Output.{IsOutput}
use net_module.EchoServer.Bound.{Inner, echo_callbacks, within}
use net_module.EchoServer.Bound.Served.{Ready}
use net_module.EchoServer.Bound.Served.Tests.{session, outer, session-Ready}
use net_module.EchoServer.Tests.{clock_keeps}
use net_module.Simulation.{
  epoll, epoll_laws, clock_api, World, quiet_world, open_sender, open_laws, open_sender-whole,
  control_quiet, take_bytes-interests, sockets, inet, silent_peer,
}
use net_module.Simulation.Pipe.{Pipe, pipe_sender, pipe_peer}

-- "9090".
abbrev port : List ℕ
port = 57 ∷ 48 ∷ 57 ∷ 48 ∷ []

read_port : atoi port ≡ ok 9090
unfolding atoi
read_port = refl

-- "12", and the character.
text_12 : text 12 ≡ 49 ∷ 50 ∷ 0xe4 ∷ 0xb8 ∷ 0xaa ∷ []
unfolding digits
text_12 = refl

abbrev empty : Pipe
empty fd = []

abbrev nothing_stale : {S : Type 0} → S → ℕ
nothing_stale s = 0

pipe-PromptEcho : PromptEcho pipe_sender (pipe_peer true)
pipe-PromptEcho = record {
  inbound = λ p fd. p fd;
  send_lem = λ p fd m. rw (==-refl fd);
  recv_lem = λ p fd n. refl;
  rest_lem = λ p fd n. rw (==-refl fd);
}

round-append_sep_example :
    (round pipe_sender (pipe_peer true) nothing_stale 3 12 empty
      ≡ receive pipe_sender
          (pipe_peer true)
          nothing_stale
          3
          (pipe_sender.send empty 3 (append_sep (make 1) (text 12)).buf).1)
    × (length (append_sep (make 1) (text 12)).buf ≤ 17)
round-append_sep_example = round-append_sep pipe_sender (pipe_peer true) nothing_stale 3 12 empty

main-echoed_example :
    (t : Pipe) × (main pipe_sender
        (pipe_peer true)
        nothing_stale
        (sockets 3)
        inet
        ([] ∷ [] ∷ port ∷ [])
        empty
      ≡ ok (0, shown 50000 0, (pipe_peer true).close t 3))
unfolding pipe-PromptEcho
main-echoed_example =
    main-echoed pipe_sender (pipe_peer true) nothing_stale pipe-PromptEcho (sockets 3) inet [] []
      port 9090 empty read_port refl refl refl

-- 1025 bytes are announced.
abbrev long_answer : Pipe
long_answer fd = 1 ∷ 4 ∷ 0 ∷ 0 ∷ []

-- -1 is announced, and 1025 bytes come.
abbrev negative_answer : Pipe
negative_answer fd = 255 ∷ 255 ∷ 255 ∷ 255 ∷ zeros 1025

-- Two rounds without an answer: an empty header is a length of 0.
two_rounds :
    rounds open_sender silent_peer nothing_stale 3 2 0 quiet_world
    ≡ ok (
      zeros 1024 ∷ zeros 1024 ∷ [],
      (open_sender.send (open_sender.send quiet_world 3 (frame (text 0))).1 3 (frame (text 1))).1,
    )
unfolding rounds round receive digits
two_rounds = refl

-- Two rounds, and the client's stream in one read.
abbrev inputs : List (ℕ × List ReadAnswer)
inputs = (1, bytes (frame (text 0) ++ (frame (text 1) ++ [])) ∷ failed eagain ∷ []) ∷ []

inputs-Arrivals : Arrivals inputs (frame (text 0) ++ (frame (text 1) ++ []))
unfolding digits bit
inputs-Arrivals = next (refl, refl) (more drained) none_left

room-IsOutput : IsOutput (4, [])
unfolding bit
room-IsOutput = (refl, refl, refl)

client_stream-echoed_example :
    (u : Inner World) × (count : ℕ) × (dispatch_events epoll open_sender clock_api
        (echo_callbacks epoll open_sender clock_api 80 64)
        (λ w i. 0)
        3
        (inputs ++ (4, []) ∷ [])
        (with_input (make 1) (within 64 outer session))
      ≡ ok (with_input (make 1) (within 64 outer u)))
    × (2 ≤ count)
    × (u.sys.wire 7 ≡ session.sys.wire 7 ++ frames (texts count 0))
    × Ready epoll epoll_laws open_sender clock_api 80 64 clock_keeps u
unfolding digits get_cfd net_module.Socket.getfd
client_stream-echoed_example =
    client_stream-echoed open_sender silent_peer nothing_stale open_laws (λ w fd n j. refl)
      (λ w fd j. refl) open_sender-whole epoll epoll_laws open_sender clock_api 80 64 clock_keeps
      open_laws control_quiet (λ s j. refl)
      (λ s fd m ep j. take_bytes-interests (ltb (length m) (2 ^ 31)) s fd m ep j) open_sender-whole
      (λ w i. 0) 3 2 quiet_world _ _ 4 [] outer session refl (λ s i. omega arith) two_rounds refl
      inputs-Arrivals refl (omega arith) (omega arith) room-IsOutput refl refl session-Ready
