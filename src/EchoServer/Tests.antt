-- ===== src/EchoServer/Tests.antt =====
-- A client that sends two messages, the first cut in two, and gets them back.
use net_module.Base.{ℕ, ◌≡◌, refl, false, true, List, [], ◌∷◌, ◌++◌, some, ok, arith}
use net_module.Buffer.{make, append_sep}
use net_module.Channel
use net_module.Channel.{Channel}
use net_module.Connection.{
  Connection, Session, ReadAnswer, bytes, failed, eagain, onmessage_callback, write_callback,
}
use net_module.Connection.Receive.{with_input}
use net_module.Connection.Receive.Stream.{Bursts, drained, more, next, none_left, read_events}
use net_module.EchoServer.{Backlog, callbacks}
use net_module.EchoServer.Echo.{Answering, echoes_stream}
use net_module.Simulation.{World, quiet_world, enter, epoll, epoll_laws, clock_api, open_sender}

abbrev pub hello : List ℕ
hello = 104 ∷ 105 ∷ []

-- Watched for reading, edge triggered.
abbrev registered_channel : Channel net_module.Connection.Handler
registered_channel = record (Channel.make 5 9 7) {
  events = 0x8000_0001;
  inepoll = true;
  read_callback = some onmessage_callback;
  write_callback = some write_callback;
}

abbrev pub session : Session World Backlog ℕ
session = record {
  conn = record {
    client_sock = record { fd = 7; ip = []; port = 4000 };
    client_channel = registered_channel;
    input_buffer = make 1;
    output_buffer = make 1;
    dis_connect = false;
    closecallback = some 1;
    errorcallback = some 2;
    onmessagecallback = some 3;
    sendcompletecallback = some 4;
    last_time = record { ticks = 0 };
  };
  sys = enter quiet_world 9 7 (some (record { events = 0x8000_0001; ptr = 5 }));
  user = [];
  tasks = record { task_queue = []; counter = 0 };
}

abbrev pub clock_keeps :
    (w : World) (ep fd : ℕ) → (clock_api.now w).1.interests ep fd ≡ w.interests ep fd
clock_keeps w ep fd = refl

pub session-Answering : Answering epoll epoll_laws open_sender clock_api 64 clock_keeps 3 session
session-Answering = record { alive = refl; framed = refl; in_step = refl; known = refl; set = refl }

abbrev pub half : List ℕ
half = 2 ∷ 0 ∷ 0 ∷ []

abbrev pub other_half : List ℕ
other_half = 0 ∷ 104 ∷ 105 ∷ 0 ∷ 0 ∷ 0 ∷ 0 ∷ []

abbrev pub events : List (List ReadAnswer)
events = (bytes half ∷ failed eagain ∷ []) ∷ (bytes other_half ∷ failed eagain ∷ []) ∷ []

pub events-Bursts : Bursts events (half ++ (other_half ++ []))
events-Bursts = next (more drained) (next (more drained) none_left)

abbrev pub no_stale : World → ℕ → ℕ
no_stale w i = 0

two_echoed :
    (t : Session World Backlog ℕ) × (read_events epoll clock_api
        (callbacks epoll open_sender 0 64)
        no_stale
        9
        events
        (with_input (make 1) session)
      ≡ ok (with_input (make 1) t))
    × (t.conn.output_buffer.buf ≡ half ++ (other_half ++ []))
    × Answering epoll epoll_laws open_sender clock_api 64 clock_keeps 3 t
unfolding append_sep
two_echoed =
    echoes_stream epoll epoll_laws open_sender clock_api 64 clock_keeps no_stale 9 3
      (hello ∷ [] ∷ []) session (λ s i. omega arith) events-Bursts (omega arith) (omega arith) refl
      session-Answering
