-- ===== src/Connection/Tests.antt =====
-- Runs of a connection in the simulated system, and instances of its theorems. The user records the
-- messages.
use net_module.Base.{
  ℕ, ◌<◌, ◌≡◌, refl, ◌⊎◌, true, false, List, [], ◌∷◌, ◌++◌, some, ok, err, arith, ◌>>=◌, map_ok,
  waiting, exit_process,
}
use net_module.Base.IntMap.{lookup}
use net_module.Buffer.{make, append_sep, append, pick_message, pick_frame}
use net_module.Buffer.Erase.{frame}
use net_module.Buffer.Framing.{at_seam}
use net_module.Socket.{getfd}
use net_module.Channel.{Channel, setinepoll, with_writing}
use net_module.Channel
use net_module.Connection.{Connection, Handler, ReadAnswer, bytes, failed, eagain, eintr, get_cfd}
use net_module.Connection.Close.{disconnect, close_callback}
use net_module.Connection.Receive.{with_input, touch, handle_message, deliver, onmessage_callback}
use net_module.Connection.Receive.Deliver.{holding, serve, IsBlind}
use net_module.Connection.Receive.Stream.{
  Bursts, drained, more, interrupted, next, none_left, read_events, Received, read_events-Received,
  read_events_complete,
}
use net_module.Connection.Receive.Ends.{LastBurst, at_end, close_drops_messages, deliver_endless}
use net_module.Connection.Transmit.{with_output, send, send_inloop, run_send}
use net_module.Connection.Transmit.Write.{write_events, write_events_repeat}
use net_module.Connection.Transmit.Send.{send_queued}
use net_module.Connection.Registration.{IsInStep, Queued, send_inloop-Queued, late_send_registers}
use net_module.Epoller.{event_of, update_channel, remove_channel, enable_writing}
use net_module.EventLoop.Tasks.{run_tasks, handlewakeup}
use net_module.Simulation.{
  World, quiet_world, enter, epoll, epoll_laws, clock_api, open_sender, open_laws,
  open_sender-whole, Logged, recorder,
}

abbrev hello : List ℕ
hello = 104 ∷ 105 ∷ []

abbrev no_stale : World → ℕ → ℕ
no_stale w i = 0

-- A client on descriptor 7 that its loop has not yet put into epoll instance 9.
abbrev idle_channel : Channel Handler
idle_channel = Channel.make 5 9 7

abbrev client : Connection ℕ
client = record {
  client_sock = record { fd = 7; ip = []; port = 4000 };
  client_channel = idle_channel;
  input_buffer = make 1;
  output_buffer = make 1;
  dis_connect = false;
  closecallback = some 1;
  errorcallback = some 2;
  onmessagecallback = some 3;
  sendcompletecallback = some 4;
  last_time = record { ticks = 0 };
}

abbrev session : Logged
session = record {
  conn = client;
  sys = quiet_world;
  user = [];
  tasks = record { task_queue = []; counter = 0 };
}

-- Half a frame in one event, the other half and a second frame in the next.
abbrev first_event : List ReadAnswer
first_event = bytes (2 ∷ 0 ∷ 0 ∷ []) ∷ failed eagain ∷ []

abbrev second_event : List ReadAnswer
second_event =
    bytes (0 ∷ 104 ∷ []) ∷ failed eintr ∷ bytes (105 ∷ 0 ∷ 0 ∷ 0 ∷ 0 ∷ []) ∷ failed eagain ∷ []

two-Bursts :
    Bursts
      (first_event ∷ second_event ∷ [])
      ((2 ∷ 0 ∷ 0 ∷ []) ++ ((0 ∷ 104 ∷ 105 ∷ 0 ∷ 0 ∷ 0 ∷ 0 ∷ []) ++ []))
two-Bursts = next (more drained) (next (more (interrupted (more drained))) none_left)

heard :
    (ses : Logged) × (read_events epoll clock_api recorder no_stale 9
        (first_event ∷ second_event ∷ [])
        session
      ≡ ok ses)
    × (ses.user ≡ hello ∷ [] ∷ [])
unfolding onmessage_callback deliver handle_message touch append pick_message pick_frame
heard = (_, refl, refl)

recorder-IsBlind : IsBlind clock_api recorder
recorder-IsBlind c ses m b = refl

bytes_zero : (w : World) (i : ℕ) → no_stale w i < 256
bytes_zero w i = omega arith

-- The first event alone: nothing is whole yet.
read_events-Received_example :
    Received epoll clock_api recorder no_stale
      (hello ∷ [] ∷ [])
      []
      (0 ∷ 104 ∷ 105 ∷ 0 ∷ 0 ∷ 0 ∷ 0 ∷ [])
      9
      (first_event ∷ [])
read_events-Received_example =
    read_events-Received epoll clock_api recorder no_stale bytes_zero recorder-IsBlind 9
      (next (more drained) none_left) (hello ∷ [] ∷ []) [] (0 ∷ 104 ∷ 105 ∷ 0 ∷ 0 ∷ 0 ∷ 0 ∷ [])
      (omega arith) (omega arith) (at_seam refl) refl

both_events :
    read_events epoll clock_api recorder no_stale 9
      (first_event ∷ second_event ∷ [])
      (with_input (make 1) session)
    ≡ map_ok (with_input (make 1)) (serve clock_api recorder (hello ∷ [] ∷ []) session)
unfolding append_sep
both_events =
    read_events_complete epoll clock_api recorder no_stale bytes_zero recorder-IsBlind 9 two-Bursts
      (hello ∷ [] ∷ []) session (omega arith) (omega arith) refl

-- A whole message and the end of the stream in one event.
close_drops_messages_example :
    onmessage_callback epoll clock_api recorder no_stale 9
      (bytes (2 ∷ 0 ∷ 0 ∷ 0 ∷ 104 ∷ 105 ∷ []) ∷ bytes [] ∷ [])
      (with_input (holding []) session)
    ≡ close_callback epoll recorder (with_input (holding (frame hello)) session)
close_drops_messages_example =
    close_drops_messages epoll clock_api recorder no_stale 9 (LastBurst.more at_end) [] session

recorder_answers :
    (ses : Logged) (m : List ℕ) (c : ℕ)
    → ses.conn.onmessagecallback ≡ some c
    → (t : Logged) × (handle_message clock_api recorder ses m ≡ ok t)
      × (t.conn.onmessagecallback ≡ some c)
unfolding handle_message touch
recorder_answers ses m c h =
    (record (touch clock_api recorder ses) { user = ses.user ++ m ∷ [] }, rw h, h)

deliver_endless_example :
    deliver clock_api recorder no_stale 9 []
      (with_input (holding (252 ∷ 255 ∷ 255 ∷ 255 ∷ 7 ∷ [])) session)
    ≡ err waiting
deliver_endless_example =
    deliver_endless clock_api recorder no_stale recorder-IsBlind recorder_answers 9 [] (7 ∷ [])
      session 3 refl (omega arith)

-- The two bytes of `hello` wait to be sent.
abbrev sending : Logged
sending = with_output (record { buf = hello; sep = 1 }) session

three_copies :
    (s : World) × (write_events epoll open_sender open_laws recorder 3 sending
      ≡ ok (record sending { sys = s }))
    × (s.wire 7 ≡ 104 ∷ 105 ∷ 104 ∷ 105 ∷ 104 ∷ 105 ∷ [])
unfolding get_cfd getfd
three_copies =
    write_events_repeat epoll open_sender open_laws recorder 3 sending (omega arith) (omega arith)
      open_sender-whole

abbrev heap : List (ℕ × List ℕ)
heap = (64, hello) ∷ []

send_queued_example :
    (send epoll open_sender recorder true 64 hello session
      ≡ send_inloop epoll open_sender recorder hello session)
    × ((t : Logged) × (send epoll open_sender recorder false 64 hello session ≡ ok t)
        × (t.conn ≡ client)
        × ((x : Logged)
            → handlewakeup (run_send epoll open_sender recorder 5 (λ task x. ok x) heap) t.tasks x
              ≡ (run_tasks (run_send epoll open_sender recorder 5 (λ task x. ok x) heap) [] x
                  >>= λ y. send_inloop epoll open_sender recorder hello y >>= λ z.
                      ok (record { task_queue = []; counter = 0 }, z))))
unfolding lookup
send_queued_example =
    send_queued epoll open_sender recorder (λ task x. ok x) heap 64 hello session refl refl

in_step : IsInStep epoll epoll_laws open_sender recorder session
in_step = refl

send_inloop-Queued_example :
    (false ≡ false) × (send_inloop epoll open_sender recorder hello session ≡ err exit_process)
    ⊎ ((t : Logged) × (send_inloop epoll open_sender recorder hello session ≡ ok t)
        × Queued epoll epoll_laws open_sender recorder session hello t)
send_inloop-Queued_example =
    send_inloop-Queued epoll epoll_laws open_sender recorder session hello refl in_step

-- Closed, and still without an entry.
abbrev closed : Logged
closed = record session { conn = record client { dis_connect = true } }

-- A message that was queued before the end has been sent.
abbrev revived_channel : Channel Handler
revived_channel = record idle_channel { events = 4; inepoll = true }

abbrev revived : Logged
revived = record session {
  conn = record client {
    dis_connect = true;
    client_channel = revived_channel;
    output_buffer = record { buf = 2 ∷ 0 ∷ 0 ∷ 0 ∷ hello; sep = 1 };
  };
  sys = enter quiet_world 9 7 (some (record { events = 4; ptr = 5 }));
}

late_send_registers_example :
    (revived.conn.dis_connect ≡ true)
    × (revived.sys.interests 9 7 ≡ some (event_of epoll revived_channel))
unfolding disconnect send_inloop append_sep remove_channel setinepoll enable_writing with_writing
    update_channel
late_send_registers_example =
    late_send_registers epoll epoll_laws open_sender recorder session closed revived hello in_step
      refl refl refl
