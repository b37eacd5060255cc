-- ===== src/Connection/Early/Tests.antt =====
-- A client that speaks at once: its message comes before the server has bound the callbacks.
use net_module.Base.{◌≡◌, refl, false, true, [], ◌∷◌, none, some, err, bad_function_call, arith}
use net_module.Buffer
use net_module.Channel
use net_module.Connection
use net_module.Connection.{bytes, failed, eagain}
use net_module.Connection.Receive.{onmessage_callback}
use net_module.Connection.Receive.Stream.{drained, more}
use net_module.Connection.Early.{whole_message, early_event_throws}
use net_module.Connection.Made.{new_channel}
use net_module.Simulation.{
  quiet_world, enter, epoll, epoll_laws, clock_api, open_sender, Logged, recorder,
}

-- As the constructor leaves it, on descriptor 7 and in epoll instance 9.
abbrev pub new_session : Logged
new_session = record {
  conn = record {
    client_sock = record { fd = 7; ip = []; port = 4000 };
    client_channel = record (new_channel 5 9 7) { events = 0x8000_0001; inepoll = true };
    input_buffer = Buffer.make 1;
    output_buffer = Buffer.make 1;
    dis_connect = false;
    closecallback = none;
    errorcallback = none;
    onmessagecallback = none;
    sendcompletecallback = none;
    last_time = record { ticks = quiet_world.clock };
  };
  sys = enter (clock_api.now quiet_world).1 9 7 (some (record { events = 0x8000_0001; ptr = 5 }));
  user = [];
  tasks = record { task_queue = []; counter = 0 };
}

early_event_throws_example :
    onmessage_callback epoll clock_api recorder
      (λ w i. 0)
      1
      (bytes (2 ∷ 0 ∷ 0 ∷ 0 ∷ 104 ∷ 105 ∷ []) ∷ failed eagain ∷ [])
      new_session
    ≡ err bad_function_call
unfolding Connection.make Channel.usset Channel.setread_callback Channel.setwrite_callback
    Channel.setclose_callback Channel.seterror_callback Channel.with_reading Channel.setinepoll
    net_module.Epoller.enable_reading net_module.Epoller.update_channel net_module.Timestamp.now
    net_module.Socket.getfd
early_event_throws_example =
    early_event_throws epoll epoll_laws open_sender clock_api recorder (λ w i. 0) (λ w ep fd. refl)
      quiet_world 5 9 0 new_session.conn.client_sock new_session refl refl
      (whole_message (104 ∷ 105 ∷ []) [] (omega arith) (more drained))
