-- ===== src/EchoServer/Bound/Blind.antt =====
-- What the functions of example/EchoServer.cpp do not see of a connection.
use net_module.Base.{
  ℕ, ◌≡◌, refl, sym, ap, ◌∙◌, List, Option, none, some, Result, ok, err, map_ok, arith,
}
use net_module.System.{EpollApi, SendApi, ClockApi}
use net_module.Connection.{Connection, adjust, get_con_statue}
use net_module.Connection.Receive.Deliver.{IsBlind}
use net_module.Connection.Transmit.{send, send_inloop}
use net_module.Connection.Events.{with_revents}
use net_module.Connection.Events.Masks.{IsMaskBlind}
use net_module.Channel.{setrevents, setinepoll, with_writing}
use net_module.Epoller.{enable_writing, update_channel}
use net_module.TcpServer.{
  ServerHandler, message_bound, close_bound, error_bound, complete_bound, epolltimeout_bound,
  removeconn_bound, newconnection_bound, onmessage,
}
use net_module.EchoServer
use net_module.EchoServer.{Backlog, callbacks}
use net_module.EchoServer.Program.{
  EchoHandler, handle_message, handle_new_connection, handle_close, handle_error,
  handle_send_complete,
}
use net_module.EchoServer.Echo.{callbacks-IsBlind}
use net_module.EchoServer.Bound.{
  Inner, Full, inner, restore, user_call, echo_callbacks, calling, calling-handle_message,
  unchanged,
}

module _ {S : Type 0} (epoll : EpollApi S) (sender : SendApi S) (clock : ClockApi S)
    (address at : ℕ) where
  -- What `HandleMessage` does not see of the connection, no function of the user does.
  calling-adjust :
      (change : Connection ServerHandler → Connection ServerHandler) (o : Option EchoHandler)
      (m : List ℕ) (ses : Full S)
      → ((t : Inner S)
          → EchoServer.handle_message epoll sender 0 address m (adjust change t)
            ≡ map_ok (adjust change) (EchoServer.handle_message epoll sender 0 address m t))
      → calling epoll sender clock address at o m (adjust change ses)
        ≡ map_ok (adjust change) (calling epoll sender clock address at o m ses)
  unfolding user_call
  calling-adjust change none m ses blind =
      rw
        (
          unchanged epoll sender clock address at (adjust change ses),
          unchanged epoll sender clock address at ses,
        )
        refl
  calling-adjust change (some handle_message) m ses blind =
      calling-handle_message epoll sender clock address at m (adjust change ses)
      ∙ ap (map_ok (restore at (adjust change ses))) (blind (inner at ses))
      ∙ swap (EchoServer.handle_message epoll sender 0 address m (inner at ses))
      ∙ ap (map_ok (adjust change))
          (sym (calling-handle_message epoll sender clock address at m ses))
    where
      swap :
          (r : Result (Inner S))
          → map_ok (restore at (adjust change ses)) (map_ok (adjust change) r)
            ≡ map_ok (adjust change) (map_ok (restore at ses) r)
      swap (ok t) = refl
      swap (err e) = refl
  calling-adjust change (some handle_new_connection) m ses blind =
      rw
        (
          unchanged epoll sender clock address at (adjust change ses),
          unchanged epoll sender clock address at ses,
        )
        refl
  calling-adjust change (some handle_close) m ses blind =
      rw
        (
          unchanged epoll sender clock address at (adjust change ses),
          unchanged epoll sender clock address at ses,
        )
        refl
  calling-adjust change (some handle_error) m ses blind =
      rw
        (
          unchanged epoll sender clock address at (adjust change ses),
          unchanged epoll sender clock address at ses,
        )
        refl
  calling-adjust change (some handle_send_complete) m ses blind =
      rw
        (
          unchanged epoll sender clock address at (adjust change ses),
          unchanged epoll sender clock address at ses,
        )
        refl

  echo-adjust :
      (change : Connection ServerHandler → Connection ServerHandler) (c : ServerHandler)
      (ses : Full S) (m : List ℕ)
      → ((t : Inner S)
          → EchoServer.handle_message epoll sender 0 address m (adjust change t)
            ≡ map_ok (adjust change) (EchoServer.handle_message epoll sender 0 address m t))
      → (echo_callbacks epoll sender clock address at).on_message c (adjust change ses) m
        ≡ map_ok (adjust change) ((echo_callbacks epoll sender clock address at).on_message c ses m)
  unfolding onmessage
  echo-adjust change message_bound ses m blind =
      calling-adjust change ses.user.server.onmessagecallback m ses blind
  echo-adjust change close_bound ses m blind = refl
  echo-adjust change error_bound ses m blind = refl
  echo-adjust change complete_bound ses m blind = refl
  echo-adjust change epolltimeout_bound ses m blind = refl
  echo-adjust change removeconn_bound ses m blind = refl
  echo-adjust change newconnection_bound ses m blind = refl

  -- No function of the user reaches the input buffer.
  pub echo_callbacks-IsBlind : IsBlind clock (echo_callbacks epoll sender clock address at)
  echo_callbacks-IsBlind c ses m b =
      echo-adjust (λ conn. record conn { input_buffer = b }) c ses m
        (λ t. callbacks-IsBlind epoll sender clock address message_bound t m b)

  handle_message-with_revents :
      (mask : ℕ) (m : List ℕ) (t : Inner S)
      → EchoServer.handle_message epoll sender 0 address m (with_revents mask t)
        ≡ map_ok (with_revents mask) (EchoServer.handle_message epoll sender 0 address m t)
  unfolding EchoServer.handle_message EchoServer.on_message get_con_statue send send_inloop
      enable_writing update_channel setrevents setinepoll with_writing
  handle_message-with_revents mask m t = ground arith

  -- Nor does one look at the mask of an event.
  pub echo_callbacks-IsMaskBlind :
      (stale : S → ℕ → ℕ) → IsMaskBlind clock (echo_callbacks epoll sender clock address at) stale
  unfolding setrevents
  echo_callbacks-IsMaskBlind stale c ses m mask =
      echo-adjust (λ conn. record conn { client_channel = setrevents conn.client_channel mask }) c
        ses m (handle_message-with_revents mask m)
