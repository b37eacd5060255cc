-- ===== src/EchoServer/Bound/Kept.antt =====
-- What the functions of example/EchoServer.cpp leave of a connection and of the system: the functions
-- that its channel calls, and the bytes that were sent.
use net_module.Base.{
  ℕ, Bool, ◌≡◌, refl, sym, ap, ◌∙◌, true, false, List, Option, none, some, ok, ◌>>=◌, map_ok-eq-ok,
  arith,
}
use net_module.System.{EpollApi, EpollEvent, ControlOp, add, modify, SendApi, SendLaws, ClockApi}
use net_module.Timestamp
use net_module.Connection
use net_module.Connection.{Connection, get_con_statue, get_cfd}
use net_module.Connection.Receive.{touch}
use net_module.Connection.Transmit.{send, send_inloop}
use net_module.Connection.Events.Kept.{handlers, Preserves}
use net_module.Channel.{Channel, getinepoll, setinepoll, with_writing}
use net_module.Epoller.{or_exit, enable_writing, update_channel}
use net_module.TcpServer.{
  ServerHandler, message_bound, close_bound, error_bound, complete_bound, epolltimeout_bound,
  removeconn_bound, newconnection_bound, onmessage,
}
use net_module.EchoServer
use net_module.EchoServer.Program.{
  EchoHandler, handle_message, handle_new_connection, handle_close, handle_error,
  handle_send_complete,
}
use net_module.EchoServer.Bound.{
  Inner, Full, inner, restore, user_call, echo_callbacks, calling, calling-handle_message,
  unchanged,
}

module _ {S : Type 0} (epoll : EpollApi S) (sender : SendApi S) (clock : ClockApi S)
    (address at : ℕ) where
  -- Something about a connection and the system that a message of the echo leaves.
  module _ {A : Type 0} (look : Connection ServerHandler → S → A)
      (echoed : (m : List ℕ) (ses t : Inner S)
        → EchoServer.handle_message epoll sender 0 address m ses ≡ ok t
        → look t.conn t.sys ≡ look ses.conn ses.sys) where
    left :
        (ses t : Full S)
        → ok (restore at ses (inner at ses)) ≡ ok t
        → look t.conn t.sys ≡ look ses.conn ses.sys
    left ses t h =
        let same : restore at ses (inner at ses) ≡ t = cc in
        ap (λ (u : Full S). look u.conn u.sys) (sym same)

    calling-look :
        (o : Option EchoHandler) (m : List ℕ) (ses t : Full S)
        → calling epoll sender clock address at o m ses ≡ ok t
        → look t.conn t.sys ≡ look ses.conn ses.sys
    unfolding user_call
    calling-look none m ses t h = left ses t (sym (unchanged epoll sender clock address at ses) ∙ h)
    calling-look (some handle_message) m ses t h =
        let (u, run, same) =
          map_ok-eq-ok (restore at ses)
            (EchoServer.handle_message epoll sender 0 address m (inner at ses))
            (sym (calling-handle_message epoll sender clock address at m ses) ∙ h) in
        ap (λ (u : Full S). look u.conn u.sys) (sym same) ∙ echoed m (inner at ses) u run
    calling-look (some handle_new_connection) m ses t h =
        left ses t (sym (unchanged epoll sender clock address at ses) ∙ h)
    calling-look (some handle_close) m ses t h =
        left ses t (sym (unchanged epoll sender clock address at ses) ∙ h)
    calling-look (some handle_error) m ses t h =
        left ses t (sym (unchanged epoll sender clock address at ses) ∙ h)
    calling-look (some handle_send_complete) m ses t h =
        left ses t (sym (unchanged epoll sender clock address at ses) ∙ h)

    on_message-look :
        (c : ServerHandler) (ses t : Full S) (m : List ℕ)
        → (echo_callbacks epoll sender clock address at).on_message c ses m ≡ ok t
        → look t.conn t.sys ≡ look ses.conn ses.sys
    unfolding onmessage
    on_message-look message_bound ses t m h =
        calling-look ses.user.server.onmessagecallback m ses t h
    on_message-look close_bound ses t m h = absurd (cc)
    on_message-look error_bound ses t m h = absurd (cc)
    on_message-look complete_bound ses t m h = absurd (cc)
    on_message-look epolltimeout_bound ses t m h = absurd (cc)
    on_message-look removeconn_bound ses t m h = absurd (cc)
    on_message-look newconnection_bound ses t m h = absurd (cc)

  handle_message-handlers :
      (m : List ℕ) (ses t : Inner S)
      → EchoServer.handle_message epoll sender 0 address m ses ≡ ok t
      → handlers t ≡ handlers ses
  unfolding EchoServer.handle_message EchoServer.on_message get_con_statue send send_inloop
      enable_writing update_channel setinepoll with_writing
  handle_message-handlers m ses t h = ground arith

  -- The functions that the channel calls stay.
  pub echo-Preserves_handlers :
      Preserves clock (echo_callbacks epoll sender clock address at) handlers
  unfolding touch
  echo-Preserves_handlers = record {
    input = λ b ses. refl;
    touched = λ ses. refl;
    called =
        on_message-look
          (λ conn s. (conn.client_channel.read_callback, conn.client_channel.write_callback))
          handle_message-handlers;
  }

  handle_message-get_cfd :
      (m : List ℕ) (ses t : Inner S)
      → EchoServer.handle_message epoll sender 0 address m ses ≡ ok t
      → get_cfd t.conn ≡ get_cfd ses.conn
  unfolding EchoServer.handle_message EchoServer.on_message get_con_statue send send_inloop get_cfd
  handle_message-get_cfd m ses t h = ground arith

  -- So does the descriptor.
  pub echo-Preserves_descriptor :
      Preserves clock (echo_callbacks epoll sender clock address at) (λ ses. get_cfd ses.conn)
  unfolding touch get_cfd
  echo-Preserves_descriptor = record {
    input = λ b ses. refl;
    touched = λ ses. refl;
    called = on_message-look (λ conn s. get_cfd conn) handle_message-get_cfd;
  }

  -- So do the bytes on the wire, if neither epoll nor the clock touches them.
  module _ (laws : SendLaws sender)
      (control_quiet : (s t : S) (ep fd j : ℕ) (op : ControlOp) (e : EpollEvent)
        → epoll.ctl s ep op fd e ≡ some t
        → laws.wire t j ≡ laws.wire s j)
      (clock_quiet : (s : S) (j : ℕ) → laws.wire (clock.now s).1 j ≡ laws.wire s j) where
    abbrev pub sent_bytes : {U : Type 0} → Connection.Session S U ServerHandler → List ℕ
    sent_bytes ses = laws.wire ses.sys (get_cfd ses.conn)

    controlled :
        {A : Type 0} (c d : A) (s t : S) (ep fd j : ℕ) (op : ControlOp) (e : EpollEvent)
        (o : Option S)
        → epoll.ctl s ep op fd e ≡ o
        → ◌>>=◌ {B = A × S} (or_exit o) (λ u. ok (c, u)) ≡ ok (d, t)
        → laws.wire t j ≡ laws.wire s j
    controlled c d s t ep fd j op e none ran h = absurd (cc)
    controlled c d s t ep fd j op e (some u) ran h =
        let same : u ≡ t = cc in
        ap (λ v. laws.wire v j) (sym same) ∙ control_quiet s u ep fd j op e ran

    enable_writing-sent :
        (s t : S) (ch ch' : Channel Connection.Handler) (j : ℕ)
        → enable_writing epoll s ch ≡ ok (ch', t)
        → laws.wire t j ≡ laws.wire s j
    unfolding enable_writing update_channel
    enable_writing-sent s t ch ch' j h = branch (getinepoll (with_writing ch)) refl
      where
        branch : (b : Bool) → getinepoll (with_writing ch) ≡ b → laws.wire t j ≡ laws.wire s j
        branch true flag = controlled _ ch' s t _ _ j modify _ _ refl (rw flag at h)
        branch false flag = controlled _ ch' s t _ _ j add _ _ refl (rw flag at h)

    handle_message-sent_bytes :
        (m : List ℕ) (ses t : Inner S)
        → EchoServer.handle_message epoll sender 0 address m ses ≡ ok t
        → sent_bytes t ≡ sent_bytes ses
    unfolding EchoServer.handle_message EchoServer.on_message get_con_statue send send_inloop
        get_cfd
    handle_message-sent_bytes m ses t h = ground (
      arith,
      enable_writing-sent ses.sys t.sys ses.conn.client_channel t.conn.client_channel
          (get_cfd ses.conn),
    )

    pub echo-Preserves_sent :
        Preserves clock (echo_callbacks epoll sender clock address at) sent_bytes
    unfolding touch get_cfd Timestamp.now
    echo-Preserves_sent = record {
      input = λ b ses. refl;
      touched = λ ses. clock_quiet ses.sys (get_cfd ses.conn);
      called = on_message-look (λ conn s. laws.wire s (get_cfd conn)) handle_message-sent_bytes;
    }
