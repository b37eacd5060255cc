-- ===== src/Connection.antt =====
-- include/Connection.h and src/Connection.cpp: one client. `S` is the state of the system, `U` what
-- the user's callbacks keep, `C` names the bound user callbacks; an empty one is `none`.
pub mod Close
pub mod Early
pub mod Events
pub mod Made
pub mod Receive
pub mod Transmit
pub mod Registration
mod Tests
use net_module.Base.{
  ℕ, ◌+◌, ◌-◌, ◌^◌, ◌≡◌, Bool, false, List, [], ◌∷◌, ◌++◌, Option, none, some, Result, ok, ◌>>=◌,
  ltb, ◌==◌, if◌then◌else◌,
}
use net_module.Base.Word.{is_negative}
use net_module.Buffer
use net_module.Buffer.{Buffer}
use net_module.Timestamp
use net_module.Timestamp.{Timestamp, to_int}
use net_module.System.{EpollApi, ClockApi}
use net_module.Socket.{Socket, getfd, get_ip, get_port}
use net_module.Channel
use net_module.Channel.{
  Channel, usset, setread_callback, setwrite_callback, setclose_callback, seterror_callback,
}
use net_module.Epoller.{enable_reading}
use net_module.EventLoop.Tasks.{Tasks}

-- The member functions that a connection binds to its channel.
pub data Handler : Type 0 where
  onmessage_callback close_callback error_callback write_callback : Handler

pub record Connection (C : Type 0) : Type 0 where
  pub client_sock : Socket
  pub client_channel : Channel Handler
  pub input_buffer : Buffer
  pub output_buffer : Buffer
  pub dis_connect : Bool
  pub closecallback : Option C
  pub errorcallback : Option C
  pub onmessagecallback : Option C
  pub sendcompletecallback : Option C
  pub last_time : Timestamp

-- `bind(&Connection::sendInloop, this, data, size)`: the connection, which the address of its channel tells,
-- the address of the bytes and their number.
pub record SendTask : Type 0 where
  pub this : ℕ
  pub address : ℕ
  pub length : ℕ

-- A connection in its surroundings: the system, what the user keeps, and `loop_`'s queue, which may hold
-- tasks of other connections too.
pub record Session (S U C : Type 0) : Type 0 where
  pub conn : Connection C
  pub sys : S
  pub user : U
  pub tasks : Tasks SendTask

-- What the user's functions do. They reach the connection, which they are passed.
pub record Callbacks (S U C : Type 0) : Type 0 where
  pub on_message : C → Session S U C → List ℕ → Result (Session S U C)
  pub on_close : C → Session S U C → Result (Session S U C)
  pub on_error : C → Session S U C → Result (Session S U C)
  pub on_send_complete : C → Session S U C → Result (Session S U C)

-- What `read` returns: bytes, none at the end of the stream, or -1 with `errno`.
pub data Errno : Type 0 where
  eintr eagain ewouldblock other : Errno

pub data ReadAnswer : Type 0 where
  bytes : List ℕ → ReadAnswer
  failed : Errno → ReadAnswer

module _ {S U C : Type 0} where
  -- A change of the connection alone.
  abbrev pub adjust : (Connection C → Connection C) → Session S U C → Session S U C
  adjust change ses = record ses { conn = change ses.conn }

module _ {C : Type 0} where
  unfoldable pub get_con_statue : Connection C → Bool
  get_con_statue c = c.dis_connect

  unfoldable pub get_cfd : Connection C → ℕ
  get_cfd c = getfd c.client_sock

  unfoldable pub get_cip : Connection C → List ℕ
  get_cip c = get_ip c.client_sock

  unfoldable pub get_cport : Connection C → ℕ
  get_cport c = get_port c.client_sock

  unfoldable pub set_onmessage_callback : Connection C → C → Connection C
  set_onmessage_callback c cb = record c { onmessagecallback = some cb }

  unfoldable pub set_close_callback : Connection C → C → Connection C
  set_close_callback c cb = record c { closecallback = some cb }

  unfoldable pub set_error_callback : Connection C → C → Connection C
  set_error_callback c cb = record c { errorcallback = some cb }

  unfoldable pub set_write_callback : Connection C → C → Connection C
  set_write_callback c cb = record c { sendcompletecallback = some cb }

  -- `now - lastTime_.toInt() > val`, where `val` is an `int`.
  unfoldable pub timeout : Connection C → ℕ → ℕ → Bool
  unfolding to_int
  timeout c now val =
      if is_negative val
      then ltb (to_int c.last_time) (now + (2 ^ 32 - val))
      else ltb (to_int c.last_time + val) now

-- The constructor, for a channel object at an address, in the epoll instance of its loop.
unfoldable pub make :
    {S C : Type 0} → EpollApi S → ClockApi S → S → ℕ → ℕ → Socket → Result (Connection C × S)
unfolding getfd setread_callback setwrite_callback setclose_callback seterror_callback usset
    enable_reading
make epoll clock s address epollfd sock = do
  let (t, s₁) = Timestamp.now clock s
  let channel = usset (
      setwrite_callback
        (seterror_callback
          (setclose_callback
            (setread_callback (Channel.make address epollfd (getfd sock)) onmessage_callback)
            close_callback)
          error_callback)
        write_callback)
  (channel', s₂) ← enable_reading epoll s₁ channel
  ok (
    record {
      client_sock = sock;
      client_channel = channel';
      input_buffer = Buffer.make 1;
      output_buffer = Buffer.make 1;
      dis_connect = false;
      closecallback = none;
      errorcallback = none;
      onmessagecallback = none;
      sendcompletecallback = none;
      last_time = t;
    },
    s₂,
  )
