-- ===== src/Connection/Transmit.antt =====
-- Connection.cpp, lines 91 to 121: sending, at once or through the loop's queue, and the write event.
pub mod Write
pub mod Send
use net_module.Base.{
  ℕ, ◌≡◌, Bool, List, [], ◌∷◌, none, some, Result, ok, err, undefined, ◌>>=◌, length, take, ◌==◌,
  if◌then◌else◌,
}
use net_module.Base.Word.{is_negative, size_of_int}
use net_module.Base.IntMap.{lookup}
use net_module.System.{EpollApi, SendApi}
use net_module.Buffer
use net_module.Buffer.{Buffer, append_sep, contents, size, erase}
use net_module.Channel.{call}
use net_module.Epoller.{enable_writing, disable_writing}
use net_module.EventLoop.Tasks.{queue_in_loop}
use net_module.Connection.{Session, Callbacks, SendTask, get_cfd}

module _ {S U C : Type 0} where
  abbrev pub with_output : Buffer → Session S U C → Session S U C
  with_output b ses = record ses { conn = record (ses.conn) { output_buffer = b } }

module _ {S U C : Type 0} (epoll : EpollApi S) (sender : SendApi S) (cbs : Callbacks S U C) where
  -- After `::send`, with the `int` that it returned. The test is `writen < 0`.
  unfoldable pub after_send : ℕ → Session S U C → Result (Session S U C)
  after_send writen ses =
      if is_negative writen
      then (do b ← erase ses.conn.output_buffer 0 (size_of_int writen); ok (with_output b ses))
      else ok ses

  -- Writing is over: no more write events, and the user is told.
  unfoldable pub finish_sending : Session S U C → Result (Session S U C)
  finish_sending ses = do
    (channel, s) ← disable_writing epoll ses.sys ses.conn.client_channel
    let ses' = record ses { conn = record (ses.conn) { client_channel = channel }; sys = s }
    c ← call ses'.conn.sendcompletecallback
    cbs.on_send_complete c ses'

  unfoldable pub write_callback : Session S U C → Result (Session S U C)
  unfolding get_cfd contents size
  write_callback ses = do
    let (writen, s) = sender.send ses.sys (get_cfd ses.conn) (contents ses.conn.output_buffer)
    ses' ← after_send writen (record ses { sys = s })
    if size ses'.conn.output_buffer == 0 then finish_sending ses' else ok ses'

  -- `sendInloop` on bytes that are in memory.
  unfoldable pub send_inloop : List ℕ → Session S U C → Result (Session S U C)
  send_inloop message ses = do
    let b = append_sep ses.conn.output_buffer message
    (channel, s) ← enable_writing epoll ses.sys ses.conn.client_channel
    ok (record ses {
      conn = record (ses.conn) { output_buffer = b; client_channel = channel };
      sys = s;
    })

  -- The queued call on the connection: it reads the bytes when it runs, at an address that must still be
  -- live.
  unfoldable pub run_own_send :
      List (ℕ × List ℕ) → SendTask → Session S U C → Result (Session S U C)
  run_own_send heap task ses = elim (lookup task.address heap) [
    | none ↦ err undefined
    | some message ↦ send_inloop (take task.length message) ses
  ]

  -- The queued call, where the connection of the session is `this`; `others` is what those of the other
  -- connections do.
  unfoldable pub run_send :
      ℕ
      → (SendTask → Session S U C → Result (Session S U C))
      → List (ℕ × List ℕ)
      → SendTask
      → Session S U C
      → Result (Session S U C)
  run_send this others heap task ses =
      if task.this == this then run_own_send heap task ses else others task ses

  -- `send`, from the loop's own thread or from another, with the bytes at an address.
  unfoldable pub send : Bool → ℕ → List ℕ → Session S U C → Result (Session S U C)
  send in_loop_thread address message ses =
      if ses.conn.dis_connect
      then ok ses
      else if in_loop_thread
      then send_inloop message ses
      else ok (record ses {
        tasks = queue_in_loop ses.tasks (record {
          this = ses.conn.client_channel.self;
          address = address;
          length = length message;
        });
      })
