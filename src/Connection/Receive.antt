-- ===== src/Connection/Receive.antt =====
-- Connection.cpp, lines 52 to 79: reading until the socket is empty, then taking messages out.
pub mod Deliver
pub mod Stream
pub mod Ends
use net_module.Base.{ℕ, zero, suc, ◌≡◌, true, false, List, [], ◌∷◌, Result, ok, err, waiting, ◌>>=◌}
use net_module.System.{EpollApi, ClockApi}
use net_module.Buffer
use net_module.Buffer.{Buffer, pick_message, append}
use net_module.Timestamp
use net_module.Timestamp.{Timestamp}
use net_module.Channel.{call}
use net_module.Connection.{
  Session, Callbacks, ReadAnswer, bytes, failed, eintr, eagain, ewouldblock, other,
}
use net_module.Connection.Close.{close_callback}

module _ {S U C : Type 0} where
  abbrev pub with_input : Buffer → Session S U C → Session S U C
  with_input b ses = record ses { conn = record (ses.conn) { input_buffer = b } }

module _ {S U C : Type 0} (clock : ClockApi S) (cbs : Callbacks S U C) where
  -- `lastTime_ = Timestamp::now()`.
  unfoldable pub touch : Session S U C → Session S U C
  unfolding Timestamp.now
  touch ses =
      let (t, s) = Timestamp.now clock ses.sys in
      record ses { conn = record (ses.conn) { last_time = t }; sys = s }

  -- One message that was taken out of the buffer.
  unfoldable pub handle_message : Session S U C → List ℕ → Result (Session S U C)
  unfolding touch
  handle_message ses message = do
    let ses' = touch ses
    c ← call ses'.conn.onmessagecallback
    cbs.on_message c ses' message

-- `stale` is the memory behind the bytes of the input buffer, at each state of the system.
module _ {S U C : Type 0} (clock : ClockApi S) (cbs : Callbacks S U C) (stale : S → ℕ → ℕ) where
  -- The inner loop: it ends when `pickMessage` returns false.
  unfoldable pub deliver : ℕ → List ℕ → Session S U C → Result (Session S U C)
  deliver zero message ses = err waiting
  deliver (suc fuel) message ses = do
    p ← pick_message (stale ses.sys) ses.conn.input_buffer message
    elim p.found [
      | true ↦ (do
        ses' ← handle_message clock cbs (with_input p.buffer ses) p.message
        deliver fuel p.message ses')
      | false ↦ ok (with_input p.buffer ses)
    ]

module _ {S U C : Type 0} (epoll : EpollApi S) (clock : ClockApi S) (cbs : Callbacks S U C)
    (stale : S → ℕ → ℕ) where
  -- The outer loop, over what the calls of `read` return. Any other error is read past.
  unfoldable pub onmessage_callback : ℕ → List ReadAnswer → Session S U C → Result (Session S U C)
  onmessage_callback fuel [] ses = err waiting
  onmessage_callback fuel (bytes (x ∷ xs) ∷ rest) ses =
      onmessage_callback fuel rest (with_input (append ses.conn.input_buffer (x ∷ xs)) ses)
  onmessage_callback fuel (failed eintr ∷ rest) ses = onmessage_callback fuel rest ses
  onmessage_callback fuel (failed eagain ∷ rest) ses = deliver clock cbs stale fuel [] ses
  onmessage_callback fuel (failed ewouldblock ∷ rest) ses = deliver clock cbs stale fuel [] ses
  onmessage_callback fuel (bytes [] ∷ rest) ses = close_callback epoll cbs ses
  onmessage_callback fuel (failed other ∷ rest) ses = onmessage_callback fuel rest ses
