-- ===== src/Connection/Events.antt =====
-- An event of a connection's channel, from `EventLoop::run` (EventLoop.cpp, line 87) to the member
-- function that the constructor of the connection bound for it (Connection.cpp, lines 16 to 19).
pub mod Kept
pub mod Looped
pub mod Masks
pub mod Output
pub mod Stream
mod Tests
use net_module.Base.{
  ℕ, ◌≡◌, refl, ap, ◌∙◌, Bool, true, false, List, Option, some, Result, ◌>>=◌, ◌==◌, if◌then◌else◌,
}
use net_module.Base.Bits.{bit}
use net_module.System.{EpollApi, SendApi, ClockApi}
use net_module.Channel
use net_module.Channel.{
  Channel, call, setrevents, setinepoll, with_reading, without_reading, with_writing,
  without_writing, without_all, usset,
}
use net_module.Channel.Interest.{
  IsPlain, IsReportable, InterestCall, reading_on, reading_off, writing_on, writing_off, all_off,
  edge, change, change-IsPlain, plain_event,
}
use net_module.Connection
use net_module.Connection.{Handler, Session, Callbacks, ReadAnswer}
use net_module.Connection.Close.{close_callback, error_callback}
use net_module.Connection.Receive.{onmessage_callback}
use net_module.Connection.Transmit.{write_callback}

-- A channel with the functions of its connection bound, which asks for neither EPOLLPRI nor EPOLLRDHUP.
pub record Bound (ch : Channel Handler) : Type 0 where
  pub plain : IsPlain ch
  pub on_read : ch.read_callback ≡ some Connection.onmessage_callback
  pub on_write : ch.write_callback ≡ some Connection.write_callback
  pub on_error : ch.error_callback ≡ some Connection.error_callback

module _ {S U C : Type 0} where
  -- `ch->setrevents(...)`, as `Epoller::loop` does for a connection's channel.
  abbrev pub with_revents : ℕ → Session S U C → Session S U C
  with_revents mask ses = record ses {
    conn = record (ses.conn) { client_channel = setrevents ses.conn.client_channel mask };
  }

module _ {S U C : Type 0} (epoll : EpollApi S) (sender : SendApi S) (clock : ClockApi S)
    (cbs : Callbacks S U C) (stale : S → ℕ → ℕ) where
  -- The member function behind a name, with the answers of `read`.
  abbrev pub run_handler : Handler → ℕ → List ReadAnswer → Session S U C → Result (Session S U C)
  run_handler Connection.onmessage_callback fuel answers ses =
      onmessage_callback epoll clock cbs stale fuel answers ses
  run_handler Connection.close_callback fuel answers ses = close_callback epoll cbs ses
  run_handler Connection.error_callback fuel answers ses = error_callback epoll cbs ses
  run_handler Connection.write_callback fuel answers ses = write_callback epoll sender cbs ses

  -- `ch->handleEvent()`, with the mask that `epoll_wait` reported.
  unfoldable pub dispatch_event : ℕ → List ReadAnswer → ℕ → Session S U C → Result (Session S U C)
  dispatch_event fuel answers mask ses = do
    let woken = with_revents mask ses
    h ← Channel.handle_event woken.conn.client_channel
    run_handler h fuel answers woken

  -- On a channel as the constructor binds it, after any calls that change its interest to what the
  -- source asks for, an event that the kernel can report runs `onmessageCallback` if there is something to
  -- read, else `writeCallback` if there is room to write, and else `errorCallback`, on a hangup too;
  -- `closeCallback` is never run by an event itself.
  pub dispatch_event_cases :
      (fuel : ℕ) (answers : List ReadAnswer) (mask : ℕ) (ses : Session S U C)
      → Bound ses.conn.client_channel
      → IsReportable ses.conn.client_channel.events mask
      → dispatch_event fuel answers mask ses ≡ (
          if bit 0 mask == 1
          then onmessage_callback epoll clock cbs stale fuel answers (with_revents mask ses)
          else if bit 2 mask == 1
          then write_callback epoll sender cbs (with_revents mask ses)
          else error_callback epoll cbs (with_revents mask ses))
  unfolding dispatch_event setrevents
  dispatch_event_cases fuel answers mask ses b possible =
      ap (λ (r : Result Handler). r >>= λ h. run_handler h fuel answers (with_revents mask ses))
        (plain_event ses.conn.client_channel mask b.plain possible)
      ∙ chosen b.on_read b.on_write b.on_error (bit 0 mask == 1) (bit 2 mask == 1)
    where
      chosen :
          {r w e : Option Handler}
          → r ≡ some Connection.onmessage_callback
          → w ≡ some Connection.write_callback
          → e ≡ some Connection.error_callback
          → (p q : Bool)
          → ((if p then call r else if q then call w else call e) >>= λ h.
              run_handler h fuel answers (with_revents mask ses))
            ≡ (if p
                then onmessage_callback epoll clock cbs stale fuel answers (with_revents mask ses)
                else if q
                then write_callback epoll sender cbs (with_revents mask ses)
                else error_callback epoll cbs (with_revents mask ses))
      chosen on_r on_w on_e true q = rw on_r refl
      chosen on_r on_w on_e false true = rw on_w refl
      chosen on_r on_w on_e false false = rw on_e refl

-- The calls that change the interest leave the functions bound, and so does the flag.
pub change-Bound : (ch : Channel Handler) (c : InterestCall) → Bound ch → Bound (change ch c)
unfolding with_reading without_reading with_writing without_writing without_all usset
change-Bound ch c b =
    let (r, w, e) = kept c in
    record {
      plain = change-IsPlain ch c b.plain;
      on_read = r ∙ b.on_read;
      on_write = w ∙ b.on_write;
      on_error = e ∙ b.on_error;
    }
  where
    kept :
        (c : InterestCall)
        → ((change ch c).read_callback ≡ ch.read_callback)
          × ((change ch c).write_callback ≡ ch.write_callback)
          × ((change ch c).error_callback ≡ ch.error_callback)
    kept reading_on = (refl, refl, refl)
    kept reading_off = (refl, refl, refl)
    kept writing_on = (refl, refl, refl)
    kept writing_off = (refl, refl, refl)
    kept all_off = (refl, refl, refl)
    kept edge = (refl, refl, refl)

pub setinepoll-Bound : (ch : Channel Handler) (flag : Bool) → Bound ch → Bound (setinepoll ch flag)
unfolding setinepoll
setinepoll-Bound ch flag b = record {
  plain = b.plain;
  on_read = b.on_read;
  on_write = b.on_write;
  on_error = b.on_error;
}
