-- ===== src/Connection/Early.antt =====
-- An event of a new connection before `TcpServer::newconnection` has bound its callbacks: the kernel
-- watches it from the constructor on (Connection.cpp, line 21), in the thread of another loop.
pub mod Tests
use net_module.Base.{
  ℕ, suc, ◌≡◌, refl, ap, ◌∙◌, List, [], ◌++◌, none, ok, err, bad_function_call, ◌>>=◌,
}
use net_module.System.{EpollApi, EpollLaws, SendApi, ClockApi}
use net_module.Buffer.Erase.{frame}
use net_module.Buffer.Pick.{IsFramable, pick_message-frame}
use net_module.Socket.{Socket, getfd}
use net_module.Connection
use net_module.Connection.{Connection, Session, Callbacks, ReadAnswer}
use net_module.Connection.Close.{close_callback}
use net_module.Connection.Receive.{with_input, touch, handle_message, deliver, onmessage_callback}
use net_module.Connection.Receive.Deliver.{holding}
use net_module.Connection.Receive.Stream.{Burst, onmessage-Burst}
use net_module.Connection.Receive.Ends.{LastBurst, close_drops_messages}
use net_module.Connection.Registration.{IsInStep, disconnect-Disconnected}
use net_module.Connection.Made.{make-Made_of_ok}

-- The event brings a whole message, or the end of the stream.
pub data Telling : List ReadAnswer → Type 0 where
  whole_message :
      {answers : List ReadAnswer} (m rest : List ℕ)
      → IsFramable m
      → Burst answers (frame m ++ rest)
      → Telling answers
  end_seen : {answers : List ReadAnswer} {bs : List ℕ} → LastBurst answers bs → Telling answers

module _ {S U C : Type 0} (epoll : EpollApi S) (laws : EpollLaws epoll) (sender : SendApi S)
    (clock : ClockApi S) (cbs : Callbacks S U C) (stale : S → ℕ → ℕ) where
  unset_message :
      (fuel : ℕ) (m rest : List ℕ) (ses : Session S U C)
      → IsFramable m
      → ses.conn.onmessagecallback ≡ none
      → deliver clock cbs stale (suc fuel) [] (with_input (holding (frame m ++ rest)) ses)
        ≡ err bad_function_call
  unfolding deliver handle_message touch
  unset_message fuel m rest ses fits unset =
      rw
        (
          pick_message-frame (stale ses.sys) (holding (frame m ++ rest)) [] m rest refl fits refl,
          unset,
        )
        refl

  unset_close :
      (ses : Session S U C)
      → IsInStep epoll laws sender cbs ses
      → ses.conn.closecallback ≡ none
      → close_callback epoll cbs ses ≡ err bad_function_call
  unfolding close_callback
  unset_close ses in_step unset =
      let (t, run, d) = disconnect-Disconnected epoll laws sender cbs ses in_step in
      let gone : t.conn.closecallback ≡ none = d.kept_close ∙ unset in rw (run, gone) refl

  early :
      (fuel : ℕ) {answers : List ReadAnswer} (ses : Session S U C)
      → Telling answers
      → IsInStep epoll laws sender cbs ses
      → ses.conn.closecallback ≡ none
      → ses.conn.onmessagecallback ≡ none
      → onmessage_callback epoll clock cbs stale (suc fuel) answers (with_input (holding []) ses)
        ≡ err bad_function_call
  early fuel ses (whole_message m rest fits b) in_step no_close no_message =
      onmessage-Burst epoll clock cbs stale (suc fuel) b [] ses
      ∙ unset_message fuel m rest ses fits no_message
  early fuel ses (end_seen {bs} b) in_step no_close no_message =
      close_drops_messages epoll clock cbs stale (suc fuel) b [] ses
      ∙ unset_close (with_input (holding bs) ses) in_step no_close

  -- A connection that the constructor has just registered, on a descriptor that the loop did not watch
  -- and with a clock that leaves epoll alone, and whose callbacks are not bound yet: an event that
  -- brings a whole message below 2 ^ 31 - 4 bytes or the end of the stream calls an empty
  -- function, and the exception leaves the loop's thread.
  pub early_event_throws :
      (clock_keeps : (s : S) (ep fd : ℕ)
        → laws.registered (clock.now s).1 ep fd ≡ laws.registered s ep fd)
      (s : S) (address epollfd fuel : ℕ) (sock : Socket) (ses : Session S U C)
      {answers : List ReadAnswer}
      → laws.registered s epollfd (getfd sock) ≡ none
      → Connection.make epoll clock s address epollfd sock ≡ ok (ses.conn, ses.sys)
      → Telling answers
      → onmessage_callback epoll clock cbs stale (suc fuel) answers ses ≡ err bad_function_call
  early_event_throws clock_keeps s address epollfd fuel sock ses {answers} fresh run telling =
      let made =
        make-Made_of_ok epoll laws clock clock_keeps s ses.sys address epollfd sock ses.conn fresh
          run in
      ap (λ b. onmessage_callback epoll clock cbs stale (suc fuel) answers (with_input b ses))
        made.input
      ∙ early fuel ses telling made.in_step made.no_close made.no_message
