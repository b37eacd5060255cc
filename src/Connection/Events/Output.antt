-- ===== src/Connection/Events/Output.antt =====
-- A write event of a connection, from the mask that `epoll_wait` reports for its channel on.
use net_module.Base.{ℕ, ◌+◌, ◌≡◌, ap, ◌∙◌, List, Result, ◌>>=◌}
use net_module.Base.Bits.{bit}
use net_module.System.{EpollApi, SendApi, ClockApi}
use net_module.Channel.{call, setrevents}
use net_module.Channel.Dispatch.{handle_event_cases}
use net_module.Connection
use net_module.Connection.{Session, Callbacks, ReadAnswer, get_cfd}
use net_module.Connection.Transmit.{write_callback}
use net_module.Connection.Events.{with_revents, run_handler, dispatch_event}
use net_module.Connection.Events.Kept.{handlers}
use net_module.Connection.Events.Stream.{as_made}

-- There is room to write (EPOLLOUT), and nothing to read.
abbrev pub IsOutput : ℕ × List ReadAnswer → Type 0
IsOutput (mask, answers) = (bit 13 mask ≡ 0) × (bit 0 mask + bit 1 mask ≡ 0) × (bit 2 mask ≡ 1)

module _ {S U C : Type 0} (epoll : EpollApi S) (sender : SendApi S) (clock : ClockApi S)
    (cbs : Callbacks S U C) (stale : S → ℕ → ℕ) where
  pub dispatch_output :
      (fuel mask : ℕ) (answers : List ReadAnswer) (ses : Session S U C)
      → IsOutput (mask, answers)
      → handlers ses ≡ as_made
      → dispatch_event epoll sender clock cbs stale fuel answers mask ses
        ≡ write_callback epoll sender cbs (with_revents mask ses)
  unfolding dispatch_event setrevents
  dispatch_output fuel mask answers ses (no_hangup, no_input, output) bound =
      let handled =
        (handle_event_cases (setrevents ses.conn.client_channel mask)).2 no_hangup no_input
          output in
      ap
        (λ (r : Result Connection.Handler). r >>= λ h.
          run_handler epoll sender clock cbs stale h fuel answers (with_revents mask ses))
        (handled ∙ ap (λ h. call h.1) bound)
