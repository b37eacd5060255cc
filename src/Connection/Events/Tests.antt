-- ===== src/Connection/Events/Tests.antt =====
-- A hangup on a registered connection with a clean interest: it is an error.
use net_module.Base.{zero, suc, ◌≡◌, refl, inr, [], arith}
use net_module.Base.Bits.{bit, bit-zero}
use net_module.Channel.Interest.{IsReportable}
use net_module.Connection.Close.{error_callback}
use net_module.Connection.Events.{Bound, dispatch_event, dispatch_event_cases, with_revents}
use net_module.Simulation.{epoll, clock_api, open_sender, recorder}
use net_module.Connection.Early.Tests.{new_session}

new_session-Bound : Bound new_session.conn.client_channel
unfolding bit
new_session-Bound = record {
  plain = (refl, refl);
  on_read = refl;
  on_write = refl;
  on_error = refl;
}

-- EPOLLHUP alone.
hangup-IsReportable : IsReportable 0x8000_0001 0x010
unfolding bit
hangup-IsReportable zero h = absurd (omega arith)
hangup-IsReportable (suc zero) h = absurd (omega arith)
hangup-IsReportable (suc (suc zero)) h = absurd (omega arith)
hangup-IsReportable (suc (suc (suc zero))) h = absurd (omega arith)
hangup-IsReportable (suc (suc (suc (suc zero)))) h = inr (inr refl)
hangup-IsReportable (suc (suc (suc (suc (suc k))))) h = absurd (omega (arith, bit-zero k))

dispatch_event_cases_example :
    dispatch_event epoll open_sender clock_api recorder (λ w i. 0) 9 [] 0x010 new_session
    ≡ error_callback epoll recorder (with_revents 0x010 new_session)
unfolding bit
dispatch_event_cases_example =
    dispatch_event_cases epoll open_sender clock_api recorder (λ w i. 0) 9 [] 0x010 new_session
      new_session-Bound hangup-IsReportable
