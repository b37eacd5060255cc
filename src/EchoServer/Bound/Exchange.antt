-- ===== src/EchoServer/Bound/Exchange.antt =====
-- Messages of a client and room to write, in any order, at a connection of the echo server:
-- src/Connection.cpp, lines 52 to 79 and 91 to 100, and example/EchoServer.cpp, lines 76 to 103.
use net_module.Base.{
  ℕ, ◌^◌, ◌<◌, ◌≡◌, refl, sym, ap, ◌∙◌, List, [], ◌∷◌, ◌++◌, some, Result, ok, map_ok, All, length,
  append_assoc, append-nil, arith,
}
use net_module.System.{EpollApi, EpollLaws, ControlOp, EpollEvent, SendApi, SendLaws, ClockApi}
use net_module.Buffer.{make, contents}
use net_module.Buffer.Pick.{IsByte, IsFramable}
use net_module.Buffer.Framing.{append_sep_all}
use net_module.Channel.{setrevents}
use net_module.Connection.{ReadAnswer, get_cfd}
use net_module.Connection.Receive.{with_input}
use net_module.Connection.Transmit.Write.{write_callback_whole}
use net_module.Connection.Events.{with_revents}
use net_module.Connection.Events.Kept.{handlers, read_events-seen}
use net_module.Connection.Events.Stream.{
  Arrivals, Arrivals-Bursts, as_made, last_mask, dispatch_events, dispatch_events-append,
  dispatch_events-read,
}
use net_module.Connection.Events.Output.{IsOutput, dispatch_output}
use net_module.TcpServer.Binding.{Outer}
use net_module.EchoServer.{Backlog}
use net_module.EchoServer.Program.{EchoHandler, handle_message}
use net_module.EchoServer.Bound.{Inner, Full, echo_callbacks, within}
use net_module.EchoServer.Bound.Served.{Ready, server_echoes}
use net_module.EchoServer.Bound.Blind.{echo_callbacks-IsMaskBlind}
use net_module.EchoServer.Bound.Kept.{
  echo-Preserves_handlers, echo-Preserves_descriptor, echo-Preserves_sent, sent_bytes,
}

-- `Exchange fuel events pending sent`: events of a channel in their order, the bytes that are
-- in the output buffer before them, and the bytes that the connection sends while they are handled.
-- Messages come whole, in events of any cut; room to write comes while something is pending, and all of
-- that is sent and stays.
pub data Exchange (fuel : ℕ) : List (ℕ × List ReadAnswer) → List ℕ → List ℕ → Type 0 where
  over : {pending : List ℕ} → Exchange fuel [] pending []
  messages :
      {inputs events : List (ℕ × List ReadAnswer)} {arrived pending sent : List ℕ}
      (ms : List (List ℕ))
      → Arrivals inputs arrived
      → length ms < fuel
      → All IsFramable ms
      → arrived ≡ (append_sep_all (make 1) ms).buf
      → Exchange fuel events (pending ++ arrived) sent
      → Exchange fuel (inputs ++ events) pending sent
  room :
      {mask : ℕ} {answers : List ReadAnswer} {events : List (ℕ × List ReadAnswer)}
      {pending sent : List ℕ}
      → IsOutput (mask, answers)
      → 0 < length pending
      → length pending < 2 ^ 31
      → Exchange fuel events pending sent
      → Exchange fuel ((mask, answers) ∷ events) pending (pending ++ sent)

module _ {S : Type 0} (epoll : EpollApi S) (laws : EpollLaws epoll) (sender : SendApi S)
    (clock : ClockApi S) (address at : ℕ)
    (clock_keeps : (s : S) (ep fd : ℕ)
      → laws.registered (clock.now s).1 ep fd ≡ laws.registered s ep fd)
    (wires : SendLaws sender)
    (control_quiet : (s t : S) (ep fd j : ℕ) (op : ControlOp) (e : EpollEvent)
      → epoll.ctl s ep op fd e ≡ some t
      → wires.wire t j ≡ wires.wire s j)
    (clock_quiet : (s : S) (j : ℕ) → wires.wire (clock.now s).1 j ≡ wires.wire s j)
    (send_keeps : (s : S) (fd : ℕ) (m : List ℕ) (ep j : ℕ)
      → laws.registered (sender.send s fd m).1 ep j ≡ laws.registered s ep j)
    (whole : (s : S) (fd : ℕ) (message : List ℕ)
      → length message < 2 ^ 31
      → (sender.send s fd message).0 ≡ length message)
    (stale : S → ℕ → ℕ) (bytes : (s : S) (i : ℕ) → IsByte (stale s i)) (fuel : ℕ)
    (o : Outer Backlog EchoHandler)
    (handler : o.server.onmessagecallback ≡ some handle_message) where
  -- The connection between two events, with nothing to be read left over.
  abbrev pub idle : Inner S → Full S
  idle ses = with_input (make 1) (within at o ses)

  abbrev pub exchange : List (ℕ × List ReadAnswer) → Full S → Result (Full S)
  exchange =
      dispatch_events epoll sender clock (echo_callbacks epoll sender clock address at) stale fuel

  -- A connection that its channel's events find ready.
  pub record Open (pending : List ℕ) (ses : Inner S) : Type 0 where
    pub ready : Ready epoll laws sender clock address at clock_keeps ses
    pub bound : handlers ses ≡ as_made
    pub output : ses.conn.output_buffer.buf ≡ pending

  -- It has sent some bytes on the way to another.
  pub record Sends (sent : List ℕ) (ses t : Inner S) : Type 0 where
    pub same : get_cfd t.conn ≡ get_cfd ses.conn
    pub grown : wires.wire t.sys (get_cfd t.conn) ≡ wires.wire ses.sys (get_cfd ses.conn) ++ sent

  messages_in :
      {inputs : List (ℕ × List ReadAnswer)} {arrived pending : List ℕ} (ms : List (List ℕ))
      (ses : Inner S)
      → Arrivals inputs arrived
      → length ms < fuel
      → All IsFramable ms
      → arrived ≡ (append_sep_all (make 1) ms).buf
      → Open pending ses
      → (t : Inner S) × (exchange inputs (idle ses) ≡ ok (idle t))
        × Open (pending ++ arrived) t
        × Sends [] ses t
  unfolding setrevents get_cfd
  messages_in {inputs} {arrived} ms ses cut enough fit all opened =
      let cbs = echo_callbacks epoll sender clock address at in
      let (u, run, out, still) =
        server_echoes epoll laws sender clock address at clock_keeps stale fuel ms o ses handler
          bytes (Arrivals-Bursts cut) enough fit all opened.ready in
      let mask = last_mask ses.conn.client_channel.revents inputs in
      (
        with_revents mask u,
        dispatch_events-read epoll sender clock cbs stale
              (echo_callbacks-IsMaskBlind epoll sender clock address at stale)
              (echo-Preserves_handlers epoll sender clock address at) fuel cut (idle ses)
              opened.bound
            ∙ ap (map_ok (with_revents mask)) run,
        record {
          ready = record {
            alive = still.alive;
            framed = still.framed;
            in_step = still.in_step;
            known = still.known;
            set = still.set;
          };
          bound =
              read_events-seen clock cbs handlers stale
                (echo-Preserves_handlers epoll sender clock address at) epoll fuel
                (Arrivals-Bursts cut) (idle ses) _ run
              ∙ opened.bound;
          output = out ∙ ap (λ l. l ++ arrived) opened.output;
        },
        record {
          same =
              read_events-seen clock cbs (λ x. get_cfd x.conn) stale
                (echo-Preserves_descriptor epoll sender clock address at) epoll fuel
                (Arrivals-Bursts cut) (idle ses) _ run;
          grown =
              read_events-seen clock cbs
                (sent_bytes epoll sender clock address at wires control_quiet clock_quiet) stale
                (echo-Preserves_sent epoll sender clock address at wires control_quiet clock_quiet)
                epoll fuel (Arrivals-Bursts cut) (idle ses) _ run
              ∙ sym (append-nil _);
        },
      )

  room_in :
      (mask : ℕ) (answers : List ReadAnswer) {pending : List ℕ} (ses : Inner S)
      → IsOutput (mask, answers)
      → 0 < length pending
      → length pending < 2 ^ 31
      → Open pending ses
      → (t : Inner S) × (exchange ((mask, answers) ∷ []) (idle ses) ≡ ok (idle t))
        × Open pending t
        × Sends pending ses t
  unfolding setrevents get_cfd contents
  room_in mask answers {pending} ses writes some_bytes fits opened =
      let cbs = echo_callbacks epoll sender clock address at in
      let many : length ses.conn.output_buffer.buf ≡ length pending = ap length opened.output in
      let (once, grown) =
        write_callback_whole epoll sender wires cbs whole (with_revents mask (idle ses))
          (omega (arith, many)) (omega (arith, many)) in
      let after = (sender.send ses.sys (get_cfd ses.conn) ses.conn.output_buffer.buf).1 in
      (
        record (with_revents mask ses) { sys = after },
        rw
            (
              dispatch_output epoll sender clock cbs stale fuel mask answers (idle ses) writes
                  opened.bound,
              once,
            )
            refl,
        record {
          ready = record {
            alive = opened.ready.alive;
            framed = opened.ready.framed;
            in_step = send_keeps ses.sys _ _ _ _ ∙ opened.ready.in_step;
            known = opened.ready.known;
            set = opened.ready.set;
          };
          bound = opened.bound;
          output = opened.output;
        },
        record {
          same = refl;
          grown = grown ∙ ap (◌++◌ (wires.wire ses.sys (get_cfd ses.conn))) opened.output;
        },
      )

  both :
      {first second : List ℕ} (ses t u : Inner S)
      → Sends first ses t
      → Sends second t u
      → Sends (first ++ second) ses u
  both {first} {second} ses t u one two = record {
    same = two.same ∙ one.same;
    grown =
        two.grown
        ∙ ap (λ l. l ++ second) one.grown
        ∙ append_assoc (wires.wire ses.sys (get_cfd ses.conn)) first second;
  }

  -- Whatever the order of the messages and of room to write, the connection sends just the bytes that
  -- `Exchange` names, and is then as ready as before.
  pub exchanged :
      {events : List (ℕ × List ReadAnswer)} {pending sent : List ℕ}
      → Exchange fuel events pending sent
      → (ses : Inner S) → Open pending ses
      → (t : Inner S) × (rest : List ℕ) × (exchange events (idle ses) ≡ ok (idle t))
        × Open rest t
        × Sends sent ses t
  exchanged {pending} over ses opened =
      (ses, pending, refl, opened, record { same = refl; grown = sym (append-nil _) })
  exchanged (messages {inputs} {events} ms cut enough fit all later) ses opened =
      let (t, run, there, quiet) = messages_in ms ses cut enough fit all opened in
      let (u, rest, go_on, last, sends) = exchanged later t there in
      (
        u,
        rest,
        dispatch_events-append epoll sender clock (echo_callbacks epoll sender clock address at)
              stale fuel inputs events (idle ses)
            ∙ rw run go_on,
        last,
        both ses t u quiet sends,
      )
  exchanged (room {mask} {answers} {events} writes some_bytes fits later) ses opened =
      let (t, run, there, sends_now) = room_in mask answers ses writes some_bytes fits opened in
      let (u, rest, go_on, last, sends) = exchanged later t there in
      (
        u,
        rest,
        dispatch_events-append epoll sender clock (echo_callbacks epoll sender clock address at)
              stale fuel ((mask, answers) ∷ []) events (idle ses)
            ∙ rw run go_on,
        last,
        both ses t u sends_now sends,
      )
