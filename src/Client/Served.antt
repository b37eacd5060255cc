-- ===== src/Client/Served.antt =====
-- The client's stream at the echo server, and back on the wire.
use net_module.Base.{
  ℕ, zero, suc, ◌^◌, ◌≤◌, ◌<◌, ◌≡◌, refl, sym, ap, ◌∙◌, List, [], ◌∷◌, ◌++◌, append-nil, some, ok,
  All, length, arith,
}
use net_module.System.{
  EpollApi, EpollLaws, ControlOp, EpollEvent, SendApi, SendLaws, PeerApi, ClockApi,
}
use net_module.Buffer.{Buffer, make}
use net_module.Buffer.Pick.{IsByte, IsFramable}
use net_module.Buffer.Framing.{frames, append_sep_all-frames}
use net_module.Connection.{ReadAnswer, get_cfd}
use net_module.Connection.Receive.{with_input}
use net_module.Connection.Events.Kept.{handlers}
use net_module.Connection.Events.Stream.{Arrivals, as_made, dispatch_events}
use net_module.Connection.Events.Output.{IsOutput}
use net_module.TcpServer.Binding.{Outer}
use net_module.EchoServer.{Backlog}
use net_module.EchoServer.Program.{EchoHandler, handle_message}
use net_module.EchoServer.Bound.{Inner, echo_callbacks, within}
use net_module.EchoServer.Bound.Served.{Ready}
use net_module.EchoServer.Bound.Exchange.{over, messages, room, exchanged}
use net_module.Client.{rounds}
use net_module.Client.Rounds.{length-text}
use net_module.Client.Answers.{texts}
use net_module.Client.Wire.{rounds-Sent}

texts-IsFramable : (n ii : ℕ) → All IsFramable (texts n ii)
texts-IsFramable zero ii = tt
texts-IsFramable (suc n) ii = (omega (arith, length-text ii), texts-IsFramable n (suc ii))

length-texts : (n ii : ℕ) → length (texts n ii) ≡ n
length-texts zero ii = refl
length-texts (suc n) ii = ap suc (length-texts n (suc ii))

-- The client on its machine, and a server without workers on another.
module _ {R : Type 0} (wires : SendApi R) (peer : PeerApi R) (stale : R → ℕ)
    (wire_laws : SendLaws wires)
    (recv_keeps : (r : R) (fd n j : ℕ) → wire_laws.wire (peer.recv r fd n).1 j ≡ wire_laws.wire r j)
    (close_keeps : (r : R) (fd j : ℕ) → wire_laws.wire (peer.close r fd) j ≡ wire_laws.wire r j)
    (whole : (r : R) (fd : ℕ) (m : List ℕ) → length m < 2 ^ 31 → (wires.send r fd m).0 ≡ length m)
    {S : Type 0} (epoll : EpollApi S) (laws : EpollLaws epoll) (sender : SendApi S)
    (clock : ClockApi S) (address at : ℕ)
    (clock_keeps : (s : S) (ep fd : ℕ)
      → laws.registered (clock.now s).1 ep fd ≡ laws.registered s ep fd)
    (sent_laws : SendLaws sender)
    (control_quiet : (s t : S) (ep fd j : ℕ) (op : ControlOp) (e : EpollEvent)
      → epoll.ctl s ep op fd e ≡ some t
      → sent_laws.wire t j ≡ sent_laws.wire s j)
    (clock_quiet : (s : S) (j : ℕ) → sent_laws.wire (clock.now s).1 j ≡ sent_laws.wire s j)
    (send_keeps : (s : S) (fd : ℕ) (m : List ℕ) (ep j : ℕ)
      → laws.registered (sender.send s fd m).1 ep j ≡ laws.registered s ep j)
    (sends_whole : (s : S) (fd : ℕ) (m : List ℕ)
      → length m < 2 ^ 31
      → (sender.send s fd m).0 ≡ length m) where
  -- A client's loop of `n` rounds ended, however it did, on a connection that had carried nothing, and
  -- its sends were taken whole; what it has put on the wire is from 1 to 2 ^ 31 - 1 bytes. A server without
  -- workers whose callback for messages is `HandleMessage`, on a registered connection with the server's
  -- functions as callbacks and nothing to be sent, with a clock and sends that leave epoll
  -- alone, gets these bytes, cut into reads and into events of the connection's channel in any
  -- way, and then one event with room to write, where the kernel takes all that is sent. All these events
  -- are handled, and the connection's descriptor gets on the wire the frames of the texts of the first
  -- rounds, in order, of at least as many rounds as the client has read answers. The connection is as
  -- ready as before.
  pub client_stream-echoed :
      (memory : S → ℕ → ℕ) (sockfd n : ℕ) (r t : R) (bufs : List (List ℕ))
      {inputs : List (ℕ × List ReadAnswer)} {arrived : List ℕ} (mask : ℕ)
      (answers : List ReadAnswer) (o : Outer Backlog EchoHandler) (ses : Inner S)
      → (handler : o.server.onmessagecallback ≡ some handle_message)
      → (bytes : (s : S) (i : ℕ) → IsByte (memory s i))
      → rounds wires peer stale sockfd n 0 r ≡ ok (bufs, t)
      → wire_laws.wire r sockfd ≡ []
      → Arrivals inputs arrived
      → arrived ≡ wire_laws.wire t sockfd
      → 0 < length arrived
      → length arrived < 2 ^ 31
      → IsOutput (mask, answers)
      → handlers ses ≡ as_made
      → ses.conn.output_buffer.buf ≡ []
      → Ready epoll laws sender clock address at clock_keeps ses
      → (u : Inner S) × (count : ℕ) × (dispatch_events epoll sender clock
            (echo_callbacks epoll sender clock address at)
            memory
            (suc n)
            (inputs ++ (mask, answers) ∷ [])
            (with_input (make 1) (within at o ses))
          ≡ ok (with_input (make 1) (within at o u)))
        × (length bufs ≤ count)
        × (sent_laws.wire u.sys (get_cfd ses.conn)
            ≡ sent_laws.wire ses.sys (get_cfd ses.conn) ++ frames (texts count 0))
        × Ready epoll laws sender clock address at clock_keeps u
  client_stream-echoed memory sockfd n r t bufs mask answers o ses handler bytes run fresh cut all
        some_bytes fits writes bound nothing ready =
      let sent =
        rounds-Sent wires peer stale wire_laws recv_keeps close_keeps whole sockfd n 0 r t bufs
          run in
      let stream : _ ≡ frames (texts sent.count 0) =
        all ∙ sent.stream ∙ ap (λ l. l ++ frames (texts sent.count 0)) fresh in
      let (u, rest, go_on, left, sends) =
        exchanged epoll laws sender clock address at clock_keeps sent_laws control_quiet clock_quiet
          send_keeps sends_whole memory bytes (suc n) o handler
          (messages (texts sent.count 0) cut
            (omega (arith, sent.in_loop, length-texts sent.count 0)) (texts-IsFramable sent.count 0)
            (stream
              ∙ sym (
                  ap (λ (b : Buffer). b.buf)
                    (append_sep_all-frames (make 1) (texts sent.count 0) refl)))
            (room writes some_bytes fits over))
          ses (record { ready = ready; bound = bound; output = nothing }) in
      (
        u,
        sent.count,
        go_on,
        sent.all_answered,
        ap (sent_laws.wire u.sys) (sym sends.same)
            ∙ sends.grown
            ∙ ap (◌++◌ (sent_laws.wire ses.sys (get_cfd ses.conn))) (append-nil _ ∙ stream),
        left.ready,
      )
