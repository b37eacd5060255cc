-- ===== src/EchoServer/Echo.antt =====
-- What comes back: without workers, every message, in order.
use net_module.Base.{
  ℕ, ◌<◌, ◌≡◌, refl, sym, ap, ◌∙◌, inl, inr, true, false, List, [], ◌∷◌, ◌++◌, some, ok, All,
  length, append_assoc, append-nil, arith,
}
use net_module.System.{EpollApi, EpollLaws, SendApi, ClockApi}
use net_module.Buffer.{Buffer, make}
use net_module.Buffer.Erase.{frame}
use net_module.Buffer.Pick.{IsByte, IsFramable}
use net_module.Buffer.Framing.{frames, append_sep_all, append_sep_all-frames}
use net_module.Connection.{Session, get_con_statue, ReadAnswer}
use net_module.Connection.Receive.{with_input, touch}
use net_module.Connection.Receive
use net_module.Connection.Receive.Deliver.{IsBlind, serve}
use net_module.Connection.Receive.Stream.{Bursts, read_events, read_events_complete}
use net_module.Connection.Transmit.{send, send_inloop}
use net_module.Connection.Registration.{IsInStep, channel_of, send_inloop-Queued}
use net_module.EchoServer.{Backlog, printers, on_message, handle_message, callbacks}

module _ {S C : Type 0} (epoll : EpollApi S) (sender : SendApi S) (clock : ClockApi S)
    (address : ℕ) where
  -- `OnMessage` does not touch the input buffer.
  pub callbacks-IsBlind : IsBlind clock (callbacks {C = C} epoll sender 0 address)
  unfolding handle_message on_message get_con_statue send send_inloop
  callbacks-IsBlind c ses m b = ground arith

  pub handled :
      (c : C) (m : List ℕ) (ses : Session S Backlog C)
      → ses.conn.onmessagecallback ≡ some c
      → Receive.handle_message clock (callbacks epoll sender 0 address) ses m
        ≡ on_message epoll sender true address m
            (touch clock (callbacks epoll sender 0 address) ses)
  unfolding Receive.handle_message handle_message
  handled c m ses set = rw set

module _ {S C : Type 0} (epoll : EpollApi S) (laws : EpollLaws epoll) (sender : SendApi S)
    (clock : ClockApi S) (address : ℕ)
    (clock_keeps : (s : S) (ep fd : ℕ)
      → laws.registered (clock.now s).1 ep fd ≡ laws.registered s ep fd) where
  -- A connection that is registered and answers.
  pub record Answering (c : C) (ses : Session S Backlog C) : Type 0 where
    pub alive : ses.conn.dis_connect ≡ false
    pub framed : ses.conn.output_buffer.sep ≡ 1
    pub in_step : IsInStep epoll laws sender printers ses
    pub known : (channel_of epoll laws sender printers ses).inepoll ≡ true
    pub set : ses.conn.onmessagecallback ≡ some c

  abbrev Echoes : C → List (List ℕ) → Session S Backlog C → Session S Backlog C → Type 0
  Echoes c ms ses t =
      (t.conn.output_buffer.buf ≡ ses.conn.output_buffer.buf ++ frames ms) × Answering c t

  touch-Answering :
      (c : C) (ses : Session S Backlog C)
      → Answering c ses
      → Answering c (touch clock (callbacks epoll sender 0 address) ses)
  unfolding touch
  touch-Answering c ses a = record {
    alive = a.alive;
    framed = a.framed;
    in_step = clock_keeps ses.sys _ _ ∙ a.in_step;
    known = a.known;
    set = a.set;
  }

  on_message-Echoes :
      (c : C) (m : List ℕ) (ses : Session S Backlog C)
      → Answering c ses
      → (t : Session S Backlog C) × (on_message epoll sender true address m ses ≡ ok t)
        × Echoes c (m ∷ []) ses t
  unfolding on_message send
  on_message-Echoes c m ses a =
      elim (send_inloop-Queued epoll laws sender printers ses m a.framed a.in_step) [
        | inl (off, run) ↦ absurd (cc (off, a.known))
        | inr (t, run, q) ↦ (
          t,
          simp (a.alive) run,
          (
            q.written ∙ ap (◌++◌ ses.conn.output_buffer.buf) (sym (append-nil (frame m))),
            record {
              alive = q.same_end ∙ a.alive;
              framed = q.same_sep ∙ a.framed;
              in_step = q.in_step;
              known = q.known;
              set = q.same_callback ∙ a.set;
            },
          ),
        )
      ]

  touch_output :
      (c : C) (m : List ℕ) (ses t : Session S Backlog C)
      → Echoes c (m ∷ []) (touch clock (callbacks epoll sender 0 address) ses) t
      → Echoes c (m ∷ []) ses t
  unfolding touch
  touch_output c m ses t e = e

  pub one-Echoes :
      (c : C) (m : List ℕ) (ses : Session S Backlog C)
      → Answering c ses
      → (t : Session S Backlog C) × (Receive.handle_message clock
            (callbacks epoll sender 0 address)
            ses
            m
          ≡ ok t)
        × Echoes c (m ∷ []) ses t
  one-Echoes c m ses a =
      let (t, run, e) =
        on_message-Echoes c m (touch clock (callbacks epoll sender 0 address) ses)
          (touch-Answering c ses a) in
      (t, handled epoll sender clock address c m ses a.set ∙ run, touch_output c m ses t e)

  serve-Echoes :
      (c : C) (ms : List (List ℕ)) (ses : Session S Backlog C)
      → Answering c ses
      → (t : Session S Backlog C) × (serve clock (callbacks epoll sender 0 address) ms ses ≡ ok t)
        × Echoes c ms ses t
  serve-Echoes c [] ses a = (ses, refl, (sym (append-nil ses.conn.output_buffer.buf), a))
  serve-Echoes c (m ∷ ms) ses a =
      let (t, run, (out, b)) = one-Echoes c m ses a in
      let (u, runs, (outs, d)) = serve-Echoes c ms t b in
      (
        u,
        rw run runs,
        (
          outs
              ∙ ap (λ l. l ++ frames ms) out
              ∙ append_assoc ses.conn.output_buffer.buf (frames (m ∷ [])) (frames ms)
              ∙ ap (λ l. ses.conn.output_buffer.buf ++ (l ++ frames ms)) (append-nil (frame m)),
          d,
        ),
      )

  -- Once a whole stream has been handled, the output buffer has got just that stream.
  pub serve-arrived :
      (c : C) (ms : List (List ℕ)) (ses : Session S Backlog C) {arrived : List ℕ}
      → arrived ≡ (append_sep_all (make 1) ms).buf
      → Answering c ses
      → (t : Session S Backlog C) × (serve clock (callbacks epoll sender 0 address) ms ses ≡ ok t)
        × (t.conn.output_buffer.buf ≡ ses.conn.output_buffer.buf ++ arrived)
        × Answering c t
  serve-arrived c ms ses all a =
      let (t, run, (out, b)) = serve-Echoes c ms ses a in
      (
        t,
        run,
        out
            ∙ ap (λ l. ses.conn.output_buffer.buf ++ l)
                (sym (all ∙ ap (λ (b : Buffer). b.buf) (append_sep_all-frames (make 1) ms refl))),
        b,
      )

  -- A server without workers, on a registered connection, with a clock that leaves epoll alone: however
  -- the stream of a client's `appendSep` calls, each of a message below 2 ^ 31 - 4 bytes, is cut into
  -- reads and events, once all of it has arrived the output buffer has got just that stream, the same
  -- messages in the same order, the input buffer is empty, and the connection is as ready as before.
  pub echoes_stream :
      (stale : S → ℕ → ℕ) (fuel : ℕ) {events : List (List ReadAnswer)} {arrived : List ℕ} (c : C)
      (ms : List (List ℕ)) (ses : Session S Backlog C)
      → ((s : S) (i : ℕ) → IsByte (stale s i))
      → Bursts events arrived
      → length ms < fuel
      → All IsFramable ms
      → arrived ≡ (append_sep_all (make 1) ms).buf
      → Answering c ses
      → (t : Session S Backlog C) × (read_events epoll clock
            (callbacks epoll sender 0 address)
            stale
            fuel
            events
            (with_input (make 1) ses)
          ≡ ok (with_input (make 1) t))
        × (t.conn.output_buffer.buf ≡ ses.conn.output_buffer.buf ++ arrived)
        × Answering c t
  echoes_stream stale fuel c ms ses bytes cut enough fit all a =
      let (t, run, out, b) = serve-arrived c ms ses all a in
      (
        t,
        read_events_complete epoll clock (callbacks epoll sender 0 address) stale bytes
              (callbacks-IsBlind epoll sender clock address) fuel cut ms ses enough fit all
            ∙ rw run,
        out,
        b,
      )
