-- ===== src/Connection/Made.antt =====
-- What the constructor of a connection leaves (Connection.cpp, lines 9 to 22), and an event that comes
-- before the server has bound the callbacks.
use net_module.Base.{
  ℕ, ◌≡◌, refl, sym, ap, ◌∙◌, ◌⊎◌, inl, inr, true, false, none, some, ok, err, exit_process, arith,
}
use mathlib.Core.Path.{subst}
use net_module.Base.Bits.{bit}
use net_module.System.{EpollApi, EpollLaws, ClockApi}
use net_module.Buffer
use net_module.Buffer.{Buffer}
use net_module.Timestamp
use net_module.Socket.{Socket, getfd}
use net_module.Channel
use net_module.Channel.{
  Channel, setinepoll, usset, with_reading, setread_callback, setwrite_callback, setclose_callback,
  seterror_callback,
}
use net_module.Channel.Interest.{interest_calls, reading_on, edge}
use net_module.Connection.Events.{Bound, change-Bound, setinepoll-Bound}
use net_module.Epoller.{enable_reading}
use net_module.Epoller.Sync.{InSync, Updates, interest-Updates}
use net_module.Connection
use net_module.Connection.{
  Connection, Session, Callbacks, Handler, onmessage_callback, close_callback, error_callback,
  write_callback, ReadAnswer,
}

-- The channel of a new connection before it is registered.
abbrev pub new_channel : ℕ → ℕ → ℕ → Channel Handler
new_channel address epollfd fd = record (Channel.make address epollfd fd) {
  read_callback = some onmessage_callback;
  close_callback = some close_callback;
  error_callback = some error_callback;
  write_callback = some write_callback;
}

-- Neither the flag nor the interest that the constructor sets touches the functions.
registered-Bound :
    (address epollfd fd : ℕ)
    → Bound (setinepoll (with_reading (usset (new_channel address epollfd fd))) true)
unfolding bit
registered-Bound address epollfd fd = setinepoll-Bound _ true (
    change-Bound (usset (new_channel address epollfd fd)) reading_on (
      change-Bound (new_channel address epollfd fd) edge
        (record { plain = (refl, refl); on_read = refl; on_write = refl; on_error = refl })))

-- A new connection on a socket, with a registered channel, at a time.
abbrev fresh_connection : {C : Type 0} → Socket → Channel Handler → ℕ → Connection C
fresh_connection sock ch ticks = record {
  client_sock = sock;
  client_channel = ch;
  input_buffer = Buffer.make 1;
  output_buffer = Buffer.make 1;
  dis_connect = false;
  closecallback = none;
  errorcallback = none;
  onmessagecallback = none;
  sendcompletecallback = none;
  last_time = record { ticks = ticks };
}

module _ {S C : Type 0} (epoll : EpollApi S) (laws : EpollLaws epoll) (clock : ClockApi S)
    (clock_keeps : (s : S) (ep fd : ℕ)
      → laws.registered (clock.now s).1 ep fd ≡ laws.registered s ep fd) where
  -- A new connection: watched for reading, edge triggered, and with no callback of the user's.
  pub record Made (address epollfd : ℕ) (sock : Socket) (conn : Connection C) (t : S) : Type 0 where
    pub socket : conn.client_sock ≡ sock
    pub in_step : InSync epoll laws t conn.client_channel
    pub known : conn.client_channel.inepoll ≡ true
    pub readable : bit 0 conn.client_channel.events ≡ 1
    pub edge : bit 31 conn.client_channel.events ≡ 1
    pub bound : Bound conn.client_channel
    pub alive : conn.dis_connect ≡ false
    pub input : conn.input_buffer ≡ Buffer.make 1
    pub output : conn.output_buffer ≡ Buffer.make 1
    pub no_close : conn.closecallback ≡ none
    pub no_message : conn.onmessagecallback ≡ none

  -- For a descriptor that the loop does not watch yet, the constructor ends the process if the kernel
  -- refuses it, and otherwise returns.
  pub make-Made :
      (s : S) (address epollfd : ℕ) (sock : Socket)
      → laws.registered s epollfd (getfd sock) ≡ none
      → (Connection.make {C = C} epoll clock s address epollfd sock ≡ err exit_process)
        ⊎ ((conn : Connection C) × (t : S) × (Connection.make epoll clock s address epollfd sock
              ≡ ok (conn, t))
            × Made address epollfd sock conn t)
  unfolding Connection.make Timestamp.now setread_callback setwrite_callback setclose_callback
      seterror_callback usset with_reading setinepoll getfd
  make-Made s address epollfd sock fresh =
      ended (interest-Updates epoll laws (clock.now s).1 channel (clock_keeps s _ _ ∙ fresh)).0
    where
      channel : Channel Handler
      channel = usset (new_channel address epollfd (getfd sock))

      ended :
          Updates epoll laws
            (clock.now s).1
            (with_reading channel)
            (enable_reading epoll (clock.now s).1 channel)
          → (Connection.make {C = C} epoll clock s address epollfd sock ≡ err exit_process)
            ⊎ ((conn : Connection C) × (t : S) × (Connection.make epoll clock s address epollfd sock
                  ≡ ok (conn, t))
                × Made address epollfd sock conn t)
      ended (inl (off, run)) = inl (rw run refl)
      ended (inr (ch, t, run, settled)) = inr (
        fresh_connection sock ch (clock.now s).0,
        t,
        rw run refl,
        record {
          socket = refl;
          in_step = settled.in_sync;
          known = ap (λ (c : Channel Handler). c.inepoll) settled.flagged;
          readable =
              ap (λ (c : Channel Handler). bit 0 c.events) settled.flagged
              ∙ (interest_calls channel 0 (omega arith)).0;
          edge =
              ap (λ (c : Channel Handler). bit 31 c.events) settled.flagged
              ∙ (interest_calls channel 31 (omega arith)).0
              ∙ (interest_calls (new_channel address epollfd (getfd sock)) 31 (omega arith)).4;
          bound = subst Bound (sym settled.flagged) (registered-Bound address epollfd (getfd sock));
          alive = refl;
          input = refl;
          output = refl;
          no_close = refl;
          no_message = refl;
        },
      )

  -- The same of a constructor that has returned.
  pub make-Made_of_ok :
      (s t : S) (address epollfd : ℕ) (sock : Socket) (conn : Connection C)
      → laws.registered s epollfd (getfd sock) ≡ none
      → Connection.make epoll clock s address epollfd sock ≡ ok (conn, t)
      → Made address epollfd sock conn t
  make-Made_of_ok s t address epollfd sock conn fresh run =
      elim (make-Made s address epollfd sock fresh) [
        | inl exits ↦ absurd (cc (exits, run))
        | inr (c, u, ran, made) ↦
            let same : ◌≡◌ {A = Connection C × S} (c, u) (conn, t) = cc (ran, run) in
            subst (λ p. Made address epollfd sock p.0 p.1) same made
      ]
