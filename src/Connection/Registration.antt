-- ===== src/Connection/Registration.antt =====
-- A connection and its registration with the kernel: sending, closing, and a send that comes late.
use net_module.Base.{
  ℕ, ◌≡◌, refl, ap, ◌∙◌, ◌⊎◌, inl, inr, true, false, List, ◌++◌, Option, none, some, ok, err,
  exit_process, arith,
}
use mathlib.Core.Path.{subst}
use net_module.Base.Bits.{bit}
use net_module.System.{EpollApi, EpollLaws, EpollEvent, SendApi}
use net_module.Buffer.{Buffer, append, append_sep}
use net_module.Buffer.Erase.{frame, append_sep_cases}
use net_module.Channel.{Channel, with_writing, setinepoll}
use net_module.Channel.Interest.{interest_calls}
use net_module.Epoller.{enable_writing, event_of}
use net_module.Epoller.Sync.{InSync, Updates, interest-Updates, remove_channel-Settled}
use net_module.Connection.{Session, Callbacks, Handler}
use net_module.Connection.Close.{disconnect}
use net_module.Connection.Transmit.{send_inloop}

module _ {S U C : Type 0} (epoll : EpollApi S) (laws : EpollLaws epoll) (sender : SendApi S)
    (cbs : Callbacks S U C) where
  abbrev pub channel_of : Session S U C → Channel Handler
  channel_of ses = ses.conn.client_channel

  -- The kernel's entry for the connection.
  abbrev pub entry : Session S U C → Option EpollEvent
  entry ses = laws.registered ses.sys (channel_of ses).epollfd (channel_of ses).fd

  abbrev pub IsInStep : Session S U C → Type 0
  IsInStep ses = InSync epoll laws ses.sys (channel_of ses)

  -- What `sendInloop` leaves.
  pub record Queued (ses : Session S U C) (message : List ℕ) (t : Session S U C) : Type 0 where
    pub written : t.conn.output_buffer.buf ≡ ses.conn.output_buffer.buf ++ frame message
    pub writable : bit 2 (channel_of t).events ≡ 1
    pub in_step : IsInStep t
    pub known : (channel_of t).inepoll ≡ true
    pub same_end : t.conn.dis_connect ≡ ses.conn.dis_connect
    pub same_sep : t.conn.output_buffer.sep ≡ ses.conn.output_buffer.sep
    pub same_callback : t.conn.onmessagecallback ≡ ses.conn.onmessagecallback

  -- On a connection with headers whose flag agrees with the kernel, `sendInloop` adds the frame of the
  -- message behind what is pending and has the kernel watch for writing; it ends the process only where the kernel refuses a first registration.
  pub send_inloop-Queued :
      (ses : Session S U C) (message : List ℕ)
      → ses.conn.output_buffer.sep ≡ 1
      → IsInStep ses
      → ((channel_of ses).inepoll ≡ false)
          × (send_inloop epoll sender cbs message ses ≡ err exit_process)
        ⊎ ((t : Session S U C) × (send_inloop epoll sender cbs message ses ≡ ok t)
            × Queued ses message t)
  unfolding send_inloop with_writing setinepoll append
  send_inloop-Queued ses message one h =
      ended (interest-Updates epoll laws ses.sys (channel_of ses) h).2
    where
      ended :
          Updates epoll laws ses.sys
            (with_writing (channel_of ses))
            (enable_writing epoll ses.sys (channel_of ses))
          → ((channel_of ses).inepoll ≡ false)
              × (send_inloop epoll sender cbs message ses ≡ err exit_process)
            ⊎ ((t : Session S U C) × (send_inloop epoll sender cbs message ses ≡ ok t)
                × Queued ses message t)
      ended (inl (off, run)) = inl (off, rw run)
      ended (inr (ch, s, run, settled)) = inr (
        record ses {
          conn = record (ses.conn) {
            output_buffer = append_sep ses.conn.output_buffer message;
            client_channel = ch;
          };
          sys = s;
        },
        rw run,
        record {
          written =
              ap (λ (b : Buffer). b.buf) ((append_sep_cases ses.conn.output_buffer message).1 one);
          writable =
              ap (λ (c : Channel Handler). bit 2 c.events) settled.flagged
              ∙ (interest_calls (channel_of ses) 2 (omega arith)).2;
          in_step = settled.in_sync;
          known = ap (λ (c : Channel Handler). c.inepoll) settled.flagged;
          same_end = refl;
          same_sep =
              ap (λ (b : Buffer). b.sep) ((append_sep_cases ses.conn.output_buffer message).1 one);
          same_callback = refl;
        },
      )

  -- What the first half of `closeCallback` and `errorCallback` leaves.
  pub record Disconnected (ses t : Session S U C) : Type 0 where
    pub ended : t.conn.dis_connect ≡ true
    pub unregistered : entry t ≡ none
    pub in_step : IsInStep t
    pub kept_output : t.conn.output_buffer ≡ ses.conn.output_buffer
    pub kept_tasks : t.tasks ≡ ses.tasks
    pub kept_user : t.user ≡ ses.user
    pub kept_socket : t.conn.client_sock ≡ ses.conn.client_sock
    pub kept_close : t.conn.closecallback ≡ ses.conn.closecallback
    pub kept_error : t.conn.errorcallback ≡ ses.conn.errorcallback

  -- On a connection whose flag agrees with the kernel, closing always gets through: the connection is
  -- marked and the kernel forgets it.
  pub disconnect-Disconnected :
      (ses : Session S U C)
      → IsInStep ses
      → (t : Session S U C) × (disconnect epoll cbs ses ≡ ok t) × Disconnected ses t
  unfolding disconnect setinepoll
  disconnect-Disconnected ses h =
      let (ch, s, run, settled) = remove_channel-Settled epoll laws ses.sys (channel_of ses) h in
      let off : ch.inepoll ≡ false = ap (λ (c : Channel Handler). c.inepoll) settled.flagged in
      (
        record ses {
          conn = record (ses.conn) { dis_connect = true; client_channel = ch };
          sys = s;
        },
        rw run,
        record {
          ended = refl;
          unregistered = ground (arith, settled.in_sync, off);
          in_step = settled.in_sync;
          kept_output = refl;
          kept_tasks = refl;
          kept_user = refl;
          kept_socket = refl;
          kept_close = refl;
          kept_error = refl;
        },
      )

  -- `send` refuses a closed connection, but a send that was queued before the end still runs after
  -- it: it writes to the buffer and puts the closed connection back into the epoll instance, with
  -- its close callback ready to run once more.
  pub late_send_registers :
      (ses t u : Session S U C) (message : List ℕ)
      → IsInStep ses
      → ses.conn.output_buffer.sep ≡ 1
      → disconnect epoll cbs ses ≡ ok t
      → send_inloop epoll sender cbs message t ≡ ok u
      → (u.conn.dis_connect ≡ true) × (entry u ≡ some (event_of epoll (channel_of u)))
  late_send_registers ses t u message h one closed sent =
      let (t', run, d) = disconnect-Disconnected ses h in
      let d' : Disconnected ses t = subst (Disconnected ses) (cc) d in
      let sep : t.conn.output_buffer.sep ≡ 1 = ap (λ (b : Buffer). b.sep) d'.kept_output ∙ one in
      ended d' (send_inloop-Queued t message sep d'.in_step)
    where
      back :
          Disconnected ses t
          → Queued t message u
          → (u.conn.dis_connect ≡ true) × (entry u ≡ some (event_of epoll (channel_of u)))
      back d q = (q.same_end ∙ d.ended, ground (arith, q.in_step, q.known))

      ended :
          Disconnected ses t
          → ((channel_of t).inepoll ≡ false)
              × (send_inloop epoll sender cbs message t ≡ err exit_process)
            ⊎ ((v : Session S U C) × (send_inloop epoll sender cbs message t ≡ ok v)
                × Queued t message v)
          → (u.conn.dis_connect ≡ true) × (entry u ≡ some (event_of epoll (channel_of u)))
      ended d (inl (off, run)) = absurd (cc)
      ended d (inr (v, run, q)) = back d (subst (Queued t message) (cc) q)
