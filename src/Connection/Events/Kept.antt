-- ===== src/Connection/Events/Kept.antt =====
-- What the read events of a connection leave of its session, for anything that neither the bytes, nor the
-- clock, nor the user's function for messages reach.
use net_module.Base.{
  ℕ, zero, suc, ◌≡◌, sym, ap, ◌∙◌, Bool, true, false, List, [], Option, ok, ◌>>=◌, >>=-eq-ok,
}
use net_module.System.{EpollApi, ClockApi}
use net_module.Buffer.{Buffer, Picked, pick_message}
use net_module.Channel.{call}
use net_module.Connection
use net_module.Connection.{Session, Callbacks, ReadAnswer}
use net_module.Connection.Receive.{with_input, touch, handle_message, deliver, onmessage_callback}
use net_module.Connection.Receive.Stream.{
  Burst, drained, drained', more, interrupted, read_past, Bursts, read_events,
}

module _ {S U C : Type 0} where
  -- What the channel calls when there is something to read, and when there is room to write.
  abbrev pub handlers : Session S U C → Option Connection.Handler × Option Connection.Handler
  handlers ses = (ses.conn.client_channel.read_callback, ses.conn.client_channel.write_callback)

module _ {S U C A : Type 0} (clock : ClockApi S) (cbs : Callbacks S U C)
    (seen : Session S U C → A) where
  pub record Preserves : Type 0 where
    pub input : (b : Buffer) (ses : Session S U C) → seen (with_input b ses) ≡ seen ses
    pub touched : (ses : Session S U C) → seen (touch clock cbs ses) ≡ seen ses
    pub called :
        (c : C) (ses t : Session S U C) (m : List ℕ)
        → cbs.on_message c ses m ≡ ok t
        → seen t ≡ seen ses

  module _ (stale : S → ℕ → ℕ) (kept : Preserves) where
    handle_message-seen :
        (ses t : Session S U C) (m : List ℕ)
        → handle_message clock cbs ses m ≡ ok t
        → seen t ≡ seen ses
    unfolding handle_message
    handle_message-seen ses t m h =
        let (c, named, run) = >>=-eq-ok (call (touch clock cbs ses).conn.onmessagecallback) _ h in
        kept.called c (touch clock cbs ses) t m run ∙ kept.touched ses

    deliver-seen :
        (fuel : ℕ) (ss : List ℕ) (ses t : Session S U C)
        → deliver clock cbs stale fuel ss ses ≡ ok t
        → seen t ≡ seen ses
    unfolding deliver
    deliver-seen zero ss ses t h = absurd (cc)
    deliver-seen (suc fuel) ss ses t h =
        let (p, run, rest) =
          >>=-eq-ok (pick_message (stale ses.sys) ses.conn.input_buffer ss) _ h in
        picked p p.found (λ u v. deliver-seen fuel p.message u v) rest
      where
        picked :
            (p : Picked) (found : Bool)
            → ((u v : Session S U C)
                → deliver clock cbs stale fuel p.message u ≡ ok v
                → seen v ≡ seen u)
            → elim found [
              | true ↦ (do
                ses' ← handle_message clock cbs (with_input p.buffer ses) p.message
                deliver clock cbs stale fuel p.message ses')
              | false ↦ ok (with_input p.buffer ses)
            ]
              ≡ ok t
            → seen t ≡ seen ses
        picked p true rest h =
            let (u, run, after) =
              >>=-eq-ok (handle_message clock cbs (with_input p.buffer ses) p.message) _ h in
            rest u t after
            ∙ handle_message-seen (with_input p.buffer ses) u p.message run
            ∙ kept.input p.buffer ses
        picked p false rest h =
            let same : with_input p.buffer ses ≡ t = cc in
            ap seen (sym same) ∙ kept.input p.buffer ses

    module _ (epoll : EpollApi S) (fuel : ℕ) where
      pub onmessage-seen :
          {answers : List ReadAnswer} {bs : List ℕ}
          → Burst answers bs
          → (ses t : Session S U C)
          → onmessage_callback epoll clock cbs stale fuel answers ses ≡ ok t
          → seen t ≡ seen ses
      unfolding onmessage_callback
      onmessage-seen drained ses t h = deliver-seen fuel [] ses t h
      onmessage-seen drained' ses t h = deliver-seen fuel [] ses t h
      onmessage-seen (more b) ses t h = onmessage-seen b _ t h ∙ kept.input _ ses
      onmessage-seen (interrupted b) ses t h = onmessage-seen b ses t h
      onmessage-seen (read_past b) ses t h = onmessage-seen b ses t h

      pub read_events-seen :
          {events : List (List ReadAnswer)} {bs : List ℕ}
          → Bursts events bs
          → (ses t : Session S U C) → read_events epoll clock cbs stale fuel events ses ≡ ok t
          → seen t ≡ seen ses
      read_events-seen Bursts.none_left ses t h = let same : ses ≡ t = cc in ap seen (sym same)
      read_events-seen (Bursts.next {answers} b bs) ses t h =
          let (u, run, rest) =
            >>=-eq-ok (onmessage_callback epoll clock cbs stale fuel answers ses) _ h in
          read_events-seen bs u t rest ∙ onmessage-seen b ses u run
