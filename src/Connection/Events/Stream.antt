-- ===== src/Connection/Events/Stream.antt =====
-- Many read events of a connection, each from the mask that `epoll_wait` reports for its channel on.
use net_module.Base.{
  ℕ, ◌≡◌, refl, sym, ap, ◌∙◌, List, [], ◌∷◌, ◌++◌, Option, some, Result, ok, err, ◌>>=◌, >>=_congr,
  >>=_assoc, map_ok, >>=-map_ok, map, arith,
}
use net_module.Base.Bits.{bit}
use net_module.System.{EpollApi, SendApi, ClockApi}
use net_module.Channel.{call, setrevents}
use net_module.Channel.Dispatch.{handle_event_cases}
use net_module.Connection
use net_module.Connection.{Session, Callbacks, ReadAnswer, bytes}
use net_module.Connection.Receive.{onmessage_callback}
use net_module.Connection.Receive.Stream.{
  Burst, drained, drained', more, interrupted, read_past, Bursts, read_events,
}
use net_module.Connection.Events.{with_revents, run_handler, dispatch_event}
use net_module.Connection.Events.Kept.{handlers, Preserves, onmessage-seen}
use net_module.Connection.Events.Masks.{IsMaskBlind, deliver-with_revents}

-- There is something to read (EPOLLIN), and no EPOLLRDHUP, which is never asked for.
abbrev pub IsInput : ℕ → Type 0
IsInput mask = (bit 13 mask ≡ 0) × (bit 0 mask ≡ 1)

-- Events of a connection, and the bytes that they bring.
pub data Arrivals : List (ℕ × List ReadAnswer) → List ℕ → Type 0 where
  none_left : Arrivals [] []
  next :
      {mask : ℕ} {answers : List ReadAnswer} {bs cs : List ℕ} {events : List (ℕ × List ReadAnswer)}
      → IsInput mask
      → Burst answers bs
      → Arrivals events cs
      → Arrivals ((mask, answers) ∷ events) (bs ++ cs)

abbrev pub answers_of : List (ℕ × List ReadAnswer) → List (List ReadAnswer)
answers_of = map (λ (event : ℕ × List ReadAnswer). event.1)

pub Arrivals-Bursts :
    {events : List (ℕ × List ReadAnswer)} {bs : List ℕ}
    → Arrivals events bs
    → Bursts (answers_of events) bs
Arrivals-Bursts none_left = Bursts.none_left
Arrivals-Bursts (next input burst more_events) = Bursts.next burst (Arrivals-Bursts more_events)

-- What the constructor of a connection binds for reading and for writing.
abbrev pub as_made : Option Connection.Handler × Option Connection.Handler
as_made = (some Connection.onmessage_callback, some Connection.write_callback)

-- The mask that the channel shows after the events.
abbrev pub last_mask : ℕ → List (ℕ × List ReadAnswer) → ℕ
last_mask mask [] = mask
last_mask mask (event ∷ events) = last_mask event.0 events

module _ {S U C : Type 0} (epoll : EpollApi S) (sender : SendApi S) (clock : ClockApi S)
    (cbs : Callbacks S U C) (stale : S → ℕ → ℕ) where
  -- The events one after the other, from `EventLoop::run` on.
  abbrev pub dispatch_events :
      ℕ → List (ℕ × List ReadAnswer) → Session S U C → Result (Session S U C)
  dispatch_events fuel [] ses = ok ses
  dispatch_events fuel (event ∷ events) ses =
      dispatch_event epoll sender clock cbs stale fuel event.1 event.0 ses
      >>= dispatch_events fuel events

  pub dispatch_events-append :
      (fuel : ℕ) (es fs : List (ℕ × List ReadAnswer)) (ses : Session S U C)
      → dispatch_events fuel (es ++ fs) ses
        ≡ (dispatch_events fuel es ses >>= dispatch_events fuel fs)
  dispatch_events-append fuel [] fs ses = refl
  dispatch_events-append fuel (e ∷ es) fs ses =
      >>=_congr (dispatch_event epoll sender clock cbs stale fuel e.1 e.0 ses) _ _
        (dispatch_events-append fuel es fs)
      ∙ sym (
          >>=_assoc (dispatch_event epoll sender clock cbs stale fuel e.1 e.0 ses)
            (dispatch_events fuel es) (dispatch_events fuel fs))

  module _ (blind : IsMaskBlind clock cbs stale) (kept : Preserves clock cbs handlers) where
    onmessage-with_revents :
        (fuel : ℕ) {answers : List ReadAnswer} {bs : List ℕ}
        → Burst answers bs
        → (ses : Session S U C) (mask : ℕ)
        → onmessage_callback epoll clock cbs stale fuel answers (with_revents mask ses)
          ≡ map_ok (with_revents mask) (onmessage_callback epoll clock cbs stale fuel answers ses)
    unfolding onmessage_callback
    onmessage-with_revents fuel drained ses mask =
        deliver-with_revents clock cbs stale blind fuel [] ses mask
    onmessage-with_revents fuel drained' ses mask =
        deliver-with_revents clock cbs stale blind fuel [] ses mask
    onmessage-with_revents fuel (more b) ses mask = onmessage-with_revents fuel b _ mask
    onmessage-with_revents fuel (interrupted b) ses mask = onmessage-with_revents fuel b ses mask
    onmessage-with_revents fuel (read_past b) ses mask = onmessage-with_revents fuel b ses mask

    read_events-with_revents :
        (fuel : ℕ) {events : List (List ReadAnswer)} {bs : List ℕ}
        → Bursts events bs
        → (ses : Session S U C) (mask : ℕ)
        → read_events epoll clock cbs stale fuel events (with_revents mask ses)
          ≡ map_ok (with_revents mask) (read_events epoll clock cbs stale fuel events ses)
    read_events-with_revents fuel Bursts.none_left ses mask = refl
    read_events-with_revents fuel (Bursts.next {answers} {events} b bs) ses mask =
        rw (onmessage-with_revents fuel b ses mask) (
          >>=-map_ok (onmessage_callback epoll clock cbs stale fuel answers ses) (with_revents mask)
            (read_events epoll clock cbs stale fuel events)
            (read_events epoll clock cbs stale fuel events) (with_revents mask)
            (λ t. read_events-with_revents fuel bs t mask))

    dispatch_input :
        (fuel : ℕ) (answers : List ReadAnswer) (mask : ℕ) (ses : Session S U C)
        → IsInput mask
        → handlers ses ≡ as_made
        → dispatch_event epoll sender clock cbs stale fuel answers mask ses
          ≡ onmessage_callback epoll clock cbs stale fuel answers (with_revents mask ses)
    unfolding dispatch_event setrevents
    dispatch_input fuel answers mask ses (no_hangup, input) bound =
        let handled =
          (handle_event_cases (setrevents ses.conn.client_channel mask)).1 no_hangup
            (ground (arith, input)) in
        ap
          (λ (r : Result Connection.Handler). r >>= λ h.
            run_handler epoll sender clock cbs stale h fuel answers (with_revents mask ses))
          (handled ∙ ap (λ h. call h.0) bound)

    -- The events of a channel that calls what the constructor bound do what the reads alone do, and the mask
    -- of the last one stays in the channel.
    pub dispatch_events-read :
        (fuel : ℕ) {events : List (ℕ × List ReadAnswer)} {bs : List ℕ}
        → Arrivals events bs
        → (ses : Session S U C) → handlers ses ≡ as_made
        → dispatch_events fuel events ses
          ≡ map_ok
              (with_revents (last_mask ses.conn.client_channel.revents events))
              (read_events epoll clock cbs stale fuel (answers_of events) ses)
    unfolding setrevents
    dispatch_events-read fuel none_left ses bound = refl
    dispatch_events-read fuel (next {mask} {answers} {bs} {cs} {events} input b later) ses bound =
        rw
          (dispatch_input fuel answers mask ses input bound, onmessage-with_revents fuel b ses mask)
          (after (onmessage_callback epoll clock cbs stale fuel answers ses)
            (onmessage-seen clock cbs handlers stale kept epoll fuel b ses)
            (dispatch_events-read fuel later))
      where
        newest :
            (r : Result (Session S U C))
            → map_ok (with_revents (last_mask mask events)) (map_ok (with_revents mask) r)
              ≡ map_ok (with_revents (last_mask mask events)) r
        newest (err e) = refl
        newest (ok t) = refl

        after :
            (r : Result (Session S U C))
            → ((t : Session S U C) → r ≡ ok t → handlers t ≡ handlers ses)
            → ((t : Session S U C)
                → handlers t ≡ as_made
                → dispatch_events fuel events t
                  ≡ map_ok
                      (with_revents (last_mask t.conn.client_channel.revents events))
                      (read_events epoll clock cbs stale fuel (answers_of events) t))
            → (map_ok (with_revents mask) r >>= dispatch_events fuel events)
              ≡ map_ok
                  (with_revents (last_mask mask events))
                  (r >>= read_events epoll clock cbs stale fuel (answers_of events))
        after (err e) still rest = refl
        after (ok t) still rest =
            rest (with_revents mask t) (still t refl ∙ bound)
            ∙ ap (map_ok (with_revents (last_mask mask events)))
                (read_events-with_revents fuel (Arrivals-Bursts later) t mask)
            ∙ newest (read_events epoll clock cbs stale fuel (answers_of events) t)
