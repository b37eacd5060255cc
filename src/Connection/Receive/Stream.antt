-- ===== src/Connection/Receive/Stream.antt =====
-- The outer loop of `onmessageCallback`, and many calls of it: however a stream of frames is cut into
-- reads and events, its messages are handled once each, in order.
use net_module.Base.{
  ℕ, ◌<◌, ◌≡◌, refl, sym, ap, ◌∙◌, List, [], ◌∷◌, ◌++◌, Result, ok, ◌>>=◌, map_ok, >>=-map_ok,
  arith, All, All-append_left, All-append_right, length, length-append, append_assoc, append-nil,
}
use mathlib.Core.Path.{subst}
use net_module.System.{EpollApi, ClockApi}
use net_module.Buffer.{Buffer, make, append}
use net_module.Buffer.Pick.{IsByte, IsFramable}
use net_module.Buffer.Framing.{
  frames, IsPending, at_seam, Prefix, cut-Prefix, IsPending-all, append_sep_all,
  append_sep_all-frames,
}
use net_module.Connection.{
  Session, Callbacks, ReadAnswer, bytes, failed, eintr, eagain, ewouldblock, other,
}
use net_module.Connection.Receive.{with_input, deliver, onmessage_callback}
use net_module.Connection.Receive.Deliver.{holding, IsBlind, serve, serve-append, deliver-serve}

-- The answers of `read` during one event that ends with an empty socket, and the bytes they bring.
pub data Burst : List ReadAnswer → List ℕ → Type 0 where
  drained : {rest : List ReadAnswer} → Burst (failed eagain ∷ rest) []
  drained' : {rest : List ReadAnswer} → Burst (failed ewouldblock ∷ rest) []
  more :
      {x : ℕ} {xs bs : List ℕ} {rest : List ReadAnswer}
      → Burst rest bs
      → Burst (bytes (x ∷ xs) ∷ rest) (x ∷ (xs ++ bs))
  interrupted :
      {bs : List ℕ} {rest : List ReadAnswer} → Burst rest bs → Burst (failed eintr ∷ rest) bs
  read_past :
      {bs : List ℕ} {rest : List ReadAnswer} → Burst rest bs → Burst (failed other ∷ rest) bs

-- One event after the other.
pub data Bursts : List (List ReadAnswer) → List ℕ → Type 0 where
  none_left : Bursts [] []
  next :
      {answers : List ReadAnswer} {bs cs : List ℕ} {events : List (List ReadAnswer)}
      → Burst answers bs
      → Bursts events cs
      → Bursts (answers ∷ events) (bs ++ cs)

module _ {S U C : Type 0} (epoll : EpollApi S) (clock : ClockApi S) (cbs : Callbacks S U C)
    (stale : S → ℕ → ℕ) where
  -- All bytes of the event are in the buffer before the first message is taken out.
  pub onmessage-Burst :
      (fuel : ℕ) {answers : List ReadAnswer} {bs : List ℕ}
      → Burst answers bs
      → (front : List ℕ) (ses : Session S U C)
      → onmessage_callback epoll clock cbs stale fuel answers (with_input (holding front) ses)
        ≡ deliver clock cbs stale fuel [] (with_input (holding (front ++ bs)) ses)
  unfolding onmessage_callback append
  onmessage-Burst fuel drained front ses = rw (append-nil front)
  onmessage-Burst fuel drained' front ses = rw (append-nil front)
  onmessage-Burst fuel (more {x} {xs} {bs} b) front ses =
      onmessage-Burst fuel b (front ++ x ∷ xs) ses
      ∙ ap (λ l. deliver clock cbs stale fuel [] (with_input (holding l) ses))
          (append_assoc front (x ∷ xs) bs)
  onmessage-Burst fuel (interrupted b) front ses = onmessage-Burst fuel b front ses
  onmessage-Burst fuel (read_past b) front ses = onmessage-Burst fuel b front ses

  -- The read events of one connection, each with the answers of its calls of `read`.
  abbrev pub read_events : ℕ → List (List ReadAnswer) → Session S U C → Result (Session S U C)
  read_events fuel [] ses = ok ses
  read_events fuel (answers ∷ events) ses =
      onmessage_callback epoll clock cbs stale fuel answers ses >>= read_events fuel events

  -- What has been handled of the messages `ms` when `rest` is still to arrive: `whole`, and the
  -- bytes `part` wait in the buffer.
  pub record Received (ms : List (List ℕ)) (front rest : List ℕ) (fuel : ℕ)
      (events : List (List ReadAnswer)) : Type 0 where
    pub whole : List (List ℕ)
    pub later : List (List ℕ)
    pub part : List ℕ
    pub all : ms ≡ whole ++ later
    pub waiting_lem : frames later ≡ part ++ rest
    pub pending : IsPending part later
    pub run :
        (ses : Session S U C)
        → read_events fuel events (with_input (holding front) ses)
          ≡ map_ok (with_input (holding part)) (serve clock cbs whole ses)

module _ {S U C : Type 0} (epoll : EpollApi S) (clock : ClockApi S) (cbs : Callbacks S U C)
    (stale : S → ℕ → ℕ) (are_bytes : (s : S) (i : ℕ) → IsByte (stale s i))
    (blind : IsBlind clock cbs) where
  -- One event, when the buffer and its bytes are whole frames and a part.
  event-serve :
      (fuel : ℕ) {answers : List ReadAnswer} {bs : List ℕ}
      → Burst answers bs
      → (ms : List (List ℕ)) (front back : List ℕ) (pre : Prefix ms (front ++ bs) back)
      → length ms < fuel
      → All IsFramable ms
      → (ses : Session S U C)
      → onmessage_callback epoll clock cbs stale fuel answers (with_input (holding front) ses)
        ≡ map_ok (with_input (holding pre.part)) (serve clock cbs pre.whole ses)
  event-serve fuel {bs} b ms front back pre f fit ses =
      onmessage-Burst epoll clock cbs stale fuel b front ses
      ∙ ap (λ l. deliver clock cbs stale fuel [] (with_input (holding l) ses)) pre.front_lem
      ∙ deliver-serve clock cbs stale are_bytes blind pre.whole pre.later pre.part fuel [] ses
          (omega (arith, ap length pre.all, length-append pre.whole pre.later))
          (All-append_left IsFramable pre.whole pre.later fit')
          (All-append_right IsFramable pre.whole pre.later fit') pre.pending
    where
      fit' : All IsFramable (pre.whole ++ pre.later)
      fit' = subst (All IsFramable) pre.all fit

  -- However a stream of frames is cut into reads and events, the messages that have arrived whole are
  -- handled once each, in order, and only the bytes of the next one stay in the buffer: with messages
  -- below 2 ^ 31 - 4 bytes, a user's function that does not reach the buffer, and more fuel than
  -- messages.
  pub read_events-Received :
      (fuel : ℕ) {events : List (List ReadAnswer)} {arrived : List ℕ}
      → Bursts events arrived
      → (ms : List (List ℕ)) (front rest : List ℕ) → length ms < fuel
      → All IsFramable ms
      → IsPending front ms
      → frames ms ≡ front ++ (arrived ++ rest)
      → Received epoll clock cbs stale ms front rest fuel events
  read_events-Received fuel none_left ms front rest f fit p e = record {
    whole = [];
    later = ms;
    part = front;
    all = refl;
    waiting_lem = e;
    pending = p;
    run = λ ses. refl;
  }
  read_events-Received fuel (next {bs} {cs} {events} b more_events) ms front rest f fit p e =
      let pre : Prefix ms (front ++ bs) (cs ++ rest) = cut-Prefix ms (front ++ bs) (cs ++ rest) (
        e ∙ ap (◌++◌ front) (append_assoc bs cs rest) ∙ sym (append_assoc front bs (cs ++ rest))) in
      let sub : Received epoll clock cbs stale pre.later pre.part rest fuel events =
        read_events-Received fuel more_events pre.later pre.part rest
          (omega (arith, ap length pre.all, length-append pre.whole pre.later))
          (All-append_right IsFramable pre.whole pre.later (subst (All IsFramable) pre.all fit))
          pre.pending pre.back_lem in
      record {
        whole = pre.whole ++ sub.whole;
        later = sub.later;
        part = sub.part;
        all =
            pre.all
            ∙ ap (◌++◌ pre.whole) sub.all
            ∙ sym (append_assoc pre.whole sub.whole sub.later);
        waiting_lem = sub.waiting_lem;
        pending = sub.pending;
        run = λ ses. rw (event-serve fuel b ms front (cs ++ rest) pre f fit ses) (
            >>=-map_ok (serve clock cbs pre.whole ses) (with_input (holding pre.part))
              (read_events epoll clock cbs stale fuel events) (serve clock cbs sub.whole)
              (with_input (holding sub.part)) sub.run
            ∙ ap (map_ok (with_input (holding sub.part)))
                (sym (serve-append clock cbs pre.whole sub.whole ses)));
      }

  -- Once the whole stream of a peer's `appendSep` calls has arrived, cut into reads and events in any
  -- way, each message has been handled once, in order, and the buffer is empty: with messages below
  -- 2 ^ 31 - 4 bytes, a user's function that does not reach the buffer, and more fuel than messages.
  pub read_events_complete :
      (fuel : ℕ) {events : List (List ReadAnswer)} {arrived : List ℕ}
      → Bursts events arrived
      → (ms : List (List ℕ)) (ses : Session S U C) → length ms < fuel
      → All IsFramable ms
      → arrived ≡ (append_sep_all (make 1) ms).buf
      → read_events epoll clock cbs stale fuel events (with_input (make 1) ses)
        ≡ map_ok (with_input (make 1)) (serve clock cbs ms ses)
  read_events_complete fuel {events} {arrived} b ms ses f fit e =
      got.run ses
      ∙ ap (λ l. map_ok (with_input (holding l)) (serve clock cbs got.whole ses)) done.1
      ∙ ap (λ l. map_ok (with_input (make 1)) (serve clock cbs l ses)) (sym all_whole)
    where
      got : Received epoll clock cbs stale ms [] [] fuel events
      got = read_events-Received fuel b ms [] [] f fit (at_seam refl) (
          sym (ap (λ (b : Buffer). b.buf) (append_sep_all-frames (make 1) ms refl))
          ∙ sym e
          ∙ sym (append-nil arrived))

      done : (got.later ≡ []) × (got.part ≡ [])
      done = IsPending-all got.part got.later got.pending got.waiting_lem

      all_whole : ms ≡ got.whole
      all_whole = got.all ∙ ap (◌++◌ got.whole) done.0 ∙ append-nil got.whole
