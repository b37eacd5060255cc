-- ===== src/Connection/Events/Looped.antt =====
-- The events of one connection in the loop of its thread: `EventLoop::run` (src/EventLoop.cpp, lines
-- 77 to 91) over `epoll_wait`, down to the member functions of the connection.
use net_module.Base.{
  ℕ, ◌≡◌, refl, ap, ◌∙◌, false, List, [], ◌∷◌, ◌++◌, Option, none, some, Result, ok, err, undefined,
  waiting, ◌>>=◌, map, >>=_congr, >>=-eq-ok,
}
use net_module.Base.IntMap.{lookup, insert, lookup-insert_same}
use net_module.System.{EpollApi, SendApi, ClockApi}
use net_module.Channel.{Channel, setrevents, handle_event}
use net_module.Epoller.{WaitAnswer, occurred, loop, mark_events}
use net_module.EventLoop.Run.{Running, handle_all, pass, run}
use net_module.EventLoop.Run.Passes.{run_going, handle_at_there}
use net_module.Connection.{Handler, Session, Callbacks, ReadAnswer}
use net_module.Connection.Events.{with_revents, run_handler, dispatch_event}
use net_module.Connection.Events.Stream.{dispatch_events, answers_of}

-- What `epoll_wait` reports of an event of the channel at an address.
abbrev pub reported : ℕ → ℕ × List ReadAnswer → WaitAnswer
reported address event = occurred ((record { events = event.0; ptr = address }) ∷ [])

-- The loop with a connection, and what `read` will answer in each event to come.
abbrev pub Looped : Type 0 → Type 0 → Type 0 → Type 0 → Type 0
Looped S U C K = Running Handler K (Session S U C × List (List ReadAnswer))

module _ {S U C K : Type 0} (epoll : EpollApi S) (sender : SendApi S) (clock : ClockApi S)
    (cbs : Callbacks S U C) (stale : S → ℕ → ℕ) (fuel address : ℕ)
    (on_timeout : K → Looped S U C K → Result (Looped S U C K)) where
  -- The member function of a connection whose channel is in memory at `address`.
  abbrev pub serve_channel :
      Handler
      → Session S U C × List (List ReadAnswer)
      → Option (Channel Handler)
      → Looped S U C K
      → Result (Looped S U C K)
  serve_channel h others none r = err undefined
  serve_channel h (ses, []) (some ch) r = err waiting
  serve_channel h (ses, answers ∷ later) (some ch) r = do
    t ←
        run_handler epoll sender clock cbs stale h fuel answers
          (record ses { conn = record (ses.conn) { client_channel = ch } })
    ok (record r {
      channels = insert address t.conn.client_channel r.channels;
      others = (t, later);
    })

  abbrev pub handle : Handler → Looped S U C K → Result (Looped S U C K)
  handle h r = serve_channel h r.others (lookup address r.channels) r

  loop_one :
      (mask : ℕ) (ch : Channel Handler) (channels : List (ℕ × Channel Handler))
      → lookup address channels ≡ some ch
      → loop (occurred ((record { events = mask; ptr = address }) ∷ [])) channels
        ≡ ok (address ∷ [], insert address (setrevents ch mask) channels)
  unfolding loop mark_events
  loop_one mask ch channels here = rw (here, mark_events) refl

  flat :
      {A B D : Type 0} (m : Result A) (f : A → Result B) (g : B → D) (k : D → Result D)
      → ((m >>= λ a. f a >>= λ b. ok (g b)) >>= ok >>= k) ≡ (m >>= f >>= λ b. k (g b))
  flat (err e) f g k = refl
  flat {B = B} {D = D} (ok a) f g k = once (f a)
    where
      once : (n : Result B) → ((n >>= λ b. ok (g b)) >>= ok >>= k) ≡ (n >>= λ b. k (g b))
      once (err e) = refl
      once (ok b) = refl

  -- The loop after a member function of the connection has returned.
  abbrev served :
      ℕ → List (List ReadAnswer) → Session S U C → Looped S U C K → Session S U C → Looped S U C K
  served mask later ses r t = record r {
    channels =
        insert address t.conn.client_channel
          (insert address (setrevents ses.conn.client_channel mask) r.channels);
    others = (t, later);
  }

  one_event :
      (mask : ℕ) (answers : List ReadAnswer) (later : List (List ReadAnswer)) (ses : Session S U C)
      (r : Looped S U C K) (more : List WaitAnswer)
      → r.stopped ≡ false
      → lookup address r.channels ≡ some ses.conn.client_channel
      → r.others ≡ (ses, answers ∷ later)
      → run handle on_timeout (reported address (mask, answers) ∷ more) r ≡ (
          dispatch_event epoll sender clock cbs stale fuel answers mask ses >>= λ t.
          run handle on_timeout more (served mask later ses r t))
  unfolding pass handle_all dispatch_event
  one_event mask answers later ses r more going here others =
      run_going handle on_timeout (reported address (mask, answers)) more r going
      ∙ ap
          (λ (m : Result (List ℕ × List (ℕ × Channel Handler))). m >>= λ (active, channels).
            pass handle on_timeout active (record r { channels = channels })
            >>= run handle on_timeout more)
          (loop_one mask ses.conn.client_channel r.channels here)
      ∙ ap (λ m. m >>= ok >>= run handle on_timeout more)
          (handle_at_there handle on_timeout address shown (record r { channels = marks }) there
            ∙ >>=_congr (handle_event shown) _ _ (λ h.
              ap (λ o. serve_channel h r.others o (record r { channels = marks })) there
              ∙ ap (λ x. serve_channel h x (some shown) (record r { channels = marks })) others))
      ∙ flat (handle_event shown)
          (λ h. run_handler epoll sender clock cbs stale h fuel answers (with_revents mask ses))
          (served mask later ses r) (run handle on_timeout more)
    where
      shown : Channel Handler
      shown = setrevents ses.conn.client_channel mask

      marks : List (ℕ × Channel Handler)
      marks = insert address shown r.channels

      there : lookup address marks ≡ some shown
      there = lookup-insert_same address shown r.channels

  -- The loop where `epoll_wait` reports events of the connection, one in each pass, and then more: the
  -- events do to the connection what `dispatch_events` says, and the loop goes on with the rest,
  -- its flag as it was and with the channel in memory that the connection has.
  pub run-dispatch :
      (events : List (ℕ × List ReadAnswer)) (ses t : Session S U C) (r : Looped S U C K)
      (more : List WaitAnswer)
      → r.stopped ≡ false
      → lookup address r.channels ≡ some ses.conn.client_channel
      → r.others ≡ (ses, answers_of events)
      → dispatch_events epoll sender clock cbs stale fuel events ses ≡ ok t
      → (s : Looped S U C K) × (run handle on_timeout (map (reported address) events ++ more) r
          ≡ run handle on_timeout more s)
        × (s.others ≡ (t, []))
        × (s.stopped ≡ false)
        × (lookup address s.channels ≡ some t.conn.client_channel)
  run-dispatch [] ses t r more going here others ran =
      let same : ses ≡ t = cc in
      (
        r,
        refl,
        others ∙ ap (λ x. (x, [])) same,
        going,
        here ∙ ap (λ (x : Session S U C). some x.conn.client_channel) same,
      )
  run-dispatch ((mask, answers) ∷ events) ses t r more going here others ran =
      let (u, first, rest) =
        >>=-eq-ok (dispatch_event epoll sender clock cbs stale fuel answers mask ses) _ ran in
      let (s, goes_on, left, still, there) =
        run-dispatch events u t (served mask (answers_of events) ses r u) more going
          (lookup-insert_same address u.conn.client_channel _) refl rest in
      (
        s,
        one_event mask answers (answers_of events) ses r (map (reported address) events ++ more)
              going here others
            ∙ rw first goes_on,
        left,
        still,
        there,
      )
