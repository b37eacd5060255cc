-- ===== src/PressureTestClient/Descriptors/Loop.antt =====
-- The descriptors in the loop of the load generator (example/PressureTestClient.cpp, lines 87 to 139).
use net_module.Base.{
  ℕ, zero, suc, ◌≡◌, refl, ap, ◌∙◌, Bool, true, false, not, List, [], ◌∷◌, Option, none, some, ok,
  ◌==◌, IfOk, ok-IfOk, if-IfOk, >>=-IfOk, ◌>>=◌,
}
use Prim.Native.Nat.{bit_and}
use net_module.Base.Word.{minus_one}
use net_module.Base.Text.{overwrite}
use net_module.System.{
  SocketApi, EpollApi, EpollEvent, modify, epollin, epollout, SendApi, PeerApi, PollApi, Received,
  received, recv_failed,
}
use net_module.PressureTestClient.{sent_bytes, recv_message}
use net_module.PressureTestClient.Run.{
  Generator, Outcome, running, returned, shut, watch_reading, write_event, show, unpack_answer,
  read_event, on_event, on_events, event_loop, message_size, buffer_size, client_max_events,
}
use net_module.PressureTestClient.Descriptors.{Table, after_close, DescriptorLaws}

module _ {S : Type 0} (epoll : EpollApi S) (sender : SendApi S) (peer : PeerApi S)
    (object : S → List ℕ) (sockets : SocketApi S) (poll : PollApi S)
    (laws : DescriptorLaws epoll sender peer sockets poll) (socket ep : ℕ) (t : Table) where
  -- In the loop the descriptors are those of the start, and a `return` closes both.
  abbrev Kept : Outcome S → Type 0
  Kept (running g) = laws.table g.sys ≡ t
  Kept (returned status g) = laws.table g.sys ≡ after_close ep (after_close socket t)

  pub shut_both :
      (g : Generator S)
      → laws.table g.sys ≡ t
      → laws.table (shut peer socket ep g).sys ≡ after_close ep (after_close socket t)
  shut_both g e =
      laws.close_lem (peer.close g.sys socket) ep
      ∙ ap (after_close ep) (laws.close_lem g.sys socket ∙ ap (after_close socket) e)

  watch_reading-Kept :
      (g : Generator S) (o : Option S)
      → laws.table g.sys ≡ t
      → ((s : S) → o ≡ some s → laws.table s ≡ laws.table g.sys)
      → Kept (watch_reading epoll sender peer object socket ep g o)
  watch_reading-Kept g none e changed = shut_both g e
  watch_reading-Kept g (some s) e changed = changed s refl ∙ e

  write_event-Kept :
      (g : Generator S)
      → laws.table g.sys ≡ t
      → IfOk Kept (write_event epoll sender peer object socket ep g)
  unfolding write_event
  write_event-Kept g e = >>=-IfOk Kept (sent_bytes (object g.sys) message_size) _ λ bytes run.
      let (n, s) = sender.send g.sys socket bytes in
      let g' = record g { sys = (sender.send g.sys socket bytes).1 } in
      let same : laws.table (sender.send g.sys socket bytes).1 ≡ t =
        laws.send_lem g.sys socket bytes ∙ e in
      if-IfOk Kept ((sender.send g.sys socket bytes).0 == minus_one) _ _
        (λ failed. ok-IfOk Kept _ (shut_both g' same))
        (λ sent.
          ok-IfOk Kept _
            (watch_reading-Kept g' _ same λ v h. laws.control_lem _ v ep socket modify _ h))

  unpack_answer-Kept :
      (g : Generator S) (answer : Received)
      → laws.table g.sys ≡ t
      → IfOk Kept (unpack_answer epoll sender peer object socket ep g answer)
  unpack_answer-Kept g recv_failed e = ok-IfOk Kept _ (shut_both g e)
  unpack_answer-Kept g (received []) e = ok-IfOk Kept _ (shut_both g e)
  unpack_answer-Kept g (received (b ∷ bytes)) e =
      >>=-IfOk Kept (recv_message (overwrite (b ∷ bytes) g.recv_buffer) []) _
        λ (found, text) run. ok-IfOk Kept _ (shown_lem found text)
    where
      shown_lem :
          (found : Bool) (text : List ℕ)
          → Kept (
              running (
                show epoll sender peer object
                  (record g { recv_buffer = overwrite (b ∷ bytes) g.recv_buffer })
                  (found, text)))
      shown_lem true text = e
      shown_lem false text = e

  on_event-Kept :
      (mask : ℕ) (g : Generator S)
      → laws.table g.sys ≡ t
      → IfOk Kept (on_event epoll sender peer object socket ep mask g)
  unfolding on_event read_event
  on_event-Kept mask g e =
      if-IfOk Kept (not (bit_and mask epollout == 0)) _ _ (λ out. write_event-Kept g e)
        λ no_out.
          if-IfOk Kept (not (bit_and mask epollin == 0)) _ _
            (λ input.
              unpack_answer-Kept (record g { sys = (peer.recv g.sys socket buffer_size).1 })
                (peer.recv g.sys socket buffer_size).0 (laws.recv_lem g.sys socket buffer_size ∙ e))
            (λ no_input. ok-IfOk Kept _ e)

  on_events-Kept :
      (es : List EpollEvent) (g : Generator S)
      → laws.table g.sys ≡ t
      → IfOk Kept (on_events epoll sender peer object socket ep es g)
  unfolding on_events
  on_events-Kept [] g e = ok-IfOk Kept _ e
  on_events-Kept (event ∷ es) g e =
      >>=-IfOk Kept (on_event epoll sender peer object socket ep event.events g) _
        λ o run. next_event o (on_event-Kept event.events g e o run) (on_events-Kept es)
    where
      next_event :
          (o : Outcome S)
          → Kept o
          → ((g' : Generator S)
              → laws.table g'.sys ≡ t
              → IfOk Kept (on_events epoll sender peer object socket ep es g'))
          → IfOk Kept (elim o [
            | running g' ↦ on_events epoll sender peer object socket ep es g'
            | returned status g' ↦ ok (returned status g')
          ])
      next_event (running g') h later = later g' h
      next_event (returned status g') h later = ok-IfOk Kept _ h

  -- Both are closed where the loop ends.
  abbrev pub Ended : ℕ × Generator S → Type 0
  Ended r = laws.table r.1.sys ≡ after_close ep (after_close socket t)

  pub event_loop-Ended :
      (fuel : ℕ) (g : Generator S)
      → laws.table g.sys ≡ t
      → IfOk Ended (event_loop epoll sender peer object poll socket ep fuel g)
  unfolding event_loop
  event_loop-Ended zero g e = λ r h. cc
  event_loop-Ended (suc fuel) g e =
      wake (poll.epoll_wait g.sys ep client_max_events).0
        (record g { sys = (poll.epoll_wait g.sys ep client_max_events).1 })
        (laws.wait_lem g.sys ep client_max_events ∙ e) (event_loop-Ended fuel)
    where
      after :
          (o : Outcome S)
          → Kept o
          → ((g' : Generator S)
              → laws.table g'.sys ≡ t
              → IfOk Ended (event_loop epoll sender peer object poll socket ep fuel g'))
          → IfOk Ended (elim o [
            | running g' ↦ event_loop epoll sender peer object poll socket ep fuel g'
            | returned status g' ↦ ok (status, g')
          ])
      after (running g') h later = later g' h
      after (returned status g') h later = ok-IfOk Ended _ h

      wake :
          (events : Option (List EpollEvent)) (woken : Generator S)
          → laws.table woken.sys ≡ t
          → ((g' : Generator S)
              → laws.table g'.sys ≡ t
              → IfOk Ended (event_loop epoll sender peer object poll socket ep fuel g'))
          → IfOk Ended (elim events [
            | none ↦ ok (0, shut peer socket ep woken)
            | some es ↦ do
              outcome ← on_events epoll sender peer object socket ep es woken
              elim outcome [
                | running g' ↦ event_loop epoll sender peer object poll socket ep fuel g'
                | returned status g' ↦ ok (status, g')
              ]
          ])
      wake none woken h later = ok-IfOk Ended _ (shut_both woken h)
      wake (some es) woken h later =
          >>=-IfOk Ended (on_events epoll sender peer object socket ep es woken) _
            λ o run. after o (on_events-Kept es woken h o run) later
