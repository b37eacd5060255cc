-- ===== src/EventLoop/Run/Tests.antt =====
-- Loops with one channel and with two, whose callback stops the loop at its second call.
use net_module.Base.{
  List, ◌>>=◌, if◌then◌else◌, arith, ℕ, suc, ◌≡◌, refl, false, [], ◌∷◌, none, some, Result, ok, err,
  bad_function_call, ltb,
}
use net_module.Base.IntMap.{lookup, insert}
use net_module.Channel.{Channel, make, handle_event, setrevents}
use net_module.Epoller.{WaitAnswer, occurred, loop, mark_events}
use mathlib.Core.Path.{subst}
use net_module.System.{EpollEvent}
use net_module.Epoller.Wait.{IsLive, marked}
use net_module.EventLoop.Run.Passes.{KeepsChannels, Shows, respond, run_pass}
use net_module.EventLoop.Run.{Running, handle_at, handle_all, pass, run}

abbrev readable : WaitAnswer
readable = occurred ((record { events = 1; ptr = 5 }) ∷ [])

abbrev started : Running ℕ ℕ ℕ
started = record {
  channels = (5, record (make 5 9 7) { read_callback = some 1 }) ∷ [];
  stopped = false;
  epoll_timeout_callback = none;
  others = 0;
}

abbrev on_read : ℕ → Running ℕ ℕ ℕ → Result (Running ℕ ℕ ℕ)
on_read h r = ok (record r { others = suc r.others; stopped = ltb 0 r.others })

two_reads :
    (r : Running ℕ ℕ ℕ) × (run on_read on_read (readable ∷ readable ∷ readable ∷ []) started ≡ ok r)
    × (r.others ≡ 2)
unfolding run pass handle_all handle_at loop mark_events handle_event setrevents lookup insert
two_reads = (_, refl, refl)

-- A timeout before the callback for timeouts is set.
no_timeout_callback : run on_read on_read (occurred [] ∷ []) started ≡ err bad_function_call
unfolding run pass loop mark_events
no_timeout_callback = refl

-- Two channels with something to read.
abbrev two : Running ℕ ℕ ℕ
two = record started {
  channels =
      (5, record (make 5 9 7) { read_callback = some 1 })
      ∷ (6, record (make 6 9 8) { read_callback = some 2 })
      ∷ [];
}

abbrev at_first : EpollEvent
at_first = record { events = 1; ptr = 5 }

abbrev at_second : EpollEvent
at_second = record { events = 1; ptr = 6 }

on_read-KeepsChannels : KeepsChannels on_read on_read
on_read-KeepsChannels h r s ran k mask shows =
    let same : r.channels ≡ s.channels = ground (arith, ran) in
    subst (λ channels. Shows (lookup k channels) mask) same shows

two-IsLive : IsLive two.channels (at_first ∷ at_second ∷ [])
unfolding lookup
two-IsLive = ((_, refl), ((_, refl), tt))

run_pass_example :
    (shown : List (ℕ × Channel ℕ)) × ((k : ℕ)
      → lookup k shown ≡ marked k (at_first ∷ at_second ∷ []) (lookup k two.channels))
    × (run on_read on_read (occurred (at_first ∷ at_second ∷ []) ∷ readable ∷ []) two ≡ (
        respond on_read on_read (at_first ∷ at_second ∷ []) (record two { channels = shown })
        >>= λ s. if s.stopped then ok s else run on_read on_read (readable ∷ []) s))
run_pass_example =
    run_pass on_read on_read at_first (at_second ∷ []) (readable ∷ []) two refl
      on_read-KeepsChannels ((refl, tt), (tt, tt)) two-IsLive
