-- ===== src/Epoller/Tests.antt =====
-- Instances of the theorems on registration, in the simulated system.
use net_module.Base.{
  ℕ, ◌≡◌, refl, ◌⊎◌, inl, inr, true, false, List, [], ◌∷◌, none, some, Result, ok, err,
  exit_process, undefined,
}
use net_module.System.{EpollEvent}
use net_module.Channel.{
  Channel, make, setrevents, with_reading, without_reading, with_writing, without_writing,
  without_all,
}
use net_module.Epoller.{
  update_channel, enable_reading, disable_reading, enable_writing, disable_writing, disable_all,
  loop, mark_events, occurred, failed,
}
use net_module.Epoller.Sync.{Updates, interest-Updates}
use net_module.Base.IntMap.{lookup}
use net_module.Epoller.Wait.{IsLive, marked, loop_cases}
use net_module.Simulation.{World, quiet_world, epoll, epoll_laws}

abbrev fresh : Channel ℕ
fresh = make 5 9 7

first_registration :
    (ch : Channel ℕ) × (w : World) × (enable_reading epoll quiet_world fresh ≡ ok (ch, w))
    × (w.interests 9 7 ≡ some (record { events = 1; ptr = 5 }))
unfolding enable_reading update_channel with_reading
first_registration = (_, _, refl, refl)

-- Both events lead to live channels, and each is marked.
two_events :
    loop
      (occurred (record { events = 1; ptr = 5 } ∷ record { events = 4; ptr = 6 } ∷ []))
      ((5, fresh) ∷ (6, fresh) ∷ [])
    ≡ ok (5 ∷ 6 ∷ [], (5, setrevents fresh 1) ∷ (6, setrevents fresh 4) ∷ [])
unfolding loop mark_events setrevents net_module.Base.IntMap.lookup net_module.Base.IntMap.insert
two_events = refl

-- An event for a channel that is gone.
dead_pointer : loop {H = ℕ} (occurred (record { events = 1; ptr = 5 } ∷ [])) [] ≡ err undefined
unfolding loop mark_events net_module.Base.IntMap.lookup
dead_pointer = refl

interest-Updates_example :
    Updates epoll epoll_laws quiet_world
      (with_reading fresh)
      (enable_reading epoll quiet_world fresh)
    × Updates epoll epoll_laws quiet_world
        (without_reading fresh)
        (disable_reading epoll quiet_world fresh)
    × Updates epoll epoll_laws quiet_world
        (with_writing fresh)
        (enable_writing epoll quiet_world fresh)
    × Updates epoll epoll_laws quiet_world
        (without_writing fresh)
        (disable_writing epoll quiet_world fresh)
    × Updates epoll epoll_laws quiet_world (without_all fresh) (disable_all epoll quiet_world fresh)
interest-Updates_example = interest-Updates epoll epoll_laws quiet_world fresh refl

abbrev in_five : EpollEvent
in_five = record { events = 1; ptr = 5 }

one_event_cases :
    (IsLive ((5, fresh) ∷ []) (in_five ∷ [])
      → (after : List (ℕ × Channel ℕ)) × (loop (occurred (in_five ∷ [])) ((5, fresh) ∷ [])
          ≡ ok (5 ∷ [], after))
        × ((k : ℕ) → lookup k after ≡ marked k (in_five ∷ []) (lookup k ((5, fresh) ∷ []))))
    × ((dead : EpollEvent) (rest : List EpollEvent)
        → IsLive ((5, fresh) ∷ []) (in_five ∷ [])
        → lookup dead.ptr ((5, fresh) ∷ []) ≡ none
        → loop (occurred (in_five ∷ dead ∷ rest)) ((5, fresh) ∷ []) ≡ err undefined)
    × (loop failed ((5, fresh) ∷ []) ≡ err exit_process)
one_event_cases = loop_cases (in_five ∷ []) ((5, fresh) ∷ [])
