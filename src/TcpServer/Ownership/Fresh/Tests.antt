-- ===== src/TcpServer/Ownership/Fresh/Tests.antt =====
-- A connection comes on descriptor 7 and is closed; another comes on 10 while the first is still open.
use net_module.Base.{ℕ, ◌≡◌, refl, ap, sym, ◌∙◌, false, none, some, get_elem?}
use net_module.Base.IntMap.{lookup, insert, erase}
use net_module.EventLoop.{EventLoop}
use net_module.Connection
use net_module.Connection.{Connection, get_cfd}
use net_module.Socket.{getfd}
use net_module.TcpServer.{
  descriptor_first, ServerHandler, newconnection, closeconnection, forget, int_rem,
}
use net_module.TcpServer.Affinity.Tests.{empty_loop}
use net_module.TcpServer.Ownership.{
  held_in, held_by_loop, is_held, drop, IsIn, Descriptors, opened, Lives, at_start, accepts, closes,
}
use net_module.TcpServer.Ownership.Kept.{Owned}
use net_module.TcpServer.Ownership.Fresh.{Lives-Owned, accepted_nowhere}
use net_module.TcpServer.Table.Tests.{first, second, third}
use net_module.TcpServer.Tests.{service, socket, count, count-IsAloof}
use net_module.Simulation.{epoll, clock_api}

abbrev all_closed : Descriptors
all_closed fd = false

nothing_in : (i fd address : ℕ) → IsIn i fd address service → ⊥
unfolding lookup
nothing_in i fd address (l, there, entry) = cc (ap (lookup fd) (sym (empty_loop i l there)) ∙ entry)

service-Owned : Owned service all_closed
unfolding lookup
service-Owned = record {
  kept = λ fd address entry. absurd (cc entry);
  sound = λ i fd address there. absurd (nothing_in i fd address there);
}

abbrev open_later : Descriptors
open_later = opened 10 (opened 7 all_closed)

third_life : Lives count epoll clock_api service all_closed third open_later
unfolding newconnection int_rem getfd Connection.make net_module.Epoller.update_channel
    net_module.Channel.with_reading net_module.Timestamp.now get_cfd lookup insert erase
    closeconnection forget net_module.EventLoop.newconnection Connection.set_write_callback
    Connection.set_onmessage_callback Connection.set_error_callback Connection.set_close_callback
    is_held held_in held_by_loop drop
third_life =
    accepts descriptor_first third 70 71 (socket 10)
      (closes second 1 64 _
        (accepts descriptor_first first 64 65 (socket 7) at_start refl refl refl) refl
        (_, refl, refl) refl)
      refl refl refl

Lives-Owned_example : Owned third open_later
Lives-Owned_example = Lives-Owned count epoll clock_api count-IsAloof service-Owned third_life

accepted_nowhere_example :
    (lookup 13 third.server.conns ≡ none)
    × ((i : ℕ) (l : EventLoop ServerHandler ℕ)
        → get_elem? third.server.subloops i ≡ some l
        → lookup 13 l.conns ≡ none)
accepted_nowhere_example =
    accepted_nowhere count epoll clock_api count-IsAloof service-Owned third_life 13 refl
