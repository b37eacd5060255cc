-- ===== src/TcpServer/Table/Tests.antt =====
-- A connection comes on descriptor 7, is closed, and another comes on descriptor 10.
use net_module.Base.{◌≡◌, refl, [], ◌∷◌, none}
use net_module.Base.IntMap.{lookup, insert, erase}
use net_module.Channel.{setread_callback}
use net_module.Connection
use net_module.Connection.{get_cfd}
use net_module.Socket.{getfd}
use net_module.TcpServer.{newconnection, descriptor_first, closeconnection, forget, int_rem}
use net_module.TcpServer.Table.{came, gone, Serves, at_start, accepts, closes, conns-replay}
use net_module.TcpServer.Tests.{Counted, service, socket, count, count-IsAloof, value_or}
use net_module.Simulation.{epoll, clock_api}

abbrev pub first : Counted
first =
    value_or service (newconnection count descriptor_first epoll clock_api 64 65 (socket 7) service)

abbrev pub second : Counted
second = value_or service (closeconnection count 64 first)

abbrev pub third : Counted
third =
    value_or service (newconnection count descriptor_first epoll clock_api 70 71 (socket 10) second)

pub third_run : Serves count epoll clock_api service (came 10 70 ∷ gone 7 ∷ came 7 64 ∷ []) third
unfolding newconnection int_rem getfd Connection.make net_module.Epoller.update_channel
    net_module.Channel.with_reading net_module.Timestamp.now get_cfd lookup insert erase
    closeconnection forget net_module.EventLoop.newconnection Connection.set_write_callback
    Connection.set_onmessage_callback Connection.set_error_callback Connection.set_close_callback
third_run =
    accepts descriptor_first third 70 71 (socket 10)
      (closes second 64 _ (accepts descriptor_first first 64 65 (socket 7) at_start refl) refl refl)
      refl

conns-replay_example : lookup 7 third.server.conns ≡ none
conns-replay_example =
    conns-replay count epoll clock_api count-IsAloof {v = service} refl third_run 7
