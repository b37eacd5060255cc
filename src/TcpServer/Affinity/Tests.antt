-- ===== src/TcpServer/Affinity/Tests.antt =====
-- The run of the table's tests, from loops without connections.
use net_module.Base.{ℕ, zero, suc, ◌≡◌, [], ap, sym, ◌∙◌, some, get_elem?}
use net_module.Base.IntMap.{lookup}
use net_module.EventLoop.{EventLoop}
use net_module.TcpServer.{ServerHandler}
use net_module.TcpServer.Affinity.{IsAffine, Serves-IsAffine}
use net_module.TcpServer.Table.Tests.{third, third_run}
use net_module.TcpServer.Tests.{service, count, count-IsAloof}
use net_module.Simulation.{epoll, clock_api}

-- No loop has a connection.
pub empty_loop :
    (i : ℕ) (l : EventLoop ServerHandler ℕ)
    → get_elem? service.server.subloops i ≡ some l
    → l.conns ≡ []
empty_loop zero l h = cc
empty_loop (suc zero) l h = cc
empty_loop (suc (suc zero)) l h = cc
empty_loop (suc (suc (suc i))) l h = cc

service-IsAffine : IsAffine service
unfolding lookup
service-IsAffine i fd address l there entry =
    absurd (cc (ap (lookup fd) (sym (empty_loop i l there)) ∙ entry))

third-IsAffine : IsAffine third
third-IsAffine = Serves-IsAffine count epoll clock_api count-IsAloof service-IsAffine third_run
