-- ===== src/Acceptor/Tests.antt =====
-- An acceptor on port 9090.
use net_module.Base.{ℕ, List, [], ◌∷◌, OkOrExit, arith}
use net_module.Acceptor.{Acceptor, make}
use net_module.Acceptor.Listening.{Listening, make_cases}
use net_module.Simulation.{
  World, quiet_world, epoll, listening_sockets, kernel_laws, inet, inet_laws,
}

abbrev host : List ℕ
host = 49 ∷ 50 ∷ []

make_cases_example :
    OkOrExit
      (λ (r : Acceptor ℕ × World).
        Listening (listening_sockets 6) inet epoll (kernel_laws 6) host 9090 r.0 r.1)
      (make (listening_sockets 6) inet epoll quiet_world 0 60 19 host 9090)
make_cases_example =
    make_cases (listening_sockets 6) inet inet_laws epoll (kernel_laws 6) quiet_world 0 60 19 host
      9090 (omega arith)
