-- ===== src/Simulation/Pipe.antt =====
-- For examples only: a network of which only the bytes count that each descriptor can receive.
use net_module.Base.{ℕ, Bool, List, ◌++◌, ◌==◌, if◌then◌else◌, length, take, drop}
use net_module.System.{SendApi, PeerApi, received}

abbrev pub Pipe : Type 0
Pipe = ℕ → List ℕ

abbrev pub pipe_change : Pipe → ℕ → List ℕ → Pipe
pipe_change p fd bytes j = if fd == j then bytes else p j

-- Each byte sent comes back; or none does.
abbrev pub pipe_sender : SendApi Pipe
pipe_sender = record { send = λ p fd m. (length m, pipe_change p fd (p fd ++ m)) }

abbrev pub mute_sender : SendApi Pipe
mute_sender = record { send = λ p fd m. (length m, p) }

abbrev pub pipe_peer : Bool → PeerApi Pipe
pipe_peer up = record {
  connect = λ p fd address. (up, p);
  recv = λ p fd n. (received (take n (p fd)), pipe_change p fd (drop n (p fd)));
  close = λ p fd. p;
}
