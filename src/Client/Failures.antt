-- ===== src/Client/Failures.antt =====
-- How the client ends without the answers it waits for.
use net_module.Base.{
  ℕ, suc, ◌^◌, ◌<◌, ◌≡◌, ◌≢◌, refl, ◌∙◌, true, false, List, [], ◌∷◌, none, ok, err, undefined,
  lt→ltb, length, arith,
}
use net_module.Base.Word.{size_of_int, int_ltb, is_negative, minus_one}
use net_module.Base.Text.{atoi}
use net_module.System.{SocketApi, InetApi, SendApi, PeerApi, received}
use net_module.Buffer.Erase.{frame}
use net_module.Client.{text, length_read, body_read, receive, round, rounds, play, main}
use net_module.Client.Rounds.{round-sends}
use net_module.Client.Answers.{dial}

module _ {S : Type 0} (sender : SendApi S) (peer : PeerApi S) (stale : S → ℕ)
    (sockets : SocketApi S) (inet : InetApi) where
  no_arguments :
      (argv : List (List ℕ)) (s : S)
      → length argv ≢ 3
      → main sender peer stale sockets inet argv s ≡ ok (minus_one, [], s)
  unfolding main
  no_arguments [] s h = refl
  no_arguments (a ∷ []) s h = refl
  no_arguments (a ∷ b ∷ []) s h = refl
  no_arguments (a ∷ b ∷ c ∷ []) s h = absurd (h refl)
  no_arguments (a ∷ b ∷ c ∷ d ∷ argv) s h = refl

  -- The ways in which the client cannot start, and the system it leaves behind.
  pub data Refused (argv : List (List ℕ)) (s : S) : S → Type 0 where
    usage : length argv ≢ 3 → Refused argv s s
    no_socket :
        (program ip port : List ℕ)
        → argv ≡ program ∷ ip ∷ port ∷ []
        → is_negative (sockets.socket s).0 ≡ true
        → Refused argv s (sockets.socket s).1
    no_server :
        (program ip port : List ℕ) (number : ℕ)
        → argv ≡ program ∷ ip ∷ port ∷ []
        → is_negative (sockets.socket s).0 ≡ false
        → atoi port ≡ ok number
        → (dial peer sockets inet ip number s).0 ≡ false
        → Refused argv s (peer.close (dial peer sockets inet ip number s).1 (sockets.socket s).0)

  -- A client that cannot start returns -1 and has sent nothing: for a number of arguments other than two
  -- it leaves the system alone; after a descriptor that is refused it calls nothing else; and after a
  -- connection that is refused it closes its descriptor.
  pub main-Refused :
      (argv : List (List ℕ)) (s t : S)
      → Refused argv s t
      → main sender peer stale sockets inet argv s ≡ ok (minus_one, [], t)
  unfolding main play
  main-Refused argv s t (usage h) = no_arguments argv s h
  main-Refused argv s t (no_socket program ip port e refused) = rw (e, refused)
  main-Refused argv s t (no_server program ip port number e there read refused) =
      rw (e, there, read, refused)

  -- What the system is after the header of the first answer was asked for.
  abbrev pub awaited : List ℕ → ℕ → S → S
  awaited ip number s =
      (peer.recv
        (sender.send (dial peer sockets inet ip number s).1 (sockets.socket s).0 (frame (text 0))).1
        (sockets.socket s).0 4).1

  abbrev pub first_length : List ℕ → ℕ → S → ℕ
  first_length ip number s =
      let sent =
        (sender.send (dial peer sockets inet ip number s).1 (sockets.socket s).0
          (frame (text 0))).1 in
      length_read (stale sent) (peer.recv sent (sockets.socket s).0 4).0

  rounds_break :
      (sockfd n ii : ℕ) (s t : S)
      → round sender peer stale sockfd ii s ≡ ok (none, t)
      → rounds sender peer stale sockfd (suc n) ii s ≡ ok ([], t)
  unfolding rounds
  rounds_break sockfd n ii s t e = rw e

  rounds_fault :
      (sockfd n ii : ℕ) (s : S)
      → round sender peer stale sockfd ii s ≡ err undefined
      → rounds sender peer stale sockfd (suc n) ii s ≡ err undefined
  unfolding rounds
  rounds_fault sockfd n ii s e = rw e

  receive_long :
      (sockfd : ℕ) (s : S)
      → int_ltb 1024 (length_read (stale s) (peer.recv s sockfd 4).0) ≡ true
      → receive sender peer stale sockfd s ≡ ok (none, peer.close (peer.recv s sockfd 4).1 sockfd)
  unfolding receive
  receive_long sockfd s long = rw long

  receive_negative :
      (sockfd len : ℕ) (body : List ℕ) (s : S)
      → length_read (stale s) (peer.recv s sockfd 4).0 ≡ len
      → is_negative len ≡ true
      → len < 2 ^ 32
      → (peer.recv (peer.recv s sockfd 4).1 sockfd (size_of_int len)).0 ≡ received body
      → 1024 < length body
      → receive sender peer stale sockfd s ≡ err undefined
  unfolding receive
  receive_negative sockfd len body s read neg wide came long =
      let passes : int_ltb 1024 len ≡ false = ground arith in
      let over : body_read (received body) ≡ err undefined = rw (lt→ltb 1024 (length body) long) in
      rw (read, passes, came, over)

  -- A first answer whose header says more than 1024, on a connection that is made: `main` gives up, closes
  -- its descriptor twice, and returns 0, as after a run without trouble.
  pub too_long_closes_twice :
      (program ip port : List ℕ) (number : ℕ) (s : S)
      → atoi port ≡ ok number
      → is_negative (sockets.socket s).0 ≡ false
      → (dial peer sockets inet ip number s).0 ≡ true
      → int_ltb 1024 (first_length ip number s) ≡ true
      → main sender peer stale sockets inet (program ∷ ip ∷ port ∷ []) s
        ≡ ok (
          0,
          [],
          peer.close (peer.close (awaited ip number s) (sockets.socket s).0) (sockets.socket s).0,
        )
  unfolding main play
  too_long_closes_twice program ip port number s read there connected long =
      let sockfd = (sockets.socket s).0 in
      let dialled = (dial peer sockets inet ip number s).1 in
      let broken = rounds_break sockfd 49999 0 dialled _ (
        round-sends sender peer stale sockfd 0 dialled
        ∙ receive_long sockfd (sender.send dialled sockfd (frame (text 0))).1 long) in
      rw (there, read, connected, broken)

  -- A first answer whose header is a negative `int`, on a connection that is made: the test against 1024
  -- passes, `recv` is asked for at least 2 ^ 64 - 2 ^ 31 bytes, and if more than 1024 of them come,
  -- `main` is undefined.
  pub negative_length_overruns :
      (program ip port : List ℕ) (number : ℕ) (body : List ℕ) (s : S)
      → atoi port ≡ ok number
      → is_negative (sockets.socket s).0 ≡ false
      → (dial peer sockets inet ip number s).0 ≡ true
      → is_negative (first_length ip number s) ≡ true
      → first_length ip number s < 2 ^ 32
      → (peer.recv
          (awaited ip number s)
          (sockets.socket s).0
          (size_of_int (first_length ip number s))).0
        ≡ received body
      → 1024 < length body
      → main sender peer stale sockets inet (program ∷ ip ∷ port ∷ []) s ≡ err undefined
  unfolding main play
  negative_length_overruns program ip port number body s read there connected neg wide came long =
      let sockfd = (sockets.socket s).0 in
      let dialled = (dial peer sockets inet ip number s).1 in
      let fault = rounds_fault sockfd 49999 0 dialled (
        round-sends sender peer stale sockfd 0 dialled
        ∙ receive_negative sockfd (first_length ip number s) body
            (sender.send dialled sockfd (frame (text 0))).1 refl neg wide came long) in
      rw (there, read, connected, fault)
