-- ===== src/Client/Answers.antt =====
-- The client against a server that sends each byte back, and against other answers.
use net_module.Base.{
  ℕ, zero, suc, ◌^◌, ◌≤◌, ◌<◌, ◌≡◌, refl, ap, ◌∙◌, Bool, true, false, List, [], ◌∷◌, ◌++◌, some, ok,
  le→ltb, length, take, drop, take_of_length-le, drop_of_length-le, arith,
}
use net_module.Base.Word.{le_bytes, int_of_bytes-le_bytes, int_ltb, size_of_int, is_negative}
use net_module.Base.Text.{zeros, overwrite, atoi}
use net_module.System.{SocketApi, InetApi, SendApi, PeerApi, received}
use net_module.Buffer.Erase.{frame}
use net_module.Client.{
  room, text, length_read, body_read, receive, round, rounds, server_address, play, main,
}
use net_module.Client.Rounds.{length-text, round-sends}

-- The texts of `n` rounds, from round `ii` on.
abbrev pub texts : ℕ → ℕ → List (List ℕ)
texts zero ii = []
texts (suc n) ii = text ii ∷ texts n (suc ii)

-- `buf` with a text in it.
abbrev pub shown : ℕ → ℕ → List (List ℕ)
shown zero ii = []
shown (suc n) ii = overwrite (text ii) (zeros room) ∷ shown n (suc ii)

-- A connection on which each byte sent can be received at once, in order: a server that sends
-- everything back, and a network without delay.
pub record PromptEcho {S : Type 0} (sender : SendApi S) (peer : PeerApi S) : Type 0 where
  pub inbound : S → ℕ → List ℕ
  pub send_lem :
      (s : S) (fd : ℕ) (m : List ℕ) → inbound (sender.send s fd m).1 fd ≡ inbound s fd ++ m
  pub recv_lem : (s : S) (fd n : ℕ) → (peer.recv s fd n).0 ≡ received (take n (inbound s fd))
  pub rest_lem : (s : S) (fd n : ℕ) → inbound (peer.recv s fd n).1 fd ≡ drop n (inbound s fd)

pub length_read-le_bytes : (old n : ℕ) → n < 2 ^ 32 → length_read old (received (le_bytes n)) ≡ n
length_read-le_bytes old n h = int_of_bytes-le_bytes n ∙ omega arith

module _ {S : Type 0} (sender : SendApi S) (peer : PeerApi S) (stale : S → ℕ) where
  -- An answer that arrives as one header and one body.
  receive-answer :
      (sockfd n : ℕ) (body : List ℕ) (s : S)
      → (peer.recv s sockfd 4).0 ≡ received (le_bytes n)
      → n ≤ 1024
      → (peer.recv (peer.recv s sockfd 4).1 sockfd n).0 ≡ received body
      → length body ≤ 1024
      → receive sender peer stale sockfd s
        ≡ ok (some (overwrite body (zeros room)), (peer.recv (peer.recv s sockfd 4).1 sockfd n).1)
  unfolding receive
  receive-answer sockfd n body s header few text_lem short =
      let read : length_read (stale s) (peer.recv s sockfd 4).0 ≡ n =
        ap (length_read (stale s)) header ∙ length_read-le_bytes (stale s) n (omega arith) in
      let in_range : int_ltb room n ≡ false = ground arith in
      let wide : size_of_int n ≡ n = ground arith in
      let fits : body_read (received body) ≡ ok (overwrite body (zeros room)) =
        rw (le→ltb 1024 (length body) short) in
      rw (read, in_range, wide, text_lem, fits)

module _ {S : Type 0} (sender : SendApi S) (peer : PeerApi S) (stale : S → ℕ)
    (echo : PromptEcho sender peer) where
  -- The states between the calls of one round.
  sent : ℕ → ℕ → S → S
  sent sockfd ii s = (sender.send s sockfd (frame (text ii))).1

  headed : ℕ → ℕ → S → S
  headed sockfd ii s = (peer.recv (sent sockfd ii s) sockfd 4).1

  answered : ℕ → ℕ → S → S
  answered sockfd ii s = (peer.recv (headed sockfd ii s) sockfd (length (text ii))).1

  sent-inbound :
      (sockfd ii : ℕ) (s : S)
      → echo.inbound s sockfd ≡ []
      → echo.inbound (sent sockfd ii s) sockfd ≡ frame (text ii)
  unfolding sent
  sent-inbound sockfd ii s h = echo.send_lem s sockfd (frame (text ii)) ∙ rw h

  headed-inbound :
      (sockfd ii : ℕ) (s : S)
      → echo.inbound s sockfd ≡ []
      → echo.inbound (headed sockfd ii s) sockfd ≡ text ii
  unfolding headed
  headed-inbound sockfd ii s h =
      echo.rest_lem (sent sockfd ii s) sockfd 4 ∙ ap (drop 4) (sent-inbound sockfd ii s h)

  header_lem :
      (sockfd ii : ℕ) (s : S)
      → echo.inbound s sockfd ≡ []
      → (peer.recv (sent sockfd ii s) sockfd 4).0 ≡ received (le_bytes (length (text ii)))
  header_lem sockfd ii s h =
      echo.recv_lem (sent sockfd ii s) sockfd 4
      ∙ ap (λ l. received (take 4 l)) (sent-inbound sockfd ii s h)

  body_lem :
      (sockfd ii : ℕ) (s : S)
      → echo.inbound s sockfd ≡ []
      → (peer.recv (headed sockfd ii s) sockfd (length (text ii))).0 ≡ received (text ii)
  body_lem sockfd ii s h =
      echo.recv_lem (headed sockfd ii s) sockfd (length (text ii))
      ∙ ap (λ l. received (take (length (text ii)) l)) (headed-inbound sockfd ii s h)
      ∙ ap received (take_of_length-le (length (text ii)) (text ii) (omega arith))

  round-echo :
      (sockfd ii : ℕ) (s : S)
      → echo.inbound s sockfd ≡ []
      → (round sender peer stale sockfd ii s
          ≡ ok (some (overwrite (text ii) (zeros room)), answered sockfd ii s))
        × (echo.inbound (answered sockfd ii s) sockfd ≡ [])
  unfolding answered headed sent
  round-echo sockfd ii s h = (
    round-sends sender peer stale sockfd ii s
        ∙ receive-answer sender peer stale sockfd (length (text ii)) (text ii) (sent sockfd ii s)
            (header_lem sockfd ii s h) (omega (arith, length-text ii)) (body_lem sockfd ii s h)
            (omega (arith, length-text ii)),
    echo.rest_lem (headed sockfd ii s) sockfd (length (text ii))
        ∙ ap (drop (length (text ii))) (headed-inbound sockfd ii s h)
        ∙ drop_of_length-le (length (text ii)) (text ii) (omega arith),
  )

  rounds-echo :
      (sockfd n ii : ℕ) (s : S)
      → echo.inbound s sockfd ≡ []
      → (t : S) × (rounds sender peer stale sockfd n ii s ≡ ok (shown n ii, t))
        × (echo.inbound t sockfd ≡ [])
  unfolding rounds
  rounds-echo sockfd zero ii s h = (s, refl, h)
  rounds-echo sockfd (suc n) ii s h =
      let (run, none_left) = round-echo sockfd ii s h in
      let (t, rest, end) = rounds-echo sockfd n (suc ii) (answered sockfd ii s) none_left in
      (t, rw (run, rest), end)

-- What `connect` gives, on the descriptor that `socket` gave.
abbrev pub dial : {S : Type 0} → PeerApi S → SocketApi S → InetApi → List ℕ → ℕ → S → Bool × S
dial peer sockets inet ip number s =
    peer.connect (sockets.socket s).1 (sockets.socket s).0 (server_address inet ip number)

module _ {S : Type 0} (sender : SendApi S) (peer : PeerApi S) (stale : S → ℕ)
    (echo : PromptEcho sender peer) (sockets : SocketApi S) (inet : InetApi) where
  -- Against a server that sends each byte back at once, the client reads back the text of every one of
  -- its 50000 rounds, in order, and returns 0, for a port that `atoi` reads, a descriptor that is not
  -- negative, and a connection that is made and has nothing on it yet.
  pub main-echoed :
      (program ip port : List ℕ) (number : ℕ) (s : S)
      → atoi port ≡ ok number
      → is_negative (sockets.socket s).0 ≡ false
      → (dial peer sockets inet ip number s).0 ≡ true
      → echo.inbound (dial peer sockets inet ip number s).1 (sockets.socket s).0 ≡ []
      → (t : S) × (main sender peer stale sockets inet (program ∷ ip ∷ port ∷ []) s
          ≡ ok (0, shown 50000 0, peer.close t (sockets.socket s).0))
  unfolding main play
  main-echoed program ip port number s read there connected quiet =
      let (t, run, end) =
        rounds-echo sender peer stale echo (sockets.socket s).0 50000 0
          (dial peer sockets inet ip number s).1 quiet in
      (t, rw (there, read, connected, run))
