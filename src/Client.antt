-- ===== src/Client.antt =====
-- example/Client.cpp: a client that sends 50000 numbered messages and waits for an answer to each.
pub mod Answers
pub mod Failures
pub mod Rounds
pub mod Served
pub mod Wire
mod Tests
use net_module.Base.{
  ℕ, zero, suc, ◌+◌, ◌^◌, ◌%◌, ◌≡◌, not, List, [], ◌∷◌, ◌++◌, Option, none, some, Result, ok, err,
  undefined, ◌>>=◌, map_ok, ltb, if◌then◌else◌, length, take,
}
use net_module.Base.Word.{is_negative, int_ltb, size_of_int, minus_one, le_bytes, int_of_bytes}
use net_module.Base.Text.{zeros, strlen, overwrite, atoi, decimal}
use net_module.System.{
  SocketApi, InetApi, SendApi, PeerApi, Received, received, recv_failed, SockaddrIn, af_inet,
}

-- `sizeof(buf)`, which is that of `tmpbuf` too.
abbrev pub room : ℕ
room = 1024

-- "%d个", the character in UTF-8.
abbrev pub text : ℕ → List ℕ
text ii = decimal ii ++ 0xe4 ∷ 0xb8 ∷ 0xaa ∷ []

-- `buf` after `sprintf`.
abbrev pub printed : ℕ → List ℕ
printed ii = overwrite (text ii ++ 0 ∷ []) (zeros room)

-- `tmpbuf` after `memcpy` and `strcpy`, for a text of `len` bytes at the front of `buf`. The closing 0
-- is copied too.
abbrev pub packed : ℕ → List ℕ → Result (List ℕ)
packed len buf =
    if ltb room (4 + len + 1)
    then err undefined
    else ok (overwrite (le_bytes len ++ take (len + 1) buf) (zeros room))

-- Four bytes of memory as an `int`.
abbrev pub int_at : List ℕ → ℕ
int_at (a ∷ b ∷ c ∷ d ∷ rest) = int_of_bytes a b c d
int_at s = 0

-- `recv_len` after `recv`: an answer that is short, or none, leaves bytes that nobody has written.
abbrev pub length_read : ℕ → Received → ℕ
length_read stale (received bytes) = int_at (overwrite bytes (le_bytes stale))
length_read stale recv_failed = stale % 2 ^ 32

-- `buf` after `memset` and `recv`. What does not fit is written past its end.
abbrev pub body_read : Received → Result (List ℕ)
body_read (received bytes) =
    if ltb room (length bytes) then err undefined else ok (overwrite bytes (zeros room))
body_read recv_failed = ok (zeros room)

-- `servaddr`; the port becomes a 16-bit number.
abbrev pub server_address : InetApi → List ℕ → ℕ → SockaddrIn
server_address inet ip port = record {
  sin_family = af_inet;
  sin_port = inet.htons (port % 2 ^ 16);
  s_addr = inet.inet_addr ip;
}

-- After a round: a `break`, or the rest of the loop.
abbrev pub collect :
    {S : Type 0} → S → Result (List (List ℕ) × S) → Option (List ℕ) → Result (List (List ℕ) × S)
collect s rest none = ok ([], s)
collect s rest (some buf) = map_ok (λ (bufs, t). (buf ∷ bufs, t)) rest

module _ {S : Type 0} (sender : SendApi S) (peer : PeerApi S) (stale : S → ℕ) where
  -- From the first `recv` on: what `buf` holds in the end, or `none` for a `break`.
  unfoldable pub receive : ℕ → S → Result (Option (List ℕ) × S)
  receive sockfd s =
      let (header, s₁) = peer.recv s sockfd 4 in
      let recv_len = length_read (stale s) header in
      if int_ltb room recv_len
      then ok (none, peer.close s₁ sockfd)
      else let (body, s₂) = peer.recv s₁ sockfd (size_of_int recv_len) in
        do buf ← body_read body; ok (some buf, s₂)

  -- The body of the loop.
  unfoldable pub round : ℕ → ℕ → S → Result (Option (List ℕ) × S)
  round sockfd ii s = do
    len ← strlen (printed ii)
    let buf = printed ii
    if ltb room len then ok (none, peer.close s sockfd) else do
      tmpbuf ← packed len buf
      receive sockfd (sender.send s sockfd (take (len + 4) tmpbuf)).1

  -- The loop from round `ii` on, with `n` to come, and what `buf` held after each.
  unfoldable pub rounds : ℕ → ℕ → ℕ → S → Result (List (List ℕ) × S)
  rounds sockfd zero ii s = ok ([], s)
  rounds sockfd (suc n) ii s = do
    (played, s') ← round sockfd ii s
    let rest = rounds sockfd n (suc ii) s'
    collect s' rest played

  -- `main` behind its first test: the value returned, what the rounds received, and the system.
  unfoldable pub play :
      SocketApi S → InetApi → ℕ → List ℕ → List ℕ → S → Result (ℕ × List (List ℕ) × S)
  play sockets inet n ip port s =
      let (sockfd, s₁) = sockets.socket s in
      if is_negative sockfd then ok (minus_one, [], s₁) else do
        number ← atoi port
        let (connected, s₂) = peer.connect s₁ sockfd (server_address inet ip number)
        if not connected
            then ok (minus_one, [], peer.close s₂ sockfd)
            else do (bufs, s₃) ← rounds sockfd n 0 s₂; ok (0, bufs, peer.close s₃ sockfd)

  -- `main`, with `argv`.
  unfoldable pub main : SocketApi S → InetApi → List (List ℕ) → S → Result (ℕ × List (List ℕ) × S)
  main sockets inet (program ∷ ip ∷ port ∷ []) s = play sockets inet 50000 ip port s
  main sockets inet argv s = ok (minus_one, [], s)
