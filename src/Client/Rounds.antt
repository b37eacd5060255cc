-- ===== src/Client/Rounds.antt =====
-- What one round of the client sends and what it makes of an answer.
use net_module.Base.{
  ℕ, ◌+◌, ◌^◌, ◌≤◌, ◌<◌, ◌≡◌, refl, sym, ap, ◌∙◌, List, [], ◌∷◌, ◌++◌, ok, le→ltb, All, All-map,
  length, length-append, take, drop, take-append_left, append_assoc, arith,
}
use net_module.Base.Word.{le_bytes}
use net_module.Base.Text.{
  zeros, strlen, overwrite, strlen-append, digits, IsDigit, digits-IsDigit, length-digits,
  All-append, atoi, atoi-decimal,
}
use net_module.System.{SendApi, PeerApi}
use net_module.Buffer.{make, append_sep}
use net_module.Buffer.Erase.{frame}
use net_module.Client.{room, text, printed, packed, receive, round}

text-positive : (ii : ℕ) → All (λ c. 0 < c) (text ii)
text-positive ii =
    All-append (λ c. 0 < c) (digits 10 ii) (0xe4 ∷ 0xb8 ∷ 0xaa ∷ [])
      (All-map IsDigit (λ c. 0 < c) (digits 10 ii) (λ c h. omega (arith, h.0))
        (digits-IsDigit 10 ii))
      (omega arith, (omega arith, (omega arith, tt)))

pub length-text : (ii : ℕ) → length (text ii) ≤ 13
length-text ii =
    omega (arith, length-append (digits 10 ii) (0xe4 ∷ 0xb8 ∷ 0xaa ∷ []), length-digits 10 ii)

-- The number of a round can be read back from its text by `atoi`, for each number that a loop of `int`s can
-- reach; so no two rounds send the same.
pub atoi-text : (ii : ℕ) → ii < 2 ^ 31 → atoi (text ii) ≡ ok ii
atoi-text ii h = atoi-decimal ii 0xe4 (0xb8 ∷ 0xaa ∷ []) h refl

strlen-printed : (ii : ℕ) → strlen (printed ii) ≡ ok (length (text ii))
strlen-printed ii =
    ap strlen (append_assoc (text ii) (0 ∷ []) (drop (length (text ii ++ 0 ∷ [])) (zeros room)))
    ∙ strlen-append (text ii) _ (text-positive ii)

-- The text and its closing 0 at the front of `buf`.
copied : (ii : ℕ) → take (length (text ii) + 1) (printed ii) ≡ text ii ++ 0 ∷ []
copied ii =
    take-append_left (length (text ii) + 1) (text ii ++ 0 ∷ []) _
      (omega (arith, length-append (text ii) (0 ∷ [])))

-- What `send` is given, of a header and a text with its closing 0 at the front of `tmpbuf`.
front-frame :
    (m rest : List ℕ)
    → take (length m + 4) ((le_bytes (length m) ++ (m ++ 0 ∷ [])) ++ rest) ≡ frame m
front-frame m rest =
    ap (λ l. take (length m + 4) (le_bytes (length m) ++ l)) (append_assoc m (0 ∷ []) rest)
    ∙ ap (take (length m + 4)) (sym (append_assoc (le_bytes (length m)) m (0 ∷ rest)))
    ∙ take-append_left (length m + 4) (frame m) (0 ∷ rest) (omega arith)

packed-printed :
    (ii : ℕ)
    → packed (length (text ii)) (printed ii)
      ≡ ok (overwrite (le_bytes (length (text ii)) ++ (text ii ++ 0 ∷ [])) (zeros room))
packed-printed ii =
    rw (le→ltb 1024 (4 + length (text ii) + 1) (omega (arith, length-text ii)), copied ii)

module _ {S : Type 0} (sender : SendApi S) (peer : PeerApi S) (stale : S → ℕ) where
  pub round-sends :
      (sockfd ii : ℕ) (s : S)
      → round sender peer stale sockfd ii s
        ≡ receive sender peer stale sockfd (sender.send s sockfd (frame (text ii))).1
  unfolding round
  round-sends sockfd ii s = rw (
    strlen-printed ii,
    le→ltb 1024 (length (text ii)) (omega (arith, length-text ii)),
    packed-printed ii,
    front-frame (text ii),
  )

  -- Each round, whatever its number: nothing is too long for the arrays of 1024 bytes, and what is sent
  -- is, byte for byte, what the library's `appendSep` makes of the text, at most 17 bytes. Then the
  -- answer is awaited.
  pub round-append_sep :
      (sockfd ii : ℕ) (s : S)
      → (round sender peer stale sockfd ii s
          ≡ receive sender peer stale sockfd
              (sender.send s sockfd (append_sep (make 1) (text ii)).buf).1)
        × (length (append_sep (make 1) (text ii)).buf ≤ 17)
  unfolding append_sep
  round-append_sep sockfd ii s = (round-sends sockfd ii s, omega (arith, length-text ii))
