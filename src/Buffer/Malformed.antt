-- ===== src/Buffer/Malformed.antt =====
-- Headers that no `appendSep` of a small message writes: what `pickMessage` makes of them.
use net_module.Base.{
  ℕ, ◌+◌, ◌-◌, ◌^◌, ◌≤◌, ◌<◌, ◌≡◌, ap, List, ◌∷◌, arith, length, drop, true, ok, take_of_length-le,
  length-append,
}
use net_module.Base.Word.{int_of_bytes}
use net_module.Buffer.{Buffer, append, pick_message, pick_frame}
use net_module.Buffer.Pick.{refused}

-- In a buffer with headers and below 2 ^ 63 bytes, a header from -4 to -1 is accepted: the message is
-- all that follows the header, yet only the first `len + 4` bytes of the buffer go.
pub pick_message_negative :
    (stale : ℕ → ℕ) (b : Buffer) (ss : List ℕ) (w x y z k : ℕ) (r : List ℕ)
    → b.sep ≡ 1
    → b.buf ≡ w ∷ x ∷ y ∷ z ∷ r
    → int_of_bytes w x y z ≡ 2 ^ 32 - 4 + k
    → k < 4
    → length b.buf < 2 ^ 63
    → pick_message stale b ss
      ≡ ok (record { found = true; buffer = record b { buf = drop k b.buf }; message = r })
unfolding pick_message pick_frame
pick_message_negative stale b ss w x y z k r s e h small fits =
    ground (arith, ap length e, take_of_length-le (2 ^ 64 - 4 + k) r)

-- In a buffer with headers, a header for which `len + 4` overflows, or that lies below -4, is never
-- served: whatever bytes are appended behind it, up to 2 ^ 63 in all, no message comes out and nothing
-- is erased.
pub pick_message_blocked :
    (stale : ℕ → ℕ) (b : Buffer) (ss : List ℕ) (w x y z : ℕ) (r more : List ℕ)
    → b.sep ≡ 1
    → b.buf ≡ w ∷ x ∷ y ∷ z ∷ r
    → 2 ^ 31 ≤ int_of_bytes w x y z + 4
    → int_of_bytes w x y z < 2 ^ 32 - 4
    → length b.buf + length more < 2 ^ 63
    → pick_message stale (append b more) ss ≡ refused (append b more) ss
unfolding pick_message pick_frame append
pick_message_blocked stale b ss w x y z r more s e lo hi fits =
    ground (arith, ap length e, length-append r more)
