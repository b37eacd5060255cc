-- ===== src/PressureTestClient/Packing.antt =====
-- The load generator measures binary headers as texts.
use net_module.Base.{
  ℕ, zero, suc, ◌^◌, ◌%◌, ◌/◌, ◌≤◌, ◌<◌, ◌≡◌, refl, false, List, [], ◌∷◌, ◌++◌, ok, length, lt→ltb,
  le→ltb, arith,
}
use net_module.Buffer.Erase.{frame}
use net_module.Base.Text.{strlen}
use net_module.PressureTestClient.{send_message, sent_bytes, unpack, recv_message}

-- A 0 among the first four bytes ends a text.
strlen_short :
    (a b c : ℕ) (rest : List ℕ) → (n : ℕ) × (strlen (a ∷ b ∷ c ∷ 0 ∷ rest) ≡ ok n) × (n < 4)
strlen_short zero b c rest = (0, refl, omega arith)
strlen_short (suc a) zero c rest = (1, refl, omega arith)
strlen_short (suc a) (suc b) zero rest = (2, refl, omega arith)
strlen_short (suc a) (suc b) (suc c) rest = (3, refl, omega arith)

pub recv_short :
    (buffer text : List ℕ) (n : ℕ)
    → strlen buffer ≡ ok n
    → n < 4
    → recv_message buffer text ≡ ok (false, text)
unfolding recv_message unpack
recv_short buffer text n h few = rw (h, lt→ltb n 4 few)

pub sent_one :
    (object : List ℕ) (size : ℕ)
    → 0 < size
    → size < 256
    → size ≤ length object
    → sent_bytes object size ≡ ok (size ∷ [])
unfolding sent_bytes send_message
sent_one object zero pos small there = absurd (omega arith)
sent_one object (suc k) pos small there =
    let low : suc k % 256 ≡ suc k = omega arith in
    let next : suc k / 256 % 256 ≡ 0 = omega arith in
    rw (le→ltb 1020 (suc k) (omega arith), le→ltb (length object) (suc k) there, low, next)

pub frame_unread :
    (m rest text : List ℕ)
    → length m < 2 ^ 24
    → recv_message (frame m ++ rest) text ≡ ok (false, text)
frame_unread m rest text short =
    let top : length m / 16777216 % 256 ≡ 0 = omega arith in
    let (n, text_length, few) =
      strlen_short (length m % 256) (length m / 256 % 256) (length m / 65536 % 256) (m ++ rest) in
    recv_short (frame m ++ rest) text n (rw top text_length) few

-- Of a message of 1 to 255 bytes only the first byte of the header is sent, whatever its text; and no
-- frame that a server sends, of a message below 2 ^ 24 bytes, is ever taken for one, whatever stands
-- behind it in the receive buffer.
pub packing_fails :
    (object : List ℕ) (size : ℕ) (m rest text : List ℕ)
    → 0 < size
    → size < 256
    → size ≤ length object
    → length m < 2 ^ 24
    → (sent_bytes object size ≡ ok (size ∷ []))
      × (recv_message (frame m ++ rest) text ≡ ok (false, text))
packing_fails object size m rest text pos small room_there short =
    (sent_one object size pos small room_there, frame_unread m rest text short)
