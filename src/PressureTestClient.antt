-- ===== src/PressureTestClient.antt =====
-- example/PressureTestClient.cpp: how the load generator packs and unpacks messages.
pub mod Packing
pub mod Run
pub mod Stall
pub mod Descriptors
mod Tests
use net_module.Base.{
  ℕ, ◌+◌, ◌-◌, ◌≡◌, Bool, true, false, List, [], ◌∷◌, ◌++◌, Result, ok, err, undefined, ◌>>=◌, ltb,
  ◌||◌, if◌then◌else◌, length, take, drop,
}
use net_module.Base.Text.{zeros, strlen}
use net_module.Base.Word.{add_int, int_ltb, int_of_bytes, le_bytes, size_of_int}

-- `HEAD_SIZE` and the room behind the header in `SendBuffer`.
abbrev pub head_size : ℕ
head_size = 4

abbrev pub room : ℕ
room = 1020

-- `SendMessage`, for a message of `size` bytes: it copies from `&message`, the memory of the string
-- object, not from its text. The result is `SendBuffer`.
unfoldable pub send_message : List ℕ → ℕ → Result (List ℕ)
send_message object size =
    if ltb room size || ltb (length object) size
    then err undefined
    else ok (le_bytes size ++ (take size object ++ zeros (room - size)))

-- The bytes that `main` hands to `send`: `strlen(SendBuffer)` of them.
unfoldable pub sent_bytes : List ℕ → ℕ → Result (List ℕ)
sent_bytes object size = do buffer ← send_message object size; n ← strlen buffer; ok (take n buffer)

-- The header of a buffer of four bytes or more.
abbrev pub body_len : List ℕ → ℕ
body_len (w ∷ x ∷ y ∷ z ∷ rest) = int_of_bytes w x y z
body_len s = 0

-- `RecvMessage` after `strlen`: its result and the caller's string `data`, here `text`.
unfoldable pub unpack : ℕ → List ℕ → List ℕ → Result (Bool × List ℕ)
unpack all_len buffer text =
    if ltb all_len head_size
    then ok (false, text)
    else if int_ltb (add_int (body_len buffer) head_size) all_len
    then ok (false, text)
    else if ltb (length buffer) (head_size + size_of_int (body_len buffer))
    then err undefined
    else ok (true, take (size_of_int (body_len buffer)) (drop head_size buffer))

unfoldable pub recv_message : List ℕ → List ℕ → Result (Bool × List ℕ)
recv_message buffer text = do all_len ← strlen buffer; unpack all_len buffer text
