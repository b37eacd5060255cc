-- ===== src/Buffer/Erase.antt =====
-- Buffer.cpp, lines 16 to 45: appending and erasing, and what the raw `append_sep` writes.
use net_module.Base.{
  ℕ, ◌≤◌, ◌<◌, ◌≡◌, List, [], ◌++◌, arith, length, take, drop, ok, err, out_of_range, le→ltb,
  lt→ltb, drop_of_length-le,
}
use net_module.Base.Word.{le_bytes}
use net_module.Buffer.{Buffer, append, append_sep, erase}

-- The bytes of one message as they travel: a header with the length, then the message.
abbrev pub frame : List ℕ → List ℕ
frame m = le_bytes (length m) ++ m

-- Erasing from the front with a count past the end empties the buffer, and reports no error.
pub erase_all : (b : Buffer) (n : ℕ) → length b.buf ≤ n → erase b 0 n ≡ ok (record b { buf = [] })
unfolding erase
erase_all b n h = ground (arith, drop_of_length-le n b.buf h)

-- Erasing past the end throws, whatever the count; within the buffer it never does, and the size
-- falls by the count or to the position.
pub erase_cases :
    (b : Buffer) (pos n : ℕ)
    → (length b.buf < pos → erase b pos n ≡ err out_of_range)
      × (pos ≤ length b.buf
          → erase b pos n ≡ ok (record b { buf = take pos b.buf ++ drop n (drop pos b.buf) }))
unfolding erase
erase_cases b pos n = (λ h. rw (lt→ltb _ _ h), λ h. rw (le→ltb _ _ h))

-- `append_sep` at each setting of `sep`: the bytes alone, the frame, or nothing.
pub append_sep_cases :
    (b : Buffer) (m : List ℕ)
    → (b.sep ≡ 0 → append_sep b m ≡ append b m)
      × (b.sep ≡ 1 → append_sep b m ≡ append b (frame m))
      × (1 < b.sep → append_sep b m ≡ b)
unfolding append_sep append
append_sep_cases b m = (λ h. ground arith, λ h. ground arith, λ h. ground arith)
