-- ===== src/Buffer/Pick.antt =====
-- `Buffer::pickMessage` on one message: found when complete, refused when cut short.
use net_module.Base.{
  ℕ, ◌+◌, ◌-◌, ◌^◌, ◌≤◌, ◌<◌, ◌≡◌, ap, true, false, List, [], ◌∷◌, ◌++◌, arith, All, length, take,
  drop, length-append, Result, ok, take-append_left, drop-append_left,
}
use net_module.Base.Word.{add_int, size_of_int, int_of_bytes, int_of_bytes-le_bytes}
use net_module.Buffer.{Buffer, Picked, pick_message, pick_frame, read_header}
use net_module.Buffer.Erase.{frame}

-- A byte.
abbrev pub IsByte : ℕ → Type 0
IsByte x = x < 256

-- The lengths for which `len + 4` does not overflow an `int`.
abbrev pub IsFramable : List ℕ → Type 0
IsFramable m = length m + 4 < 2 ^ 31

read_header-frame :
    (stale : ℕ → ℕ) (m rest : List ℕ)
    → IsFramable m
    → read_header stale (frame m ++ rest) ≡ length m
read_header-frame stale m rest h = omega (arith, int_of_bytes-le_bytes (length m))

size_of_int_small : (n : ℕ) → n + 4 < 2 ^ 31 → size_of_int n ≡ n
size_of_int_small n h = ground arith

size_of_int-add_int_small : (n : ℕ) → n + 4 < 2 ^ 31 → size_of_int (add_int n 4) ≡ n + 4
size_of_int-add_int_small n h = ground arith

-- The branch for a header that does not overflow, as a test on the size.
pub pick_frame_small :
    (b : Buffer) (ss : List ℕ) (n : ℕ)
    → n + 4 < 2 ^ 31
    → (length b.buf < n + 4
        → pick_frame n b ss ≡ ok (record { found = false; buffer = b; message = ss }))
      × (n + 4 ≤ length b.buf
          → pick_frame n b ss
            ≡ ok (record {
              found = true;
              buffer = record b { buf = drop (n + 4) b.buf };
              message = take n (drop 4 b.buf);
            }))
unfolding pick_frame
pick_frame_small b ss n h =
    rw (size_of_int_small n h, size_of_int-add_int_small n h)
      (λ short. ground arith, λ enough. ground arith)

-- In a buffer with headers, a complete frame of less than 2 ^ 31 - 4 bytes at the front is taken off
-- whole, whatever follows it.
pub pick_message-frame :
    (stale : ℕ → ℕ) (b : Buffer) (ss m rest : List ℕ)
    → b.sep ≡ 1
    → IsFramable m
    → b.buf ≡ frame m ++ rest
    → pick_message stale b ss
      ≡ ok (record { found = true; buffer = record b { buf = rest }; message = m })
unfolding pick_message
pick_message-frame stale b ss m rest s h e = ground (
  arith,
  read_header-frame stale m rest h,
  (pick_frame_small b ss (length m) h).1,
  length-append m rest,
  take-append_left (length m) m rest,
  drop-append_left (length m) m rest,
)

-- What a refused pick leaves: nothing has changed.
abbrev pub refused : Buffer → List ℕ → Result Picked
refused b ss = ok (record { found = false; buffer = b; message = ss })

pick_frame_wide :
    (b : Buffer) (ss : List ℕ) (len : ℕ)
    → len < 2 ^ 32 - 4
    → length b.buf < 4
    → pick_frame len b ss ≡ refused b ss
unfolding pick_frame
pick_frame_wide b ss len h short = ground arith

-- Less than a header is never taken for a message, whatever bytes lie in memory behind the text:
-- the terminating 0 of the text keeps the header out of -4 … -1.
pub pick_message_short :
    (stale : ℕ → ℕ) (b : Buffer) (ss bytes : List ℕ)
    → b.sep ≡ 1
    → ((i : ℕ) → IsByte (stale i))
    → All IsByte bytes
    → b.buf ≡ bytes
    → length bytes < 4
    → pick_message stale b ss ≡ refused b ss
unfolding pick_message
pick_message_short stale b ss [] s st by e h = ground arith
pick_message_short stale b ss (w ∷ []) s st by e h =
    ground (arith, st 0, st 1, pick_frame_wide b ss (int_of_bytes w 0 (stale 0) (stale 1)))
pick_message_short stale b ss (w ∷ x ∷ []) s st by e h =
    ground (arith, st 0, pick_frame_wide b ss (int_of_bytes w x 0 (stale 0)))
pick_message_short stale b ss (w ∷ x ∷ y ∷ []) s st by e h =
    ground (arith, pick_frame_wide b ss (int_of_bytes w x y 0))
pick_message_short stale b ss (w ∷ x ∷ y ∷ z ∷ r) s st by e h = absurd (omega arith)

-- A frame cut before its end.
pub record IsCut (m part missing : List ℕ) : Type 0 where
  pub whole : frame m ≡ part ++ missing
  pub lacks : 0 < length missing

pick_message-cut_body :
    (stale : ℕ → ℕ) (b : Buffer) (ss m : List ℕ) (w x y z : ℕ) (r missing : List ℕ)
    → b.sep ≡ 1
    → IsFramable m
    → IsCut m (w ∷ x ∷ y ∷ z ∷ r) missing
    → b.buf ≡ w ∷ x ∷ y ∷ z ∷ r
    → pick_message stale b ss ≡ refused b ss
unfolding pick_message
pick_message-cut_body stale b ss m w x y z r missing s h cut e = ground (
  arith,
  cut.whole,
  cut.lacks,
  ap length cut.whole,
  length-append (w ∷ x ∷ y ∷ z ∷ r) missing,
  int_of_bytes-le_bytes (length m),
  (pick_frame_small b ss (length m) h).0,
)

-- In a buffer with headers, part of a frame of less than 2 ^ 31 - 4 bytes is never taken for a message
-- and stays as it is, whatever bytes the memory behind it holds.
pub pick_message-cut :
    (stale : ℕ → ℕ) (b : Buffer) (ss m part missing : List ℕ)
    → b.sep ≡ 1
    → ((i : ℕ) → IsByte (stale i))
    → IsFramable m
    → IsCut m part missing
    → b.buf ≡ part
    → pick_message stale b ss ≡ refused b ss
pick_message-cut stale b ss m [] missing s st h cut e =
    pick_message_short stale b ss [] s st tt e (omega arith)
pick_message-cut stale b ss m (w ∷ []) missing s st h cut e =
    pick_message_short stale b ss (w ∷ []) s st (ground (arith, cut.whole)) e (omega arith)
pick_message-cut stale b ss m (w ∷ x ∷ []) missing s st h cut e =
    pick_message_short stale b ss (w ∷ x ∷ []) s st (ground (arith, cut.whole)) e (omega arith)
pick_message-cut stale b ss m (w ∷ x ∷ y ∷ []) missing s st h cut e =
    pick_message_short stale b ss (w ∷ x ∷ y ∷ []) s st (ground (arith, cut.whole)) e (omega arith)
pick_message-cut stale b ss m (w ∷ x ∷ y ∷ z ∷ r) missing s st h cut e =
    pick_message-cut_body stale b ss m w x y z r missing s h cut e
