-- ===== src/Buffer/Overflow.antt =====
-- Buffer.cpp, lines 24 to 32: `appendSep` on a message whose size does not fit the header.
use net_module.Base.{ℕ, ◌+◌, ◌^◌, ◌<◌, ◌≡◌, true, List, arith, length, take, drop, ok}
use net_module.Base.Word.{int_of_bytes-le_bytes}
use net_module.Buffer.{make, append_sep, pick_message, read_header}
use net_module.Buffer.Erase.{frame}
use net_module.Buffer.Pick.{pick_frame_small}

read_header-frame_wide :
    (stale : ℕ → ℕ) (m : List ℕ) (n : ℕ)
    → length m ≡ 2 ^ 32 + n
    → n < 2 ^ 32
    → read_header stale (frame m) ≡ n
read_header-frame_wide stale m n e h = omega (arith, int_of_bytes-le_bytes (length m), e)

-- A message of 2 ^ 32 + n bytes, for an n that fits an `int` with 4 to spare: the header holds only n, so
-- that what comes out of an empty buffer is the first n bytes of it, and the other 2 ^ 32 stay behind,
-- where the next header is looked for.
pub append_sep_overflow :
    (stale : ℕ → ℕ) (ss m : List ℕ) (n : ℕ)
    → length m ≡ 2 ^ 32 + n
    → n + 4 < 2 ^ 31
    → pick_message stale (append_sep (make 1) m) ss
      ≡ ok
          (record { found = true; buffer = record { buf = drop n m; sep = 1 }; message = take n m })
unfolding pick_message append_sep
append_sep_overflow stale ss m n e h =
    let header = read_header-frame_wide stale m n e (omega arith) in
    ground (arith, header, (pick_frame_small (record { buf = frame m; sep = 1 }) ss n h).1)
