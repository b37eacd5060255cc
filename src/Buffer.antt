-- ===== src/Buffer.antt =====
-- include/Buffer.h and src/Buffer.cpp: the byte buffer and its message framing. A pair of a pointer
-- and a size is the list of the bytes it covers; a byte is a number below 256.
pub mod Erase
pub mod Pick
pub mod Framing
pub mod Malformed
pub mod Overflow
pub mod Sound
mod Tests
use net_module.Base.{
  ℕ, ◌+◌, ◌-◌, ◌≡◌, Bool, true, false, List, [], ◌∷◌, ◌++◌, ltb, ◌==◌, if◌then◌else◌, length,
  is_empty, take, drop, Result, ok, err, out_of_range, ◌>>=◌,
}
use net_module.Base.Word.{add_int, size_of_int, le_bytes, int_of_bytes}

pub record Buffer : Type 0 where
  pub buf : List ℕ
  pub sep : ℕ

-- `Buffer(uint16_t sep = 1)`.
abbrev pub make : ℕ → Buffer
make sep = record { buf = []; sep = sep }

unfoldable pub append : Buffer → List ℕ → Buffer
append b bytes = record b { buf = b.buf ++ bytes }

-- The header is the low half of the `size_t` that counts the bytes.
unfoldable pub append_sep : Buffer → List ℕ → Buffer
append_sep b bytes =
    if b.sep == 0
    then record b { buf = b.buf ++ bytes }
    else if b.sep == 1
    then record b { buf = b.buf ++ (le_bytes (length bytes) ++ bytes) }
    else b

unfoldable pub size : Buffer → ℕ
size b = length b.buf

-- The bytes at the address that `data` returns, `size` of them.
unfoldable pub contents : Buffer → List ℕ
contents b = b.buf

unfoldable pub clear : Buffer → Buffer
clear b = record b { buf = [] }

-- `std::string::erase` and `substr` throw when the position is past the end.
abbrev pub erase_bytes : List ℕ → ℕ → ℕ → Result (List ℕ)
erase_bytes s pos n =
    if ltb (length s) pos then err out_of_range else ok (take pos s ++ drop n (drop pos s))

abbrev pub substr : List ℕ → ℕ → ℕ → Result (List ℕ)
substr s pos n = if ltb (length s) pos then err out_of_range else ok (take n (drop pos s))

unfoldable pub erase : Buffer → ℕ → ℕ → Result Buffer
erase b pos n = do s ← erase_bytes b.buf pos n; ok (record b { buf = s })

-- `memcpy(&len, buf_.data(), 4)`. Behind the text stands its terminating 0, and then memory that
-- the program has not written: `stale`.
abbrev pub read_header : (ℕ → ℕ) → List ℕ → ℕ
read_header stale [] = int_of_bytes 0 (stale 0) (stale 1) (stale 2)
read_header stale (a ∷ []) = int_of_bytes a 0 (stale 0) (stale 1)
read_header stale (a ∷ b ∷ []) = int_of_bytes a b 0 (stale 0)
read_header stale (a ∷ b ∷ c ∷ []) = int_of_bytes a b c 0
read_header stale (a ∷ b ∷ c ∷ d ∷ _) = int_of_bytes a b c d

-- What `pickMessage` leaves: its result, the buffer, and the caller's string `ss`.
pub record Picked : Type 0 where
  pub found : Bool
  pub buffer : Buffer
  pub message : List ℕ

-- The branch for `sep_ == 1`, from the header on.
unfoldable pub pick_frame : ℕ → Buffer → List ℕ → Result Picked
pick_frame len b ss =
    if ltb (length b.buf) (size_of_int (add_int len 4))
    then ok (record { found = false; buffer = b; message = ss })
    else do
      message ← substr b.buf 4 (size_of_int len)
      rest ← erase_bytes b.buf 0 (size_of_int (add_int len 4))
      ok (record { found = true; buffer = record b { buf = rest }; message = message })

unfoldable pub pick_message : (ℕ → ℕ) → Buffer → List ℕ → Result Picked
pick_message stale b ss =
    if is_empty b.buf
    then ok (record { found = false; buffer = b; message = ss })
    else if b.sep == 0
    then ok (record { found = true; buffer = record b { buf = [] }; message = b.buf })
    else if b.sep == 1
    then pick_frame (read_header stale b.buf) b ss
    else ok (record { found = true; buffer = b; message = ss })
