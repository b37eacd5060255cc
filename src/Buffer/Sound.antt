-- ===== src/Buffer/Sound.antt =====
-- `Buffer::pickMessage` on arbitrary bytes: no exception, and no message whose frame is not there.
use net_module.Base.{
  Fault, dec_lt, Bool-cases, ==_iff, ◌==◌, ℕ, ◌+◌, ◌^◌, ◌≤◌, ◌<◌, ◌≡◌, refl, ap, ◌≢◌, inl, inr,
  true, List, [], ◌∷◌, ◌++◌, arith, All, length, take, drop, ok, err, take-append-drop,
  length-take_of_le,
}
use net_module.Base.Word.{int_of_bytes}
use net_module.Buffer.{Buffer, Picked, pick_message, pick_frame, read_header}
use net_module.Buffer.Erase.{frame}
use net_module.Buffer.Pick.{IsByte, pick_frame_small, pick_message_short}

pick_frame_no_throw :
    (b : Buffer) (ss : List ℕ) (len : ℕ) (f : Fault)
    → 4 ≤ length b.buf
    → pick_frame len b ss ≢ err f
unfolding pick_frame
pick_frame_no_throw b ss len f h = ground arith

-- `pickMessage` lets no exception out, at any setting of `sep` and on any bytes.
pub pick_message_no_throw :
    (stale : ℕ → ℕ) (b : Buffer) (ss : List ℕ) (f : Fault)
    → ((i : ℕ) → IsByte (stale i))
    → All IsByte b.buf
    → pick_message stale b ss ≢ err f
unfolding pick_message
pick_message_no_throw stale b ss f st by = elim (dec_lt (length b.buf) 4) [
  | yes short ↦ elim (Bool-cases (b.sep == 1)) [
    | inl framed ↦
        rw (pick_message_short stale b ss b.buf ((==_iff _ _).0 framed) st by refl short) (λ e. cc)
    | inr other ↦ ground arith
  ]
  | no long ↦ ground (arith, pick_frame_no_throw b ss (read_header stale b.buf) f)
]

frame_of_header :
    (w x y z : ℕ) (r : List ℕ) (n : ℕ)
    → w < 256
    → x < 256
    → y < 256
    → z < 256
    → int_of_bytes w x y z ≡ n
    → n ≤ length r
    → w ∷ x ∷ y ∷ z ∷ r ≡ frame (take n r) ++ drop n r
frame_of_header w x y z r n hw hx hy hz e h =
    rw (length-take_of_le n r h) (ground (arith, take-append-drop n r))

-- What a successful pick under a header that does not overflow tells.
record Found (n : ℕ) (b : Buffer) (p : Picked) : Type 0 where
  enough : n + 4 ≤ length b.buf
  taken : p.message ≡ take n (drop 4 b.buf)
  left : p.buffer ≡ record b { buf = drop (n + 4) b.buf }

pick_frame-Found :
    (b : Buffer) (ss : List ℕ) (n : ℕ) (p : Picked)
    → n + 4 < 2 ^ 31
    → pick_frame n b ss ≡ ok p
    → p.found ≡ true
    → Found n b p
pick_frame-Found b ss n p small run hit = elim (dec_lt (length b.buf) (n + 4)) [
  | yes short ↦ absurd (ground (arith, (pick_frame_small b ss n small).0 short))
  | no enough ↦
      let e = (pick_frame_small b ss n small).1 (omega arith) in
      record { enough = omega arith; taken = ground arith; left = ground arith }
]

Found-frame :
    (stale : ℕ → ℕ) (b : Buffer) (bytes : List ℕ) (p : Picked)
    → b.buf ≡ bytes
    → All IsByte bytes
    → Found (read_header stale bytes) b p
    → b.buf ≡ frame p.message ++ p.buffer.buf
Found-frame stale b [] p e by f = absurd (omega (arith, f.enough, ap length e))
Found-frame stale b (w ∷ []) p e by f = absurd (omega (arith, f.enough, ap length e))
Found-frame stale b (w ∷ x ∷ []) p e by f = absurd (omega (arith, f.enough, ap length e))
Found-frame stale b (w ∷ x ∷ y ∷ []) p e by f = absurd (omega (arith, f.enough, ap length e))
Found-frame stale b (w ∷ x ∷ y ∷ z ∷ r) p e by f = ground (
  arith,
  f.taken,
  f.left,
  f.enough,
  ap length e,
  frame_of_header w x y z r (int_of_bytes w x y z),
)

-- In a buffer with headers, of any bytes, and with a header below 2 ^ 31 - 4 at the front, a message is
-- taken only if its frame stood there: header, message, and then exactly what is left in the buffer.
pub pick_message_sound :
    (stale : ℕ → ℕ) (b : Buffer) (ss : List ℕ) (p : Picked)
    → b.sep ≡ 1
    → All IsByte b.buf
    → read_header stale b.buf + 4 < 2 ^ 31
    → pick_message stale b ss ≡ ok p
    → p.found ≡ true
    → b.buf ≡ frame p.message ++ p.buffer.buf
unfolding pick_message
pick_message_sound stale b ss p s by small run hit =
    Found-frame stale b b.buf p refl by
      (pick_frame-Found b ss (read_header stale b.buf) p small (ground arith) hit)
