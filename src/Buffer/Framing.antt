-- ===== src/Buffer/Framing.antt =====
-- The stream of frames that a sequence of `appendSep` calls writes, and where a cut can fall in it.
use net_module.Base.{
  ℕ, ◌≤◌, ◌≡◌, refl, sym, ap, ◌∙◌, List, [], ◌∷◌, ◌++◌, arith, length, append_assoc, append-nil,
  dec_lt, length-append,
}
use net_module.Buffer.{Buffer, append, append_sep}
use net_module.Buffer.Erase.{frame, append_sep_cases}
use net_module.Buffer.Pick.{IsCut}

abbrev pub frames : List (List ℕ) → List ℕ
frames [] = []
frames (m ∷ ms) = frame m ++ frames ms

pub frames-append : (ms ns : List (List ℕ)) → frames (ms ++ ns) ≡ frames ms ++ frames ns
frames-append [] ns = refl
frames-append (m ∷ ms) ns =
    rw (frames-append ms ns) (sym (append_assoc (frame m) (frames ms) (frames ns)))

abbrev pub append_sep_all : Buffer → List (List ℕ) → Buffer
append_sep_all b [] = b
append_sep_all b (m ∷ ms) = append_sep_all (append_sep b m) ms

-- Sending messages one after the other writes the stream of their frames.
pub append_sep_all-frames :
    (b : Buffer) (ms : List (List ℕ))
    → b.sep ≡ 1
    → append_sep_all b ms ≡ record b { buf = b.buf ++ frames ms }
unfolding append
append_sep_all-frames b [] s = ground (arith, append-nil b.buf)
append_sep_all-frames b (m ∷ ms) s = rw ((append_sep_cases b m).1 s) (
    ground (
      arith,
      append_sep_all-frames (append b (frame m)) ms s,
      append_assoc b.buf (frame m) (frames ms),
    ))

-- Two ways to cut one list.
pub append-split {ℓ} :
    {A : Type ℓ} (xs ys zs ws : List A)
    → xs ++ ys ≡ zs ++ ws
    → length xs ≤ length zs
    → (rest : List A) × (zs ≡ xs ++ rest) × (ys ≡ rest ++ ws)
append-split [] ys zs ws e h = (zs, refl, e)
append-split (x ∷ xs) ys [] ws e h = absurd (omega arith)
append-split (x ∷ xs) ys (z ∷ zs) ws e h =
    let (rest, p, q) = append-split xs ys zs ws (cc) (omega arith) in (rest, cc, q)

-- What waits in the buffer: nothing, or a frame cut before its end.
pub data IsPending (part : List ℕ) (later : List (List ℕ)) : Type 0 where
  at_seam : part ≡ [] → IsPending part later
  inside :
      (m : List ℕ) (ms : List (List ℕ)) (missing : List ℕ)
      → later ≡ m ∷ ms
      → IsCut m part missing
      → IsPending part later

-- A prefix of a stream: whole frames, and what waits of the next one.
pub record Prefix (ms : List (List ℕ)) (front back : List ℕ) : Type 0 where
  pub whole : List (List ℕ)
  pub later : List (List ℕ)
  pub part : List ℕ
  pub all : ms ≡ whole ++ later
  pub front_lem : front ≡ frames whole ++ part
  pub back_lem : frames later ≡ part ++ back
  pub pending : IsPending part later

-- Wherever a stream is cut, the front is whole frames and part of at most one more.
pub cut-Prefix :
    (ms : List (List ℕ)) (front back : List ℕ) → frames ms ≡ front ++ back → Prefix ms front back
cut-Prefix [] [] back e = record {
  whole = [];
  later = [];
  part = [];
  all = refl;
  front_lem = refl;
  back_lem = e;
  pending = at_seam refl;
}
cut-Prefix [] (x ∷ front) back e = cc
cut-Prefix (m ∷ ms) front back e = elim (dec_lt (length front) (length (frame m))) [
  | yes short ↦
      let (missing, p, q) = append-split front back (frame m) (frames ms) (sym e) (omega arith) in
      record {
        whole = [];
        later = m ∷ ms;
        part = front;
        all = refl;
        front_lem = refl;
        back_lem = e;
        pending =
            inside m ms missing refl (record {
              whole = p;
              lacks = omega (arith, ap length p, length-append front missing);
            });
      }
  | no enough ↦
      let (rest, p, q) = append-split (frame m) (frames ms) front back e (omega arith) in
      let sub : Prefix ms rest back = cut-Prefix ms rest back q in
      record {
        whole = m ∷ sub.whole;
        later = sub.later;
        part = sub.part;
        all = ap (◌∷◌ m) sub.all;
        front_lem =
            p
            ∙ ap (◌++◌ (frame m)) sub.front_lem
            ∙ sym (append_assoc (frame m) (frames sub.whole) sub.part);
        back_lem = sub.back_lem;
        pending = sub.pending;
      }
]

-- When all of the stream is in the buffer, nothing waits.
pub IsPending-all :
    (part : List ℕ) (later : List (List ℕ))
    → IsPending part later
    → frames later ≡ part ++ []
    → (later ≡ []) × (part ≡ [])
IsPending-all part [] (at_seam p) e = (refl, p)
IsPending-all part [] (inside m ms missing p cut) e = cc
IsPending-all part (n ∷ ns) (at_seam p) e =
    absurd (omega (arith, ap length e, ap length p, length-append part []))
IsPending-all part (n ∷ ns) (inside m ms missing p cut) e =
    let same : n ≡ m = cc in
    absurd (
      omega (
        arith,
        ap length e,
        ap length same,
        ap length cut.whole,
        cut.lacks,
        length-append n (frames ns),
        length-append part missing,
        length-append part [],
      ))
