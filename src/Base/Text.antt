-- ===== src/Base/Text.antt =====
-- Texts of C in memory: the bytes, a closing 0, and what the program uses of the standard library.
use Prim.Native.Nat.{ℕ, zero, suc, ◌+◌, ◌-◌, ◌*◌, ◌/◌, ◌%◌, ◌^◌, ◌≤◌, ◌<◌}
use mathlib.Core.Path.{◌≡◌, refl, ap, ◌∙◌}
use mathlib.Core.Logic.{inl, inr}
use mathlib.Core.Bool.{Bool, true, false, ◌&&◌, ◌||◌}
use mathlib.Core.List.{List, [], ◌∷◌, ◌++◌}
use native.Mathlib.Omega.{arith}
use net_module.Base.Tests.{ltb, leb, ◌==◌, if◌then◌else◌, Bool-cases, lt→ltb}
use net_module.Base.Lists.{length, drop, All, length-append}
use net_module.Base.Faults.{Result, err, ok, undefined, map_ok}

abbrev pub zeros : ℕ → List ℕ
zeros zero = []
zeros (suc n) = 0 ∷ zeros n

-- `strlen`; without a 0 in the memory given it reads past it.
abbrev pub strlen : List ℕ → Result ℕ
strlen [] = err undefined
strlen (zero ∷ s) = ok 0
strlen (suc c ∷ s) = map_ok suc (strlen s)

-- Bytes written over the front of a piece of memory that has room for them.
abbrev pub overwrite : List ℕ → List ℕ → List ℕ
overwrite bytes memory = bytes ++ drop (length bytes) memory

-- `isspace` and `isdigit`.
abbrev pub is_space : ℕ → Bool
is_space c = c == 32 || leb 9 c && leb c 13

abbrev pub is_digit : ℕ → Bool
is_digit c = leb 48 c && leb c 57

-- The number that the digits at the front of a text write, behind the value of those before.
abbrev pub digits_value : ℕ → List ℕ → ℕ
digits_value acc [] = acc
digits_value acc (c ∷ s) =
    let rest = digits_value (acc * 10 + (c - 48)) s in if is_digit c then rest else acc

-- An `int` by its sign and magnitude; one that does not fit is undefined.
abbrev pub signed : Bool → ℕ → Result ℕ
signed false n = if ltb n (2 ^ 31) then ok n else err undefined
signed true n = if leb n (2 ^ 31) then ok ((2 ^ 32 - n) % 2 ^ 32) else err undefined

abbrev pub after_sign : List ℕ → Result ℕ
after_sign [] = ok 0
after_sign (c ∷ s) =
    if c == 45
    then signed true (digits_value 0 s)
    else if c == 43
    then signed false (digits_value 0 s)
    else signed false (digits_value 0 (c ∷ s))

-- `atoi`, of a text up to its closing 0.
unfoldable pub atoi : List ℕ → Result ℕ
atoi [] = ok 0
atoi (c ∷ s) = let rest = atoi s in if is_space c then rest else after_sign (c ∷ s)

-- The digits of a number, at most as many as the fuel.
unfoldable pub digits : ℕ → ℕ → List ℕ
digits zero n = []
digits (suc fuel) n =
    let front = digits fuel (n / 10) in
    if ltb n 10 then (48 + n) ∷ [] else front ++ ((48 + n % 10) ∷ [])

-- `%d` of an `int` that is not negative: it has at most ten digits.
abbrev pub decimal : ℕ → List ℕ
decimal n = digits 10 n

abbrev pub IsDigit : ℕ → Type 0
IsDigit c = (48 ≤ c) × (c ≤ 57)

pub All-append {ℓ κ} :
    {A : Type ℓ} (P : A → Type κ) (l r : List A) → All P l → All P r → All P (l ++ r)
All-append P [] r h k = k
All-append P (a ∷ l) r h k = (h.0, All-append P l r h.1 k)

pub digits-IsDigit : (fuel n : ℕ) → All IsDigit (digits fuel n)
unfolding digits
digits-IsDigit zero n = tt
digits-IsDigit (suc fuel) n = elim (Bool-cases (ltb n 10)) [
  | inl one ↦ rw one ((omega arith, ground arith), tt)
  | inr more ↦ rw more (
      All-append IsDigit (digits fuel (n / 10)) ((48 + n % 10) ∷ []) (digits-IsDigit fuel (n / 10))
        ((omega arith, omega arith), tt))
]

pub length-digits : (fuel n : ℕ) → length (digits fuel n) ≤ fuel
unfolding digits
length-digits zero n = omega arith
length-digits (suc fuel) n = elim (Bool-cases (ltb n 10)) [
  | inl one ↦ rw one (omega arith)
  | inr more ↦ rw more (
      omega (
        arith,
        length-append (digits fuel (n / 10)) ((48 + n % 10) ∷ []),
        length-digits fuel (n / 10),
      ))
]

-- A text without a 0 is measured up to the 0 behind it.
pub strlen-append : (s rest : List ℕ) → All (λ c. 0 < c) s → strlen (s ++ 0 ∷ rest) ≡ ok (length s)
strlen-append [] rest h = refl
strlen-append (zero ∷ s) rest h = absurd (omega (arith, h.0))
strlen-append (suc c ∷ s) rest h = ap (map_ok suc) (strlen-append s rest h.1)

digits_value-append :
    (acc : ℕ) (s rest : List ℕ)
    → All IsDigit s
    → digits_value acc (s ++ rest) ≡ digits_value (digits_value acc s) rest
digits_value-append acc [] rest h = refl
digits_value-append acc (c ∷ s) rest h =
    rw (is_digit_lem c h.0) (digits_value-append (acc * 10 + (c - 48)) s rest h.1)
  where
    is_digit_lem : (c : ℕ) → IsDigit c → is_digit c ≡ true
    is_digit_lem c h = ground arith

-- Reading back what `%d` prints, the fuel enough for all digits.
pub digits_value-digits : (fuel n : ℕ) → n < 10 ^ fuel → digits_value 0 (digits fuel n) ≡ n
unfolding digits
digits_value-digits zero n h = omega arith
digits_value-digits (suc fuel) n h = elim (Bool-cases (ltb n 10)) [
  | inl one ↦ rw one (ground arith)
  | inr more ↦
      rw
        (
          more,
          digits_value-append 0 (digits fuel (n / 10)) ((48 + n % 10) ∷ [])
              (digits-IsDigit fuel (n / 10)),
          digits_value-digits fuel (n / 10) (omega arith),
        )
        (ground arith)
]

starts_with_digit :
    (s : List ℕ) (c : ℕ) → IsDigit c → atoi (c ∷ s) ≡ signed false (digits_value 0 (c ∷ s))
unfolding atoi
starts_with_digit s c h = ground arith

number_then :
    (s rest : List ℕ) (c n : ℕ)
    → All IsDigit s
    → 0 < length s
    → is_digit c ≡ false
    → digits_value 0 s ≡ n
    → n < 2 ^ 31
    → atoi (s ++ c ∷ rest) ≡ ok n
number_then [] rest c n h pos stop e fits = absurd (omega arith)
number_then (d ∷ s) rest c n h pos stop e fits =
    let value : digits_value 0 ((d ∷ s) ++ c ∷ rest) ≡ n =
      digits_value-append 0 (d ∷ s) (c ∷ rest) h ∙ rw (e, stop) in
    starts_with_digit (s ++ c ∷ rest) d h.0 ∙ ap (signed false) value ∙ rw (lt→ltb n (2 ^ 31) fits)

length-decimal : (n : ℕ) → 0 < length (decimal n)
unfolding digits
length-decimal n = elim (Bool-cases (ltb n 10)) [
  | inl one ↦ rw one (omega arith)
  | inr more ↦ rw more (omega (arith, length-append (digits 9 (n / 10)) ((48 + n % 10) ∷ [])))
]

-- `atoi` reads back what `%d` printed, whatever follows that is no digit.
pub atoi-decimal :
    (n c : ℕ) (rest : List ℕ)
    → n < 2 ^ 31
    → is_digit c ≡ false
    → atoi (decimal n ++ c ∷ rest) ≡ ok n
atoi-decimal n c rest fits stop =
    number_then (decimal n) rest c n (digits-IsDigit 10 n) (length-decimal n) stop
      (digits_value-digits 10 n (omega arith)) fits

pub length-zeros : (n : ℕ) → length (zeros n) ≡ n
length-zeros zero = refl
length-zeros (suc n) = ap suc (length-zeros n)
