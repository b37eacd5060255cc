-- ===== src/Base/Lists.antt =====
-- Lists measured and cut by native numbers, under the library's names.
use Prim.Native.Nat.{ℕ, zero, suc, ◌+◌, ◌-◌, ◌≤◌, ◌<◌}
use mathlib.Core.Path.{◌≡◌, refl, ap}
use mathlib.Core.Logic.{◌≢◌}
use mathlib.Core.Bool.{Bool, true, false}
use mathlib.Core.List.{List, [], ◌∷◌, ◌++◌}
use mathlib.Core.Option.{Option, none, some}
use native.Mathlib.Omega.{arith}

-- A predicate at every entry, as nested pairs.
abbrev pub All {ℓ κ} : {A : Type ℓ} → (A → Type κ) → List A → Type κ
All P [] = Unit
All P (a ∷ l) = P a × All P l

module _ {ℓ} {A : Type ℓ} where
  abbrev pub length : List A → ℕ
  length [] = 0
  length (a ∷ l) = suc (length l)

  abbrev pub is_empty : List A → Bool
  is_empty [] = true
  is_empty (a ∷ l) = false

  abbrev pub get_elem? : List A → ℕ → Option A
  get_elem? [] i = none
  get_elem? (a ∷ l) zero = some a
  get_elem? (a ∷ l) (suc i) = get_elem? l i

  abbrev pub take : ℕ → List A → List A
  take zero l = []
  take (suc n) [] = []
  take (suc n) (a ∷ l) = a ∷ take n l

  abbrev pub drop : ℕ → List A → List A
  drop zero l = l
  drop (suc n) [] = []
  drop (suc n) (a ∷ l) = drop n l

  -- The list with another entry in place of one.
  abbrev pub set_at : List A → ℕ → A → List A
  set_at [] i b = []
  set_at (a ∷ l) zero b = b ∷ l
  set_at (a ∷ l) (suc i) b = a ∷ set_at l i b

  pub get_elem?_of_lt : (l : List A) (i : ℕ) → i < length l → (a : A) × (get_elem? l i ≡ some a)
  get_elem?_of_lt [] i h = absurd (omega arith)
  get_elem?_of_lt (a ∷ l) zero h = (a, refl)
  get_elem?_of_lt (a ∷ l) (suc i) h = get_elem?_of_lt l i (omega arith)

  pub get_elem?_of_length-le : (l : List A) (i : ℕ) → length l ≤ i → get_elem? l i ≡ none
  get_elem?_of_length-le [] i h = refl
  get_elem?_of_length-le (a ∷ l) zero h = absurd (omega arith)
  get_elem?_of_length-le (a ∷ l) (suc i) h = get_elem?_of_length-le l i (omega arith)

  pub get_elem?-set_at :
      (l : List A) (i : ℕ) (b : A) → i < length l → get_elem? (set_at l i b) i ≡ some b
  get_elem?-set_at [] i b h = absurd (omega arith)
  get_elem?-set_at (a ∷ l) zero b h = refl
  get_elem?-set_at (a ∷ l) (suc i) b h = get_elem?-set_at l i b (omega arith)

  pub get_elem?-set_at_other :
      (l : List A) (i j : ℕ) (b : A) → i ≢ j → get_elem? (set_at l i b) j ≡ get_elem? l j
  get_elem?-set_at_other [] i j b h = refl
  get_elem?-set_at_other (a ∷ l) zero zero b h = absurd (h refl)
  get_elem?-set_at_other (a ∷ l) zero (suc j) b h = refl
  get_elem?-set_at_other (a ∷ l) (suc i) zero b h = refl
  get_elem?-set_at_other (a ∷ l) (suc i) (suc j) b h =
      get_elem?-set_at_other l i j b (λ e. h (ap suc e))

  pub length-append : (l r : List A) → length (l ++ r) ≡ length l + length r
  length-append [] r = omega arith
  length-append (a ∷ l) r = omega (arith, length-append l r)

  pub take-append-drop : (n : ℕ) (l : List A) → take n l ++ drop n l ≡ l
  take-append-drop zero l = refl
  take-append-drop (suc n) [] = refl
  take-append-drop (suc n) (a ∷ l) = rw (take-append-drop n l)

  pub length-drop : (n : ℕ) (l : List A) → length (drop n l) ≡ length l - n
  length-drop zero l = omega arith
  length-drop (suc n) [] = omega arith
  length-drop (suc n) (a ∷ l) = omega (arith, length-drop n l)

  pub length-take_of_le : (n : ℕ) (l : List A) → n ≤ length l → length (take n l) ≡ n
  length-take_of_le zero l h = refl
  length-take_of_le (suc n) [] h = absurd (omega arith)
  length-take_of_le (suc n) (a ∷ l) h = ap suc (length-take_of_le n l (omega arith))

  -- A cut at the seam of an append, the number known by an equation.
  pub take-append_left : (n : ℕ) (l r : List A) → n ≡ length l → take n (l ++ r) ≡ l
  take-append_left zero [] r h = refl
  take-append_left zero (a ∷ l) r h = absurd (omega arith)
  take-append_left (suc n) [] r h = absurd (omega arith)
  take-append_left (suc n) (a ∷ l) r h = ap (◌∷◌ a) (take-append_left n l r (omega arith))

  pub drop-append_left : (n : ℕ) (l r : List A) → n ≡ length l → drop n (l ++ r) ≡ r
  drop-append_left zero [] r h = refl
  drop-append_left zero (a ∷ l) r h = absurd (omega arith)
  drop-append_left (suc n) [] r h = absurd (omega arith)
  drop-append_left (suc n) (a ∷ l) r h = drop-append_left n l r (omega arith)

  pub take_of_length-le : (n : ℕ) (l : List A) → length l ≤ n → take n l ≡ l
  take_of_length-le zero [] h = refl
  take_of_length-le zero (a ∷ l) h = absurd (omega arith)
  take_of_length-le (suc n) [] h = refl
  take_of_length-le (suc n) (a ∷ l) h = ap (◌∷◌ a) (take_of_length-le n l (omega arith))

  pub drop_of_length-le : (n : ℕ) (l : List A) → length l ≤ n → drop n l ≡ []
  drop_of_length-le zero [] h = refl
  drop_of_length-le zero (a ∷ l) h = absurd (omega arith)
  drop_of_length-le (suc n) [] h = refl
  drop_of_length-le (suc n) (a ∷ l) h = drop_of_length-le n l (omega arith)

pub All-append_left {ℓ κ} : {A : Type ℓ} (P : A → Type κ) (l r : List A) → All P (l ++ r) → All P l
All-append_left P [] r h = tt
All-append_left P (a ∷ l) r h = (h.0, All-append_left P l r h.1)

pub All-append_right {ℓ κ} : {A : Type ℓ} (P : A → Type κ) (l r : List A) → All P (l ++ r) → All P r
All-append_right P [] r h = h
All-append_right P (a ∷ l) r h = All-append_right P l r h.1

pub All-map {ℓ κ μ} :
    {A : Type ℓ} (P : A → Type κ) (Q : A → Type μ) (l : List A)
    → ((a : A) → P a → Q a)
    → All P l
    → All Q l
All-map P Q [] f h = tt
All-map P Q (a ∷ l) f h = (f a h.0, All-map P Q l f h.1)
