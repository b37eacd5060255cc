-- ===== src/Base/Faults.antt =====
-- How a run can end other than by returning, and the monad of runs.
use mathlib.Core.Path.{◌≡◌, refl, subst}
use mathlib.Core.Bool.{Bool, true, false}
use net_module.Base.Tests.{if◌then◌else◌}
use mathlib.Core.Logic.{◌⊎◌, inl, inr}

pub data Fault : Type 0 where
  out_of_range : Fault  -- a `std::out_of_range` leaves the function
  bad_function_call : Fault  -- an empty `std::function` is called
  exit_process : Fault  -- `exit(-1)`
  undefined : Fault  -- undefined behaviour: bad index, dead iterator or pointer, division by 0
  waiting : Fault  -- the given answers of the system, or the given fuel, end before the loop does

pub data Result {ℓ} (A : Type ℓ) : Type ℓ where
  err : Fault → Result A
  ok : A → Result A

-- The result under a function; a fault stays.
abbrev pub map_ok {ℓ κ} : {A : Type ℓ} {B : Type κ} → (A → B) → Result A → Result B
map_ok f (err e) = err e
map_ok f (ok a) = ok (f a)

infixl 5 ◌>>=◌
-- `abbrev`, so that it computes on `ok` wherever it stands.
abbrev pub ◌>>=◌ {ℓ κ} : {A : Type ℓ} {B : Type κ} → Result A → (A → Result B) → Result B
err fault >>= next = err fault
ok value >>= next = next value

pub >>=_assoc {ℓ κ μ} :
    {A : Type ℓ} {B : Type κ} {C : Type μ} (m : Result A) (f : A → Result B) (g : B → Result C)
    → (m >>= f >>= g) ≡ (m >>= λ a. f a >>= g)
>>=_assoc (ok a) f g = refl
>>=_assoc (err e) f g = refl

pub >>=_congr {ℓ κ} :
    {A : Type ℓ} {B : Type κ} (m : Result A) (f g : A → Result B)
    → ((a : A) → f a ≡ g a)
    → (m >>= f) ≡ (m >>= g)
>>=_congr (ok a) f g h = h a
>>=_congr (err e) f g h = refl

-- The same where only what the first part returned counts.
pub >>=_congr_ok {ℓ κ} :
    {A : Type ℓ} {B : Type κ} (m : Result A) (f g : A → Result B)
    → ((a : A) → m ≡ ok a → f a ≡ g a)
    → (m >>= f) ≡ (m >>= g)
>>=_congr_ok (ok a) f g h = h a refl
>>=_congr_ok (err e) f g h = refl

pub map_ok->>= {ℓ κ μ} :
    {A : Type ℓ} {B : Type κ} {C : Type μ} (m : Result A) (f : A → Result B) (k : B → C)
    → map_ok k (m >>= f) ≡ (m >>= λ a. map_ok k (f a))
map_ok->>= (ok a) f k = refl
map_ok->>= (err e) f k = refl

-- A change of the state passes through a run whose rest does not see it.
pub >>=-map_ok {ℓ κ} :
    {A : Type ℓ} {B : Type κ} (m : Result A) (f : A → A) (g h : A → Result B) (k : B → B)
    → ((a : A) → g (f a) ≡ map_ok k (h a))
    → (map_ok f m >>= g) ≡ map_ok k (m >>= h)
>>=-map_ok (ok a) f g h k e = e a
>>=-map_ok (err x) f g h k e = refl

-- What a run that returned was made of.
pub >>=-eq-ok {ℓ κ} :
    {A : Type ℓ} {B : Type κ} (run : Result A) (next : A → Result B) {b : B}
    → (run >>= next) ≡ ok b
    → (a : A) × (run ≡ ok a) × (next a ≡ ok b)
>>=-eq-ok (err e) next h = cc
>>=-eq-ok (ok a) next h = (a, refl, h)

pub map_ok-eq-ok {ℓ κ} :
    {A : Type ℓ} {B : Type κ} (f : A → B) (run : Result A) {b : B}
    → map_ok f run ≡ ok b
    → (a : A) × (run ≡ ok a) × (f a ≡ b)
map_ok-eq-ok f (err e) h = cc
map_ok-eq-ok f (ok a) h = (a, refl, cc)

-- A run that returns, with something that holds of its result, or ends the process.
abbrev pub OkOrExit : {A : Type 0} → (A → Type 0) → Result A → Type 0
OkOrExit {A} P run = (run ≡ err exit_process) ⊎ ((a : A) × (run ≡ ok a) × P a)

pub >>=-OkOrExit :
    {A B : Type 0} (P : A → Type 0) (Q : B → Type 0) (run : Result A) (next : A → Result B)
    → OkOrExit P run
    → ((a : A) → P a → OkOrExit Q (next a))
    → OkOrExit Q (run >>= next)
>>=-OkOrExit P Q run next (inl e) h = inl (rw e)
>>=-OkOrExit P Q run next (inr (a, e, p)) h = elim (h a p) [
  | inl f ↦ inl (rw e f)
  | inr (b, f, q) ↦ inr (b, rw e f, q)
]

-- What holds of a result if there is one.
abbrev pub IfOk : {A : Type 0} → (A → Type 0) → Result A → Type 0
IfOk {A} P run = (a : A) → run ≡ ok a → P a

pub >>=-IfOk :
    {A B : Type 0} (Q : B → Type 0) (run : Result A) (next : A → Result B)
    → ((a : A) → run ≡ ok a → IfOk Q (next a))
    → IfOk Q (run >>= next)
>>=-IfOk Q (ok a) next h b e = h a refl b e
>>=-IfOk Q (err f) next h b e = cc

pub ok-IfOk : {A : Type 0} (P : A → Type 0) (a : A) → P a → IfOk P (ok a)
ok-IfOk P a h b e = let same : a ≡ b = cc in subst P same h

pub if-IfOk :
    {A : Type 0} (P : A → Type 0) (b : Bool) (r s : Result A)
    → (b ≡ true → IfOk P r)
    → (b ≡ false → IfOk P s)
    → IfOk P (if b then r else s)
if-IfOk P true r s yes_lem no_lem = yes_lem refl
if-IfOk P false r s yes_lem no_lem = no_lem refl
