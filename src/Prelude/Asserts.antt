-- ===== src/Prelude/Asserts.antt =====
-- What the unit tests of the crates are written with: `unwrap`, `is_ok`, `unwrap_err` and ranges. An
-- `assert_eq!` is an equation, and a test is the product of its assertions.
use Prim.Native.Nat.{ℕ, zero, suc, ◌/◌, ◌%◌}
use mathlib.Core.Path.{◌≡◌, sym, subst}
use mathlib.Core.Bool.{Bool, true, false}
use mathlib.Core.Option.{Option, none, some}
use mathlib.Core.List.{List, [], ◌∷◌, map}
use preconfs_client.Prelude.Lists.{All}
use preconfs_client.Prelude.Outcome.{Result, ok, err}

module _ {ℓ κ} {E : Type ℓ} {A : Type κ} where
  -- Result::is_ok and Result::is_err
  abbrev pub is_ok : Result E A → Bool
  is_ok (ok a) = true
  is_ok (err e) = false

  abbrev pub is_err : Result E A → Bool
  is_err (ok a) = false
  is_err (err e) = true

-- What is asserted of `r.unwrap()`; the test fails where the call panics.
abbrev pub Unwrapped : {E A : Type 0} → Result E A → (A → Type 0) → Type 0
Unwrapped (ok a) P = P a
Unwrapped (err e) P = ⊥

-- What is asserted of `r.unwrap_err()`.
abbrev pub UnwrappedErr : {E A : Type 0} → Result E A → (E → Type 0) → Type 0
UnwrappedErr (ok a) P = ⊥
UnwrappedErr (err e) P = P e

-- What is asserted of the item that an index must find, or of the value in a `Some` pattern.
abbrev pub Found : {A : Type 0} → Option A → (A → Type 0) → Type 0
Found none P = ⊥
Found (some a) P = P a

-- `start..start + count`
abbrev pub range : ℕ → ℕ → List ℕ
range start zero = []
range start (suc count) = start ∷ range (suc start) count

-- Iterator::fold
abbrev pub fold {ℓ κ} : {A : Type ℓ} {B : Type κ} → List A → B → (B → A → B) → B
fold [] acc f = acc
fold (x ∷ xs) acc f = fold xs (f acc x) f

-- The first `count` bytes of usize::to_le_bytes.
abbrev pub to_le_bytes : (count n : ℕ) → List ℕ
to_le_bytes zero n = []
to_le_bytes (suc count) n = n % 256 ∷ to_le_bytes count (n / 256)

-- Two functions that give one list of values agree on every item.
pub map-eq-All {ℓ κ} :
    {A : Type ℓ} {B : Type κ} (f g : A → B) (xs : List A)
    → map f xs ≡ map g xs
    → All (λ x. f x ≡ g x) xs
map-eq-All f g [] h = tt
map-eq-All f g (x ∷ xs) h = (cc, map-eq-All f g xs cc)

pub Unwrapped-ok :
    {E A : Type 0} {r : Result E A} {a : A} (P : A → Type 0) → r ≡ ok a → P a → Unwrapped r P
Unwrapped-ok P h p = subst (λ x. Unwrapped x P) (sym h) p

pub Found-some : {A : Type 0} {o : Option A} {a : A} (P : A → Type 0) → o ≡ some a → P a → Found o P
Found-some P h p = subst (λ x. Found x P) (sym h) p

-- A result that is this error, as a test asserts it.
pub UnwrappedErr-err :
    {E A : Type 0} (r : Result E A) (e : E) → r ≡ err e → UnwrappedErr r (λ x. x ≡ e)
UnwrappedErr-err (ok a) e h = cc
UnwrappedErr-err (err x) e h = cc

-- The loop of a test over cases and the errors they must give.
pub errors_agree :
    {E A B : Type 0} (f : B → Result E A) (cases : List (B × E))
    → map (λ c. f c.0) cases ≡ map (λ c. err c.1) cases
    → All (λ c. UnwrappedErr (f c.0) (λ x. x ≡ c.1)) cases
errors_agree f [] h = tt
errors_agree f ((b, e) ∷ cases) h = (UnwrappedErr-err (f b) e cc, errors_agree f cases cc)
