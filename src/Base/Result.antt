-- ===== src/Base/Result.antt =====
-- Rust's `Result<A, E>` and the `?` operator as a bind.
use mathlib.Core.Path.{◌≡◌, refl}

pub data Result {ℓ} (E : Type 0) (A : Type ℓ) : Type ℓ where
  ok : A → Result E A
  err : E → Result E A

infixl 5 ◌>>=◌ ◌>>◌
abbrev pub ◌>>=◌ {ℓ κ} :
    {E : Type 0} {A : Type ℓ} {B : Type κ} → Result E A → (A → Result E B) → Result E B
ok a >>= f = f a
err e >>= f = err e

abbrev pub ◌>>◌ {ℓ} : {E : Type 0} {B : Type ℓ} → Result E (Unit {0}) → Result E B → Result E B
m >> k = m >>= λ _. k

-- `map_err(From::from)`: what `?` does to an error of another crate.
abbrev pub map_err {ℓ} : {E F : Type 0} {A : Type ℓ} → (E → F) → Result E A → Result F A
map_err f (ok a) = ok a
map_err f (err e) = err (f e)

module _ {ℓ κ} {E : Type 0} {A : Type ℓ} {B : Type κ} where
  -- Where a chain succeeds, its first step did.
  pub >>=-eq-ok :
      (m : Result E A) (f : A → Result E B) {b : B}
      → m >>= f ≡ ok b
      → (value : A) × (m ≡ ok value) × (f value ≡ ok b)
  >>=-eq-ok (err _) f e = cc
  >>=-eq-ok (ok value) f e = (value, refl, e)

-- A step that succeeds under another name for its errors succeeded.
pub map_err-eq-ok {ℓ} :
    {E F : Type 0} {A : Type ℓ} (f : E → F) (m : Result E A) {a : A} → map_err f m ≡ ok a → m ≡ ok a
map_err-eq-ok f (ok a) e = cc
map_err-eq-ok f (err x) e = cc
