-- ===== src/Ber/Ends.antt =====
-- Postconditions on results of the codec: what holds of a value, and that no loop of the model ran
-- out of its bound.
use iec_61850_studio.Base.{◌≡◌, ◌≢◌, refl, Bool, true, false, if◌then◌else◌}
use iec_61850_studio.Base.Result.{ok, err, ◌>>=◌}
use iec_61850_studio.Ber.Error.{BerResult, out_of_fuel}

module _ {A : Type 0} where
  abbrev pub Ends : (A → Type 0) → BerResult A → Type 0
  Ends P (ok a) = P a
  Ends P (err e) = e ≢ out_of_fuel

  pub Ends-ne : (P : A → Type 0) (m : BerResult A) → Ends P m → m ≢ err out_of_fuel
  Ends-ne P (ok a) h = λ e. cc
  Ends-ne P (err x) h = λ e. h (cc)

  pub Ends-ok : (P : A → Type 0) (m : BerResult A) {a : A} → Ends P m → m ≡ ok a → P a
  Ends-ok P m {a} h e = rw e at h

  pub Ends-of :
      (P : A → Type 0) (m : BerResult A)
      → m ≢ err out_of_fuel
      → ((a : A) → m ≡ ok a → P a)
      → Ends P m
  Ends-of P (ok a) h k = k a refl
  Ends-of P (err x) h k = λ e. h (cc)

  pub Ends-if :
      (P : A → Type 0) (b : Bool) (m n : BerResult A)
      → Ends P m
      → Ends P n
      → Ends P (if b then m else n)
  Ends-if P true m n hm hn = hm
  Ends-if P false m n hm hn = hn

  pub Ends-mono : (P Q : A → Type 0) (m : BerResult A) → ((a : A) → P a → Q a) → Ends P m → Ends Q m
  Ends-mono P Q (ok a) k h = k a h
  Ends-mono P Q (err x) k h = h

module _ {A B : Type 0} where
  pub Ends-bind :
      (P : A → Type 0) (Q : B → Type 0) (m : BerResult A) (f : A → BerResult B)
      → Ends P m
      → ((a : A) → P a → Ends Q (f a))
      → Ends Q (m >>= f)
  Ends-bind P Q (ok a) f h k = k a h
  Ends-bind P Q (err x) f h k = h
