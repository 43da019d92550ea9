-- ===== src/Base/Results.antt =====
-- What a call gives: a value, a typed refusal, or a panic; and the checked machine arithmetic.
use Prim.Native.Nat.{ℕ, ◌+◌, ◌-◌, ◌*◌, ◌^◌}
use mathlib.Core.Path.{◌≡◌, refl}
use mathlib.Core.Logic.{◌⊎◌, inl, inr}
use mathlib.Core.Bool.{Bool, true, false}
use mathlib.Core.Option.{Option, none, some}
use native.Mathlib.Omega.{arith}
use sats_usd.Base.Tests.{ltb, if◌then◌else◌}

-- A Rust `Result<A, E>` of code that may also panic.
pub data Result {ℓ κ} (E : Type κ) (A : Type ℓ) : Type (ℓ ⊔ κ) where
  ok : A → Result E A
  err : E → Result E A
  panic : Result E A

-- A Rust value of code that may panic.
pub data Eval {ℓ} (A : Type ℓ) : Type ℓ where
  value : A → Eval A
  panicked : Eval A

pub Eval-cases {ℓ} : {A : Type ℓ} (e : Eval A) → (e ≡ panicked) ⊎ ((a : A) × (e ≡ value a))
Eval-cases panicked = inl refl
Eval-cases (value a) = inr (a, refl)

infixl 5 ◌>>=◌ ◌>>◌
abbrev pub ◌>>=◌ {ℓ κ μ} :
    {E : Type μ} {A : Type ℓ} {B : Type κ} → Result E A → (A → Result E B) → Result E B
ok a >>= f = f a
err e >>= f = err e
panic >>= f = panic

-- A chain that gives a value has one at its first step.
module _ {ℓ κ μ} {E : Type μ} {A : Type ℓ} {B : Type κ} where
  pub data Came (m : Result E A) (f : A → Result E B) (b : B) : Type (ℓ ⊔ κ ⊔ μ) where
    came : (a : A) → m ≡ ok a → f a ≡ ok b → Came m f b

  pub bind_ok : (m : Result E A) (f : A → Result E B) {b : B} → (m >>= f) ≡ ok b → Came m f b
  bind_ok (ok a) f e = came a refl e
  bind_ok (err x) f e = absurd (cc)
  bind_ok panic f e = absurd (cc)

  -- Two chains with one first step agree where they agree on its value.
  pub bind_ext :
      (m : Result E A) (f g : A → Result E B)
      → ((a : A) → m ≡ ok a → f a ≡ g a)
      → (m >>= f) ≡ (m >>= g)
  bind_ext (ok a) f g h = h a refl
  bind_ext (err x) f g h = refl
  bind_ext panic f g h = refl

abbrev pub ◌>>◌ {ℓ μ} : {E : Type μ} {B : Type ℓ} → Result E (Unit {0}) → Result E B → Result E B
m >> k = m >>= λ _. k

-- `ensure!(cond, e)`.
abbrev pub ensure {μ} : {E : Type μ} → Bool → E → Result E (Unit {0})
ensure true e = ok tt
ensure false e = err e

-- `o.ok_or(e)?`.
abbrev pub ok_or {ℓ μ} : {E : Type μ} {A : Type ℓ} → Option A → E → Result E A
ok_or (some a) e = ok a
ok_or none e = err e

-- `map_err(|_| e)` and `map_err(wrap)`.
abbrev pub map_err {ℓ κ μ} :
    {E : Type κ} {F : Type μ} {A : Type ℓ} → (E → F) → Result E A → Result F A
map_err wrap (ok a) = ok a
map_err wrap (err e) = err (wrap e)
map_err wrap panic = panic

-- A call that may panic, inside code that returns a `Result`.
abbrev pub run {ℓ μ} : {E : Type μ} {A : Type ℓ} → Eval A → Result E A
run (value a) = ok a
run panicked = panic

module _ {ℓ κ μ} {E : Type κ} {F : Type μ} {A : Type ℓ} where
  pub map_err_ok : (wrap : E → F) (m : Result E A) {a : A} → map_err wrap m ≡ ok a → m ≡ ok a
  map_err_ok wrap (ok b) e = ground arith
  map_err_ok wrap (err x) e = absurd (cc)
  map_err_ok wrap panic e = absurd (cc)

module _ {ℓ μ} {E : Type μ} {A : Type ℓ} where
  pub ok_or-some : (o : Option A) (x : E) {a : A} → ok_or o x ≡ ok a → o ≡ some a
  ok_or-some (some b) x e = ground arith
  ok_or-some none x e = absurd (cc)

  pub run_value : (v : Eval A) {a : A} → run {E = E} v ≡ ok a → v ≡ value a
  run_value (value b) e = ground arith
  run_value panicked e = absurd (cc)

pub ensure-true {μ} : {E : Type μ} (b : Bool) (x : E) {u : Unit {0}} → ensure b x ≡ ok u → b ≡ true
ensure-true true x e = refl
ensure-true false x e = absurd (cc)

abbrev pub u64_mod : ℕ
u64_mod = 2 ^ 64

abbrev pub u128_mod : ℕ
u128_mod = 2 ^ 128

-- `checked_add`, `checked_sub` and `checked_mul` of `u64`.
abbrev pub checked_add : ℕ → ℕ → Option ℕ
checked_add a b = if ltb (a + b) u64_mod then some (a + b) else none

abbrev pub checked_sub : ℕ → ℕ → Option ℕ
checked_sub a b = if ltb a b then none else some (a - b)

abbrev pub checked_mul : ℕ → ℕ → Option ℕ
checked_mul a b = if ltb (a * b) u64_mod then some (a * b) else none
