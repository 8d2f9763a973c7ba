-- ===== src/Inbound/Run.antt =====
-- Loops on fuel that may fail: `none` is a loop that ran out of fuel, `err` an error returned.
use mathlib.Core.Path.{subst}
use herdr_remote_channel.Prelude.{◌≡◌, ◌≢◌, refl, Option, none, some}
use herdr_remote_channel.Errors.{ok_same, Result, ok, err, ◌>>=◌}

abbrev pub Run {ℓ κ} : Type ℓ → Type κ → Type (ℓ ⊔ κ)
Run E A = Option (Result E A)

-- What follows a `?`.
abbrev pub and_then {ℓ κ η} :
    {E : Type ℓ} {A : Type κ} {B : Type η} → Run E A → (A → Run E B) → Run E B
and_then none f = none
and_then (some (ok a)) f = f a
and_then (some (err e)) f = some (err e)

abbrev pub return {ℓ κ} : {E : Type ℓ} {A : Type κ} → A → Run E A
return a = some (ok a)

abbrev pub throw {ℓ κ} : {E : Type ℓ} {A : Type κ} → E → Run E A
throw e = some (err e)

module _ {ℓ κ η} {E : Type ℓ} {A : Type κ} {B : Type η} where
  -- A block ends when its first part ends, and its second part does on what the first returns.
  pub bind_ends :
      (m : Run E A) (f : A → Run E B)
      → m ≢ none
      → ((a : A) → m ≡ return a → f a ≢ none)
      → and_then m f ≢ none
  bind_ends none f h k = λ _. h refl
  bind_ends (some (ok a)) f h k = k a refl
  bind_ends (some (err e)) f h k = cc

  -- A block that returns had a first part that returned.
  pub bind_returns :
      (m : Run E A) (f : A → Run E B) (b : B)
      → and_then m f ≡ return b
      → (a : A) × (m ≡ return a) × (f a ≡ return b)
  bind_returns none f b h = cc
  bind_returns (some (ok a)) f b h = (a, refl, h)
  bind_returns (some (err e)) f b h = cc

  -- A step that is no loop ends.
  pub try_ends :
      (r : Result E A) (f : A → Run E B)
      → ((a : A) → r ≡ ok a → f a ≢ none)
      → and_then (some r) f ≢ none
  try_ends (ok a) f k = k a refl
  try_ends (err e) f k = λ p. cc

on_ok_same {ℓ κ} : (E : Type ℓ) {A : Type κ} (b a : A) → return {E = E} b ≡ return a → b ≡ a
on_ok_same E b a e = cc

module _ {ℓ κ η} {E : Type ℓ} {A : Type κ} (P : A → Type η) where
  -- What holds of the value when there is one.
  abbrev pub OnOk : Result E A → Type η
  OnOk (ok a) = P a
  OnOk (err e) = Unit

  abbrev pub OnReturn : Run E A → Type η
  OnReturn none = Unit
  OnReturn (some r) = OnOk r

  pub on_return : (m : Run E A) (a : A) → OnReturn m → m ≡ return a → P a
  on_return none a h e = cc
  on_return (some (ok b)) a h e = subst P (on_ok_same E b a e) h
  on_return (some (err x)) a h e = cc

module _ {ℓ κ η θ ι} {E : Type ℓ} {A : Type κ} {B : Type η} {P : A → Type θ} (Q : B → Type ι) where
  -- The rules for a `?`: what the first part returns is enough for the second.
  pub ok_bind :
      (m : Result E A) (f : A → Result E B)
      → OnOk P m
      → ((a : A) → P a → OnOk Q (f a))
      → OnOk Q (m >>= f)
  ok_bind (ok a) f h k = k a h
  ok_bind (err e) f h k = tt

  pub return_try :
      (m : Result E A) (f : A → Run E B)
      → OnOk P m
      → ((a : A) → P a → OnReturn Q (f a))
      → OnReturn Q (and_then (some m) f)
  return_try (ok a) f h k = k a h
  return_try (err e) f h k = tt

  pub return_bind :
      (m : Run E A) (f : A → Run E B)
      → OnReturn P m
      → ((a : A) → P a → OnReturn Q (f a))
      → OnReturn Q (and_then m f)
  return_bind none f h k = tt
  return_bind (some (ok a)) f h k = k a h
  return_bind (some (err e)) f h k = tt

module _ {ℓ κ η ι} {E : Type ℓ} {A : Type κ} {B : Type η} (Q : B → Type ι) where
  -- The rules for a `?` whose value does not matter.
  pub ok_any : (m : Result E A) (f : A → Result E B) → ((a : A) → OnOk Q (f a)) → OnOk Q (m >>= f)
  ok_any (ok a) f k = k a
  ok_any (err e) f k = tt

  pub return_any :
      (m : Result E A) (f : A → Run E B)
      → ((a : A) → OnReturn Q (f a))
      → OnReturn Q (and_then (some m) f)
  return_any (ok a) f k = k a
  return_any (err e) f k = tt

  pub bind_any :
      (m : Run E A) (f : A → Run E B) → ((a : A) → OnReturn Q (f a)) → OnReturn Q (and_then m f)
  bind_any none f k = tt
  bind_any (some (ok a)) f k = k a
  bind_any (some (err e)) f k = tt

pub weaken {ℓ κ η θ} :
    {E : Type ℓ} {A : Type κ} (P : A → Type η) (Q : A → Type θ) (r : Result E A)
    → ((a : A) → P a → Q a)
    → OnOk P r
    → OnOk Q r
weaken P Q (ok a) f h = f a h
weaken P Q (err e) f h = tt

pub on_ok {ℓ κ η} :
    {E : Type ℓ} {A : Type κ} (P : A → Type η) (r : Result E A) (a : A) → OnOk P r → r ≡ ok a → P a
on_ok P (ok b) a h e = subst P (ok_same (ok b) b a refl e) h
on_ok P (err x) a h e = cc

pub weaken_return {ℓ κ η θ} :
    {E : Type ℓ} {A : Type κ} (P : A → Type η) (Q : A → Type θ) (r : Run E A)
    → ((a : A) → P a → Q a)
    → OnReturn P r
    → OnReturn Q r
weaken_return P Q none f h = tt
weaken_return P Q (some r) f h = weaken P Q r f h
