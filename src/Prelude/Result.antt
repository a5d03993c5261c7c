-- ===== src/Prelude/Result.antt =====
-- Rust's `Result`, with the error first, and its `?`.
use mathlib.Core.Path.{◌≡◌, refl}
use mathlib.Core.Logic.{◌↔◌}
use mathlib.Core.Bool.{Bool, true, false}
use mathlib.Core.Option.{Option, none, some}
use mathlib.Core.List.{List, [], ◌∷◌}

pub data Result {ℓ κ} (E : Type ℓ) (A : Type κ) : Type (ℓ ⊔ κ) where
  ok : A → Result E A
  err : E → Result E A

infixl 5 ◌>>=◌ ◌>>◌
abbrev pub ◌>>=◌ {ℓ κ μ} :
    {E : Type ℓ} {A : Type κ} {B : Type μ} → Result E A → (A → Result E B) → Result E B
ok a >>= f = f a
err e >>= f = err e

abbrev pub ◌>>◌ {ℓ μ} : {E : Type ℓ} {B : Type μ} → Result E (Unit {0}) → Result E B → Result E B
ok _ >> k = k
err e >> k = err e

-- `option.ok_or(error)?`
abbrev pub ok_or {ℓ κ} : {E : Type ℓ} {A : Type κ} → Option A → E → Result E A
ok_or none e = err e
ok_or (some a) e = ok a

-- `if test { return Err(error) }`
abbrev pub fail_if {ℓ} : {E : Type ℓ} → Bool → E → Result E (Unit {0})
fail_if true e = err e
fail_if false e = ok tt

-- `for item in items { check(item)? }`
abbrev pub for_each {ℓ κ} :
    {E : Type ℓ} {A : Type κ} → (A → Result E (Unit {0})) → List A → Result E (Unit {0})
for_each check [] = ok tt
for_each check (x ∷ xs) = check x >> for_each check xs

abbrev pub map_err {ℓ κ μ} :
    {E : Type ℓ} {F : Type κ} {A : Type μ} → (E → F) → Result E A → Result F A
map_err f (ok a) = ok a
map_err f (err e) = err (f e)

abbrev pub is_ok {ℓ κ} : {E : Type ℓ} {A : Type κ} → Result E A → Bool
is_ok (ok a) = true
is_ok (err e) = false

-- A sequence succeeds exactly when both parts do.
pub >>_iff {ℓ} :
    {E : Type ℓ} (m k : Result E (Unit {0})) → ((m >> k) ≡ ok tt) ↔ ((m ≡ ok tt) × (k ≡ ok tt))
>>_iff (ok _) k = (λ h. (refl, h), λ h. h.1)
>>_iff (err e) k = (λ h. (h, cc), λ h. h.0)

pub Result-cases {ℓ κ} :
    {E : Type ℓ} {A : Type κ} (r : Result E A)
    → mathlib.Core.Logic.◌⊎◌ ((a : A) × (r ≡ ok a)) ((e : E) × (r ≡ err e))
Result-cases (ok a) = mathlib.Core.Logic.inl (a, refl)
Result-cases (err e) = mathlib.Core.Logic.inr (e, refl)

module _ {ℓ κ} {E : Type ℓ} {A : Type κ} where
  pub ok-injective : {a b : A} → ◌≡◌ {A = Result E A} (ok a) (ok b) → a ≡ b
  ok-injective e = cc

  pub err-injective : {a b : E} → ◌≡◌ {A = Result E A} (err a) (err b) → a ≡ b
  err-injective e = cc

module _ {E A : Type 0} where
  pub >>=_ok_iff :
      {B : Type 0} (m : Result E A) (f : A → Result E B) (z : B)
      → ((m >>= f) ≡ ok z) ↔ ((a : A) × (m ≡ ok a) × (f a ≡ ok z))
  >>=_ok_iff (ok a) f z = (λ h. (a, refl, h), λ (b, e, h). go b (ok-injective e) h)
    where
      go : (b : A) → a ≡ b → f b ≡ ok z → f a ≡ ok z
      go b e h = cc
  >>=_ok_iff (err x) f z = (λ h. cc, λ (b, e, h). cc)

  pub >>_ok_iff :
      (m : Result E (Unit {0})) (k : Result E A) (z : A)
      → ((m >> k) ≡ ok z) ↔ ((m ≡ ok tt) × (k ≡ ok z))
  >>_ok_iff (ok _) k z = (λ h. (refl, h), λ h. h.1)
  >>_ok_iff (err x) k z = (λ h. cc, λ (e, h). cc)

  pub ok_or_iff : (o : Option A) (e : E) (a : A) → (ok_or o e ≡ ok a) ↔ (o ≡ some a)
  ok_or_iff none e a = (λ h. cc, λ h. cc)
  ok_or_iff (some b) e a = (λ h. cc (ok-injective h), λ h. cc)

  pub map_err_iff :
      {F : Type 0} (f : E → F) (r : Result E A) (a : A) → (map_err f r ≡ ok a) ↔ (r ≡ ok a)
  map_err_iff f (ok b) a = (λ h. cc (ok-injective h), λ h. cc (ok-injective h))
  map_err_iff f (err x) a = (λ h. cc, λ h. cc)

pub fail_if_iff {ℓ} : {E : Type ℓ} (b : Bool) (e : E) → (fail_if b e ≡ ok tt) ↔ (b ≡ false)
fail_if_iff true e = (λ h. cc, λ h. cc)
fail_if_iff false e = (λ _. refl, λ _. refl)

-- Every error of a result has the property `P`; a sequence whose parts are so is so.
pub record Errs {E A : Type 0} (P : E → Type 0) (r : Result E A) : Type 0 where
  pub each : (e : E) → r ≡ err e → P e

module _ {E : Type 0} (P : E → Type 0) where
  pub Errs-ok : {A : Type 0} (a : A) → Errs {A = A} P (ok a)
  Errs-ok a = record { each = λ e h. cc }

  pub Errs->>= :
      {A B : Type 0} (m : Result E A) (f : A → Result E B)
      → Errs P m
      → ((a : A) → Errs P (f a))
      → Errs P (m >>= f)
  Errs->>= (ok a) f h k = k a
  Errs->>= {A} {B} (err x) f h k = record { each = λ e g. h.each e (cc (err-injective g)) }

  pub Errs->> :
      {B : Type 0} (m : Result E (Unit {0})) (k : Result E B)
      → Errs P m
      → Errs P k
      → Errs P (m >> k)
  Errs->> (ok _) k h l = l
  Errs->> (err x) k h l = record { each = λ e g. h.each e (cc (err-injective g)) }

  pub Errs-fail_if : (b : Bool) (e : E) → P e → Errs P (fail_if b e)
  Errs-fail_if true e h = record { each = λ x g. mathlib.Core.Path.subst P (err-injective g) h }
  Errs-fail_if false e h = record { each = λ x g. cc }

  pub Errs-map_err :
      {F A : Type 0} (f : F → E) (r : Result F A) → ((e : F) → P (f e)) → Errs P (map_err f r)
  Errs-map_err f (ok a) h = record { each = λ x g. cc }
  Errs-map_err f (err e) h = record {
    each = λ x g. mathlib.Core.Path.subst P (err-injective g) (h e);
  }

  pub Errs-err : {A : Type 0} (e : E) → P e → Errs {A = A} P (err e)
  Errs-err e h = record { each = λ x g. mathlib.Core.Path.subst P (err-injective g) h }

  pub Errs-ok_or : {A : Type 0} (o : Option A) (e : E) → P e → Errs P (ok_or o e)
  Errs-ok_or none e h = Errs-err e h
  Errs-ok_or (some a) e h = Errs-ok a
