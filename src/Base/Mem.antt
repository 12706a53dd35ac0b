-- ===== src/Base/Mem.antt =====
-- A crash of the process, and code that may crash.
use mathlib.Core.Path.{◌≡◌, refl, subst}
use mathlib.Core.Bool.{Bool, true, false}
use dht_cpp.Base.Tests.{if◌then◌else◌}

-- `assertion` is a failed `assert`, `null_pointer` a read through a null pointer.
pub data Crash : Type 0 where
  assertion null_pointer : Crash

pub data Run {ℓ} (A : Type ℓ) : Type ℓ where
  ok : A → Run A
  crash : Crash → Run A

infixl 5 ◌>>=◌
abbrev pub ◌>>=◌ {ℓ κ} : {A : Type ℓ} {B : Type κ} → Run A → (A → Run B) → Run B
crash c >>= second = crash c
ok mid >>= second = second mid

-- A run that gives a value did not crash on its way.
pub >>=-eq-ok {ℓ κ} :
    {A : Type ℓ} {B : Type κ} (first : Run A) (second : A → Run B) {out : B}
    → (first >>= second) ≡ ok out
    → (mid : A) × (first ≡ ok mid) × (second mid ≡ ok out)
>>=-eq-ok (crash c) second gives = cc
>>=-eq-ok (ok mid) second gives = (mid, refl, gives)

pub crash-eq-ok {ℓ} : {A : Type ℓ} {c : Crash} {a : A} → crash c ≡ ok a → ⊥
crash-eq-ok e = cc

-- What holds of the value of a run, if it gives one.
abbrev pub After {ℓ κ} : {A : Type ℓ} → (A → Type κ) → Run A → Type κ
After Q (ok a) = Q a
After Q (crash c) = Unit

pub bind_After {ℓ κ μ ν} :
    {A : Type ℓ} {B : Type κ} (P : A → Type μ) (Q : B → Type ν) (first : Run A) (second : A → Run B)
    → After P first
    → ((a : A) → P a → After Q (second a))
    → After Q (first >>= second)
bind_After P Q (ok a) second p f = f a p
bind_After P Q (crash c) second p f = tt

-- Where nothing is known of the first run.
pub then_After {ℓ κ ν} :
    {A : Type ℓ} {B : Type κ} (Q : B → Type ν) (first : Run A) (second : A → Run B)
    → ((a : A) → After Q (second a))
    → After Q (first >>= second)
then_After Q (ok a) second f = f a
then_After Q (crash c) second f = tt

pub After-ok {ℓ κ} : {A : Type ℓ} (Q : A → Type κ) (m : Run A) {a : A} → After Q m → m ≡ ok a → Q a
After-ok Q m q e = subst (After Q) e q

pub ok_After {ℓ κ} :
    {A : Type ℓ} (Q : A → Type κ) (m : Run A) → ((a : A) → m ≡ ok a → Q a) → After Q m
ok_After Q (ok a) f = f a refl
ok_After Q (crash c) f = tt

pub if_After {ℓ κ} :
    {A : Type ℓ} (Q : A → Type κ) (b : Bool) (x y : Run A)
    → After Q x
    → After Q y
    → After Q (if b then x else y)
if_After Q true x y f g = f
if_After Q false x y f g = g
