-- ===== src/Base/Outcome.antt =====
-- What a call may do: return, access memory outside its object, end the process with a status, or
-- still wait when its fuel is out.
use Prim.Native.Nat.{ℕ}
use mathlib.Core.Path.{◌≡◌, refl, ◌∙◌}

pub data Outcome {ℓ} (A : Type ℓ) : Type ℓ where
  done : A → Outcome A
  fault : Outcome A
  exited : (status : ℕ) → Outcome A
  spinning : Outcome A

infixl 5 ◌>>=◌ ◌>>◌
abbrev pub ◌>>=◌ {ℓ κ} : {A : Type ℓ} {B : Type κ} → Outcome A → (A → Outcome B) → Outcome B
done a >>= f = f a
fault >>= f = fault
exited n >>= f = exited n
spinning >>= f = spinning

abbrev pub ◌>>◌ {ℓ} : {B : Type ℓ} → Outcome (Unit {0}) → Outcome B → Outcome B
m >> k = m >>= λ _. k

pub done_injective {ℓ} : {A : Type ℓ} {a b : A} → done a ≡ done b → a ≡ b
done_injective {a = a} {b = b} e = let ran : done a ≡ done b = e in cc

-- What a sequence of two calls that returns has done.
pub >>=-done {ℓ κ} :
    {A : Type ℓ} {B : Type κ} (m : Outcome A) (f : A → Outcome B) {b : B}
    → (m >>= f) ≡ done b
    → (a : A) × (m ≡ done a) × (f a ≡ done b)
>>=-done (done a) f h = (a, refl, h)
>>=-done fault f h = cc
>>=-done (exited n) f h = cc
>>=-done spinning f h = cc

pub >>=_returns {ℓ κ} :
    {A : Type ℓ} {B : Type κ} (m : Outcome A) (f : A → Outcome B) {a : A} {b : B}
    → m ≡ done a
    → f a ≡ done b
    → (m >>= f) ≡ done b
>>=_returns (done a') f {a} {b} h g =
    let same : done a' ≡ done a = h in let step : f a' ≡ f a = cc in step ∙ g
>>=_returns fault f h g = absurd (cc)
>>=_returns (exited n) f h g = absurd (cc)
>>=_returns spinning f h g = absurd (cc)

pub >>_then {ℓ κ} :
    {B : Type ℓ} {C : Type κ} (m : Outcome (Unit {0})) (k : Outcome B) (f : B → Outcome C)
    → ((m >> k) >>= f) ≡ (m >> (k >>= f))
>>_then (done u) k f = refl
>>_then fault k f = refl
>>_then (exited n) k f = refl
>>_then spinning k f = refl

pub >>=_assoc {ℓ κ ι} :
    {A : Type ℓ} {B : Type κ} {C : Type ι} (m : Outcome A) (f : A → Outcome B) (g : B → Outcome C)
    → (m >>= f >>= g) ≡ (m >>= λ a. f a >>= g)
>>=_assoc (done a) f g = refl
>>=_assoc fault f g = refl
>>=_assoc (exited n) f g = refl
>>=_assoc spinning f g = refl

pub >>=_cong {ℓ κ} :
    {A : Type ℓ} {B : Type κ} (m : Outcome A) {f g : A → Outcome B}
    → ((a : A) → f a ≡ g a)
    → (m >>= f) ≡ (m >>= g)
>>=_cong (done a) same = same a
>>=_cong fault same = refl
>>=_cong (exited n) same = refl
>>=_cong spinning same = refl
