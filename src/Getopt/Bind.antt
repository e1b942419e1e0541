-- ===== src/Getopt/Bind.antt =====
-- The laws of the outcomes in sequence.
use monitoringplug.Base.{◌≡◌, refl}
use monitoringplug.Getopt.{Outcome, completed, left, fault, ◌>>=◌}

pub bind_assoc {ℓ κ μ} :
    {A : Type ℓ} {B : Type κ} {C : Type μ} (o : Outcome A) (f : A → Outcome B) (g : B → Outcome C)
    → (o >>= f >>= g) ≡ (o >>= (λ a. f a >>= g))
bind_assoc (completed a) f g = refl
bind_assoc (left e) f g = refl
bind_assoc fault f g = refl

pub bind_completed {ℓ} : {A : Type ℓ} (o : Outcome A) → (o >>= completed) ≡ o
bind_completed (completed a) = refl
bind_completed (left e) = refl
bind_completed fault = refl

-- Two ways to go on that agree everywhere.
pub bind_agree {ℓ κ} :
    {A : Type ℓ} {B : Type κ} (o : Outcome A) (f g : A → Outcome B)
    → ((a : A) → f a ≡ g a)
    → (o >>= f) ≡ (o >>= g)
bind_agree (completed a) f g h = h a
bind_agree (left e) f g h = refl
bind_agree fault f g h = refl
