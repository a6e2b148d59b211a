-- ===== src/Prelude/Inversion.antt =====
-- What a chain of fallible steps that succeeded went through.
use mlx5_netperf.Prelude.Outcome.{Outcome, ok, err, fault, ◌>>=◌}
use mlx5_netperf.Prelude.{◌≡◌, refl}

pub bind-ok {ℓ κ} :
    {A : Type ℓ} {B : Type κ} (o : Outcome A) (f : A → Outcome B) {b : B}
    → (o >>= f) ≡ ok b
    → (a : A) × (o ≡ ok a) × (f a ≡ ok b)
bind-ok (ok a) f h = (a, refl, h)
bind-ok (err e) f h = absurd (cc h)
bind-ok fault f h = absurd (cc h)
