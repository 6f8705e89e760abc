-- ===== src/Prelude/Steps.antt =====
-- How a chain of actions (Prelude/Mutation) that succeeds went.
use mathlib.Core.Path.{◌≡◌, refl}
use mathlib.Core.Logic.{◌≢◌}
use aether_powerdns.Prelude.Mutation.{Result, ok, err, Error, bind_result}

pub err-ne-ok : {A : Type 0} {e : Error} {a : A} → err e ≢ ok a
err-ne-ok h = cc

-- The first action succeeded, and the rest ran on what it left.
pub bind_result-ok :
    {W A B : Type 0} (x : Result A × W) (f : A → W → Result B × W) (b : B)
    → (bind_result x f).0 ≡ ok b
    → (a : A) × (x.0 ≡ ok a) × (bind_result x f ≡ f a x.1)
bind_result-ok (ok a, w) f b h = (a, refl, refl)
bind_result-ok (err e, w) f b h = absurd (err-ne-ok h)

pub ok_inj : {A : Type 0} {a b : A} → ok a ≡ ok b → a ≡ b
ok_inj h = cc
