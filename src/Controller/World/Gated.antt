-- ===== src/Controller/World/Gated.antt =====
-- Actions of the reconcilers (internal/controller) that change PowerDNS only behind a gate, and
-- the rules by which a chain of checks is one.
use aether_powerdns.Prelude.{
  Bool, true, false, ◌≡◌, refl, ◌⊎◌, inl, inr, Result, ok, err, Action, bind_result, ◌>>=◌, ◌>>◌,
  attempt, if◌then◌else◌,
}
use aether_powerdns.Controller.World.{World, read}
use aether_powerdns.Controller.World.Quiet.{IsQuiet, bind_result-pdns}

module _ {S P : Type 0} where
  -- From the world `w` the action leaves PowerDNS as it is, or else `G` holds.
  abbrev pub Gated : {A : Type 0} → World S P → Type 0 → Action (World S P) A → Type 0
  Gated w G m = ((m w).1.pdns ≡ w.pdns) ⊎ G

module _ {S P : Type 0} (w : World S P) (G : Type 0) where
  pub quiet-Gated : {A : Type 0} (m : Action (World S P) A) → IsQuiet m → Gated w G m
  quiet-Gated m h = inl (h.same w)

  -- A check that ends the pass where it fails.
  pub check-Gated :
      {A : Type 0} (b : Bool) (m k : Action (World S P) A)
      → IsQuiet m
      → (b ≡ false → Gated w G k)
      → Gated w G (if b then m else k)
  check-Gated true m k h g = inl (h.same w)
  check-Gated false m k h g = g refl

  bind_result-Gated :
      {A B : Type 0} (r : Result A) (g : A → Action (World S P) B)
      → ((a : A) → r ≡ ok a → Gated w G (g a))
      → ((bind_result (r, w) g).1.pdns ≡ w.pdns) ⊎ G
  bind_result-Gated (ok a) g h = h a refl
  bind_result-Gated (err e) g h = inl refl

  pub read-Gated :
      {A B : Type 0} (f : S → Result A) (g : A → Action (World S P) B)
      → ((a : A) → f w.cluster ≡ ok a → Gated w G (g a))
      → Gated w G (read f >>= g)
  read-Gated f g h = bind_result-Gated (f w.cluster) g h

  pub look-Gated :
      {A B : Type 0} (f : S → Result A) (g : Result A → Action (World S P) B)
      → ((r : Result A) → f w.cluster ≡ r → Gated w G (g r))
      → Gated w G (attempt (read f) >>= g)
  look-Gated f g h = h (f w.cluster) refl

  bind_result-quiet_after :
      {A B : Type 0} (x : Result A × World S P) (k : A → Action (World S P) B)
      → ((a : A) → IsQuiet (k a))
      → (x.1.pdns ≡ w.pdns) ⊎ G
      → ((bind_result x k).1.pdns ≡ w.pdns) ⊎ G
  bind_result-quiet_after x k q (inl h) = inl (bind_result-pdns x k w.pdns h q)
  bind_result-quiet_after x k q (inr g) = inr g

  -- What follows a gated action leaves PowerDNS alone.
  pub before-Gated :
      {A : Type 0} (m : Action (World S P) (Unit {0})) (k : Action (World S P) A)
      → IsQuiet k
      → Gated w G m
      → Gated w G (m >> k)
  before-Gated m k q g = bind_result-quiet_after (m w) (λ _. k) (λ _. q) g

  pub split-Gated :
      {A : Type 0} (b : Bool) (m k : Action (World S P) A)
      → (b ≡ true → Gated w G m)
      → (b ≡ false → Gated w G k)
      → Gated w G (if b then m else k)
  split-Gated true m k h g = h refl
  split-Gated false m k h g = g refl
