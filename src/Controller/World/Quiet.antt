-- ===== src/Controller/World/Quiet.antt =====
-- Actions of the reconcilers (internal/controller) that leave PowerDNS alone, and the rules by
-- which a block of such actions is one.
use aether_powerdns.Prelude.{
  String, Bool, true, false, ◌≡◌, refl, ◌∙◌, Result, ok, err, Error, Action, bind_result, ◌>>=◌,
  ◌>>◌, return, fail, attempt, arith, if◌then◌else◌,
}
use aether_powerdns.Controller.World.{World, EventType, read, write, event}

-- The state of PowerDNS after the action is the one before it.
pub record IsQuiet {S P A : Type 0} (m : Action (World S P) A) : Type 0 where
  pub same : (w : World S P) → (m w).1.pdns ≡ w.pdns

module _ {S P : Type 0} where
  pub bind_result-pdns :
      {A B : Type 0} (x : Result A × World S P) (f : A → Action (World S P) B) (p : P)
      → x.1.pdns ≡ p
      → ((a : A) → IsQuiet (f a))
      → (bind_result x f).1.pdns ≡ p
  bind_result-pdns (ok a, w) f p h q = (q a).same w ∙ h
  bind_result-pdns (err e, w) f p h q = h

  pub bind-IsQuiet :
      {A B : Type 0} {m : Action (World S P) A} {f : A → Action (World S P) B}
      → IsQuiet m
      → ((a : A) → IsQuiet (f a))
      → IsQuiet (m >>= f)
  bind-IsQuiet {m} {f} h q = record { same = λ w. bind_result-pdns (m w) f w.pdns (h.same w) q }

  pub then-IsQuiet :
      {B : Type 0} {m : Action (World S P) (Unit {0})} {k : Action (World S P) B}
      → IsQuiet m
      → IsQuiet k
      → IsQuiet (m >> k)
  then-IsQuiet {m} {k} h q = record {
    same = λ w. bind_result-pdns (m w) (λ _. k) w.pdns (h.same w) (λ _. q);
  }

  pub return-IsQuiet : {A : Type 0} (a : A) → IsQuiet {S = S} {P = P} (return a)
  return-IsQuiet a = record { same = λ w. refl }

  pub fail-IsQuiet : {A : Type 0} (e : Error) → IsQuiet {S = S} {P = P} {A = A} (fail e)
  fail-IsQuiet e = record { same = λ w. refl }

  pub read-IsQuiet : {A : Type 0} (f : S → Result A) → IsQuiet {S = S} {P = P} (read f)
  read-IsQuiet f = record { same = λ w. refl }

  pub write-IsQuiet : {A : Type 0} (f : S → Result A × S) → IsQuiet {S = S} {P = P} (write f)
  write-IsQuiet f = record { same = λ w. refl }

  pub attempt-IsQuiet : {A : Type 0} {m : Action (World S P) A} → IsQuiet m → IsQuiet (attempt m)
  attempt-IsQuiet h = record { same = h.same }

  pub event-IsQuiet :
      (type : EventType) (reason message : String)
      → IsQuiet {S = S} {P = P} (event type reason message)
  event-IsQuiet type reason message = record { same = λ w. ground arith }

  pub if-IsQuiet :
      {A : Type 0} (b : Bool) {m k : Action (World S P) A}
      → IsQuiet m
      → IsQuiet k
      → IsQuiet (if b then m else k)
  if-IsQuiet true h q = h
  if-IsQuiet false h q = q
