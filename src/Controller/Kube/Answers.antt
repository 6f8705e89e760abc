-- ===== src/Controller/Kube/Answers.antt =====
-- What the actions of a pass (internal/controller) return where they succeed, and what a pass keeps
-- of a part of the world, where single writes may change it.
use aether_powerdns.Prelude.{
  String, Bool, true, false, ◌≡◌, refl, Result, ok, err, Error, Action, bind_result, ◌>>=◌, ◌>>◌,
  attempt, ok_inj, err-ne-ok, Bool-cases, inl, inr, if◌then◌else◌,
}
use aether_powerdns.Controller.Kube.Apart.{Leaves}
use aether_powerdns.Controller.Kube.Children.{within, with_text}
use aether_powerdns.Controller.World.{World, EventType, write, event}

pub record Gives {S B : Type 0} (Q : B → Type 0) (m : Action S B) : Type 0 where
  pub answer : (c : S) (b : B) → (m c).0 ≡ ok b → Q b

with_text-ok :
    {B : Type 0} (text : String) {b : B} (r : Result B) → with_text text r ≡ ok b → r ≡ ok b
with_text-ok text (ok a) h = h
with_text-ok text (err e) h = absurd (err-ne-ok h)

module _ {S : Type 0} where
  bind_result-answer :
      {B D : Type 0} (Q : D → Type 0) (x : Result B × S) (f : B → Action S D) (d : D)
      → (bind_result x f).0 ≡ ok d
      → ((b : B) → x.0 ≡ ok b → Gives Q (f b))
      → Q d
  bind_result-answer Q (ok b, c) f d h q = (q b refl).answer c d h
  bind_result-answer Q (err e, c) f d h q = absurd (err-ne-ok h)

  pub bind-Gives :
      {B D : Type 0} {P : B → Type 0} {Q : D → Type 0} {m : Action S B} {f : B → Action S D}
      → Gives P m
      → ((b : B) → P b → Gives Q (f b))
      → Gives Q (m >>= f)
  bind-Gives {Q} {m} {f} h q = record {
    answer = λ c d e. bind_result-answer Q (m c) f d e (λ b g. q b (h.answer c b g));
  }

  pub after-Gives :
      {B D : Type 0} {Q : D → Type 0} (m : Action S B) {f : B → Action S D}
      → ((b : B) → Gives Q (f b))
      → Gives Q (m >>= f)
  after-Gives {Q} m {f} q = record {
    answer = λ c d e. bind_result-answer Q (m c) f d e (λ b g. q b);
  }

  pub then-Gives :
      {D : Type 0} {Q : D → Type 0} (m : Action S (Unit {0})) {k : Action S D}
      → Gives Q k
      → Gives Q (m >> k)
  then-Gives {Q} m {k} q = record {
    answer = λ c d e. bind_result-answer Q (m c) (λ _. k) d e (λ b g. q);
  }

  pub fail-Gives : {B : Type 0} {Q : B → Type 0} (e : Error) → Gives {S = S} Q (λ c. (err e, c))
  fail-Gives e = record { answer = λ c b h. absurd (err-ne-ok h) }

  pub if-Gives :
      {B : Type 0} {Q : B → Type 0} (b : Bool) {m k : Action S B}
      → Gives Q m
      → Gives Q k
      → Gives Q (if b then m else k)
  if-Gives true h q = h
  if-Gives false h q = q

  pub return-Gives : {B : Type 0} (Q : B → Type 0) (b : B) → Q b → Gives {S = S} Q (λ c. (ok b, c))
  return-Gives Q b q = record { answer = λ c d h. rw (← ok_inj h) q }

module _ {W V : Type 0} (view : W → V) (P : V → Type 0) where
  -- Where `P` holds of what `view` sees before the action, it does so after it.
  pub record Keeps {B : Type 0} (m : Action W B) : Type 0 where
    pub kept : (w : W) → P (view w) → P (view (m w).1)

module _ {W V : Type 0} {view : W → V} {P : V → Type 0} where
  bind_result-kept :
      {B D : Type 0} (x : Result B × W) (f : B → Action W D)
      → P (view x.1)
      → ((b : B) → x.0 ≡ ok b → Keeps view P (f b))
      → P (view (bind_result x f).1)
  bind_result-kept (ok b, w) f h q = (q b refl).kept w h
  bind_result-kept (err e, w) f h q = h

  pub bind-Keeps :
      {B D : Type 0} {m : Action W B} {f : B → Action W D}
      → Keeps view P m
      → ((b : B) → Keeps view P (f b))
      → Keeps view P (m >>= f)
  bind-Keeps {m} {f} h q = record {
    kept = λ w p. bind_result-kept (m w) f (h.kept w p) (λ b g. q b);
  }

  pub given-Keeps :
      {B D : Type 0} {Q : B → Type 0} {m : Action W B} {f : B → Action W D}
      → Keeps view P m
      → Gives Q m
      → ((b : B) → Q b → Keeps view P (f b))
      → Keeps view P (m >>= f)
  given-Keeps {m} {f} h g q = record {
    kept = λ w p. bind_result-kept (m w) f (h.kept w p) (λ b e. q b (g.answer w b e));
  }

  pub then-Keeps :
      {D : Type 0} {m : Action W (Unit {0})} {k : Action W D}
      → Keeps view P m
      → Keeps view P k
      → Keeps view P (m >> k)
  then-Keeps {m} {k} h q = record {
    kept = λ w p. bind_result-kept (m w) (λ _. k) (h.kept w p) (λ b e. q);
  }

  pub attempt-Keeps : {B : Type 0} {m : Action W B} → Keeps view P m → Keeps view P (attempt m)
  attempt-Keeps h = record { kept = h.kept }

  pub within-Keeps :
      {B : Type 0} (text : String) {m : Action W B} → Keeps view P m → Keeps view P (within text m)
  within-Keeps text h = record { kept = h.kept }

  pub if-Keeps :
      {B : Type 0} (b : Bool) {m k : Action W B}
      → (b ≡ true → Keeps view P m)
      → (b ≡ false → Keeps view P k)
      → Keeps view P (if b then m else k)
  if-Keeps true h q = h refl
  if-Keeps false h q = q refl

  pub still-Keeps : {B : Type 0} (f : W → Result B) → Keeps view P (λ w. (f w, w))
  still-Keeps f = record { kept = λ w p. p }

-- Passes over a world, of which the cluster is looked at.
module _ {S U V : Type 0} {view : S → V} {P : V → Type 0} where
  pub write-Keeps :
      {B : Type 0} {m : Action S B}
      → Leaves view m
      → Keeps {W = World S U} (λ w. view w.cluster) P (write m)
  write-Keeps h = record { kept = λ w p. rw (h.same w.cluster) p }

pub event-Keeps :
    {S U V : Type 0} (view : S → V) {P : V → Type 0} (type : EventType) (reason message : String)
    → Keeps {W = World S U} (λ w. view w.cluster) P (event type reason message)
event-Keeps view type reason message = record {
  kept = λ w p. elim (Bool-cases w.recording) [ inl on ↦ rw on p | inr off ↦ rw off p ];
}

pub write-Gives :
    {S U B : Type 0} {Q : B → Type 0} {m : Action S B}
    → Gives Q m
    → Gives {S = World S U} Q (write m)
write-Gives h = record { answer = λ w b e. h.answer w.cluster b e }

pub within-Gives :
    {W B : Type 0} {Q : B → Type 0} (text : String) {m : Action W B}
    → Gives Q m
    → Gives Q (within text m)
within-Gives text {m} h = record { answer = λ w b e. h.answer w b (with_text-ok text (m w).0 e) }
