-- ===== src/Controller/Services/Ports.antt =====
-- The node ports that `updateService` of internal/controller/converge.go carries over.
use aether_powerdns.Prelude.{
  Option-cases, Bool, ◌⊎◌, true, false, List, [], ◌∷◌, some, nat_eq, nat_eq_iff, eq_refl, find?,
  find?-hit, find?-miss, map, ◌≡◌, refl, sym, ap, ◌∙◌, All, arith, Bool-cases, inl, inr,
}
use aether_powerdns.Controller.Services.{
  ServicePort, service_ports_match, carry_from, carry_node_port,
}

-- No port of the list matches an earlier one.
abbrev pub AreApart : List ServicePort → Type 0
AreApart [] = Unit
AreApart (p ∷ ps) = All (λ q. service_ports_match p q ≡ false) ps × AreApart ps

match_self : (p : ServicePort) → service_ports_match p p ≡ true
unfolding service_ports_match
match_self p = ground (arith, eq_refl p.name, eq_refl p.protocol, nat_eq_iff p.port p.port)

carry_unset :
    (existing : List ServicePort) (p : ServicePort)
    → nat_eq p.node_port 0 ≡ true
    → carry_node_port existing p ≡ carry_from (find? (λ ep. service_ports_match ep p) existing) p
unfolding carry_node_port
carry_unset existing p h = rw h refl

carry_set :
    (existing : List ServicePort) (p : ServicePort)
    → nat_eq p.node_port 0 ≡ false
    → carry_node_port existing p ≡ p
unfolding carry_node_port
carry_set existing p h = rw h refl

-- What a cluster may make of a port that is stored: the same, with a node port where the type of
-- the Service has node ports and none was asked for.
abbrev pub CompletedPort : Bool → ServicePort → ServicePort → Type 0
CompletedPort typed p q =
    (q ≡ record p { node_port = q.node_port })
    × ((q.node_port ≡ p.node_port) ⊎ ((typed ≡ true) × (p.node_port ≡ 0)))

abbrev pub CompletedPorts : Bool → List ServicePort → List ServicePort → Type 0
CompletedPorts typed [] [] = Unit
CompletedPorts typed [] (q ∷ qs) = ⊥
CompletedPorts typed (p ∷ ps) [] = ⊥
CompletedPorts typed (p ∷ ps) (q ∷ qs) = CompletedPort typed p q × CompletedPorts typed ps qs

-- Each port finds the one at its place among the ports `es`.
abbrev Found : List ServicePort → List ServicePort → List ServicePort → Type 0
Found es [] [] = Unit
Found es [] (q ∷ qs) = ⊥
Found es (p ∷ ps) [] = ⊥
Found es (p ∷ ps) (q ∷ qs) = (find? (λ e. service_ports_match e p) es ≡ some q) × Found es ps qs

match_completed :
    (p q r : ServicePort)
    → q ≡ record p { node_port = q.node_port }
    → service_ports_match q r ≡ service_ports_match p r
unfolding service_ports_match
match_completed p q r e = ap (λ x. service_ports_match x r) e

later-Found :
    (e : ServicePort) (es ps qs : List ServicePort)
    → All (λ p. service_ports_match e p ≡ false) ps
    → Found es ps qs
    → Found (e ∷ es) ps qs
later-Found e es [] [] apart h = tt
later-Found e es [] (q ∷ qs) apart h = absurd h
later-Found e es (p ∷ ps) [] apart h = absurd h
later-Found e es (p ∷ ps) (q ∷ qs) (here, apart) (first, rest) =
    (find?-miss (λ x. service_ports_match x p) e es here ∙ first, later-Found e es ps qs apart rest)

apart_from_completed :
    (p q : ServicePort) (ps : List ServicePort)
    → q ≡ record p { node_port = q.node_port }
    → All (λ r. service_ports_match p r ≡ false) ps
    → All (λ r. service_ports_match q r ≡ false) ps
apart_from_completed p q [] e h = tt
apart_from_completed p q (r ∷ ps) e (here, h) =
    (match_completed p q r e ∙ here, apart_from_completed p q ps e h)

completed-Found :
    (typed : Bool) (ps qs : List ServicePort)
    → AreApart ps
    → CompletedPorts typed ps qs
    → Found qs ps qs
completed-Found typed [] [] apart h = tt
completed-Found typed [] (q ∷ qs) apart h = absurd h
completed-Found typed (p ∷ ps) [] apart h = absurd h
completed-Found typed (p ∷ ps) (q ∷ qs) (first, apart) ((same, _), h) = (
  find?-hit (λ e. service_ports_match e p) q qs (match_completed p q p same ∙ match_self p),
  later-Found q qs ps qs (apart_from_completed p q ps same first)
      (completed-Found typed ps qs apart h),
)

kept_port : (p q : ServicePort) → CompletedPort true p q → nat_eq p.node_port 0 ≡ false → p ≡ q
kept_port p q (same, inl e) given = sym (same ∙ ap (λ n. record p { node_port = n }) e)
kept_port p q (same, inr (_, unset)) given = absurd (ground (arith, nat_eq_iff p.node_port 0))

carry-Found :
    (es ps qs : List ServicePort)
    → Found es ps qs
    → CompletedPorts true ps qs
    → map (carry_node_port es) ps ≡ qs
unfolding carry_from
carry-Found es [] [] found h = refl
carry-Found es [] (q ∷ qs) found h = absurd h
carry-Found es (p ∷ ps) [] found h = absurd h
carry-Found es (p ∷ ps) (q ∷ qs) (first, found) (port, h) =
    let head : carry_node_port es p ≡ q = elim (Bool-cases (nat_eq p.node_port 0)) [
      | inl unset ↦ carry_unset es p unset ∙ (ap (λ o. carry_from o p) first ∙ sym port.0)
      | inr given ↦ carry_set es p given ∙ kept_port p q port given
    ] in
    rw (head, carry-Found es ps qs found h) refl

-- Carrying the node ports over from the completed ports yields these.
pub carry_completed :
    (ps qs : List ServicePort)
    → AreApart ps
    → CompletedPorts true ps qs
    → map (carry_node_port qs) ps ≡ qs
carry_completed ps qs apart h = carry-Found qs ps qs (completed-Found true ps qs apart h) h

-- Ports without node ports are stored as they are.
pub plain_completed : (ps qs : List ServicePort) → CompletedPorts false ps qs → ps ≡ qs
plain_completed [] [] h = refl
plain_completed [] (q ∷ qs) h = absurd h
plain_completed (p ∷ ps) [] h = absurd h
plain_completed (p ∷ ps) (q ∷ qs) ((same, inl e), h) =
    rw (plain_completed ps qs h)
      (ap (λ x. x ∷ qs) (sym (same ∙ ap (λ n. record p { node_port = n }) e)))
plain_completed (p ∷ ps) (q ∷ qs) ((same, inr (clash, _)), h) = absurd cc

carried-CompletedPort :
    (es : List ServicePort) (p q : ServicePort)
    → CompletedPort true (carry_node_port es p) q
    → CompletedPort true p q
unfolding carry_node_port carry_from
carried-CompletedPort es p q h = elim (Bool-cases (nat_eq p.node_port 0)) [
  | inl unset ↦
      let zero = (nat_eq_iff p.node_port 0).0 unset in
      elim (Option-cases (find? (λ e. service_ports_match e p) es)) [
        | inl nothing ↦ (rw (unset, nothing) at h.0, inr (refl, zero))
        | inr (ep, some_port) ↦ (rw (unset, some_port) at h.0, inr (refl, zero))
      ]
  | inr given ↦ rw given at h
]

-- What completes the carried ports completes the desired ones.
pub carried-CompletedPorts :
    (es ps qs : List ServicePort)
    → CompletedPorts true (map (carry_node_port es) ps) qs
    → CompletedPorts true ps qs
carried-CompletedPorts es [] [] h = tt
carried-CompletedPorts es [] (q ∷ qs) h = absurd h
carried-CompletedPorts es (p ∷ ps) [] h = absurd h
carried-CompletedPorts es (p ∷ ps) (q ∷ qs) (port, h) =
    (carried-CompletedPort es p q port, carried-CompletedPorts es ps qs h)
