-- ===== src/Controller/Access/Laws.antt =====
-- The gate of internal/controller/pdnsaccess.go, and the agreement of its keys.
use mathlib.Core.List.{Memᴰ}
use aether_powerdns.Prelude.{
  String, Bool-cases, true, ◌≡◌, refl, sym, ◌↔◌, ◌⊎◌, inl, inr, List, [], ◌∷◌, ◌==◌, eq_iff, arith,
}
use aether_powerdns.Api.Server.{PowerDnsServer}
use aether_powerdns.Controller.Access.{allowed_in, namespace_allowed}

allowed_in_sound :
    (xs : List String) (ns : String) → allowed_in xs ns ≡ true → Memᴰ "*" xs ⊎ Memᴰ ns xs
unfolding allowed_in
allowed_in_sound [] ns h = ground arith
allowed_in_sound (a ∷ xs) ns h = elim (Bool-cases (a == "*")) [
  | inl star ↦ inl (Memᴰ.head (sym ((eq_iff a "*").0 star)))
  | inr all ↦ elim (Bool-cases (a == ns)) [
    | inl same ↦ inr (Memᴰ.head (sym ((eq_iff a ns).0 same)))
    | inr differs ↦ elim (allowed_in_sound xs ns (ground arith)) [
      | inl m ↦ inl (Memᴰ.tail m)
      | inr m ↦ inr (Memᴰ.tail m)
    ]
  ]
]

allowed_in_complete :
    (xs : List String) (ns k : String) → Memᴰ k xs → (k ≡ "*") ⊎ (k ≡ ns) → allowed_in xs ns ≡ true
unfolding allowed_in
allowed_in_complete [] ns k m h = elim m [ ]
allowed_in_complete (a ∷ xs) ns k (Memᴰ.head e) h = ground (arith, eq_iff a "*", eq_iff a ns)
allowed_in_complete (a ∷ xs) ns k (Memᴰ.tail m) h = ground (arith, allowed_in_complete xs ns k m h)

-- A namespace may use a server exactly if it is the server's own, or the server's
-- `allowedNamespaces` list "*" or that namespace.
pub namespace_allowed_iff :
    (server : PowerDnsServer) (ns : String)
    → (namespace_allowed server ns ≡ true) ↔ (
        (ns ≡ server.meta.namespace)
        ⊎ (Memᴰ "*" server.spec.zone_management.allowed_namespaces
            ⊎ Memᴰ ns server.spec.zone_management.allowed_namespaces))
unfolding namespace_allowed
namespace_allowed_iff server ns = (sound, complete)
  where
    allowed : List String
    allowed = server.spec.zone_management.allowed_namespaces

    sound :
        namespace_allowed server ns ≡ true
        → (ns ≡ server.meta.namespace) ⊎ (Memᴰ "*" allowed ⊎ Memᴰ ns allowed)
    sound h = elim (Bool-cases (ns == server.meta.namespace)) [
      | inl own ↦ inl ((eq_iff ns _).0 own)
      | inr foreign ↦ inr (allowed_in_sound allowed ns (ground arith))
    ]

    complete :
        (ns ≡ server.meta.namespace) ⊎ (Memᴰ "*" allowed ⊎ Memᴰ ns allowed)
        → namespace_allowed server ns ≡ true
    complete (inl own) = ground (arith, eq_iff ns server.meta.namespace)
    complete (inr (inl m)) = ground (arith, allowed_in_complete allowed ns "*" m (inl refl))
    complete (inr (inr m)) = ground (arith, allowed_in_complete allowed ns ns m (inr refl))
