-- ===== src/Controller/Tiers/Backends/Resolved.antt =====
-- What `backendsReady` of internal/controller/dnsdist_controller.go has checked when it is true.
use aether_powerdns.Prelude.{
  Error, String, List, [], ◌∷◌, some, ◌==◌, ◌||◌, eq_iff, eq_refl, ◌≡◌, ◌≢◌, refl, sym, ap, ◌∙◌,
  Result, ok, err, api_not_found, is_kind, arith, All, lookup, Bool-cases, inl, inr, ne-of-eq_false,
}
use aether_powerdns.Api.Meta.{ObjectRef}
use aether_powerdns.Api.Server.{PowerDnsServer, phase_ready}
use aether_powerdns.Api.Tiers.{DnsDist}
use aether_powerdns.Manifests.Naming.{name_set}
use aether_powerdns.Controller.Services.{put}
use aether_powerdns.Controller.Services.Annotations.{lookup-put}
use aether_powerdns.Controller.Tiers.Backends.{
  View, Readiness, ready, not_ready, failed, and_then, address_of, backend_of, resolve, resolve_all,
  backends_ready,
}

-- The backend of that name is a server that is Ready, with a DNS Service that has an address.
pub record IsBackend (v : View) (namespace name ip : String) : Type 0 where
  pub server : PowerDnsServer
  pub found : v.server (record { namespace = namespace; name = name }) ≡ ok server
  pub is_ready : server.status.phase ≡ phase_ready
  pub served :
      v.cluster_ip (record { namespace = namespace; name = (name_set server).dns_service }) ≡ ok ip
  pub has_address : ip ≢ ""
  pub not_headless : ip ≢ "None"

not_ready-ne-ready : {A : Type 0} {r m : String} {a : A} → not_ready r m ≢ ready a
not_ready-ne-ready h = cc

failed-ne-ready : {A : Type 0} {e : Error} {a : A} → failed e ≢ ready a
failed-ne-ready h = cc

ready_inj : {A : Type 0} {a b : A} → ready a ≡ ready b → a ≡ b
ready_inj h = cc

and_then-ready :
    {A B : Type 0} (x : Readiness A) (f : A → Readiness B) (b : B)
    → and_then x f ≡ ready b
    → (a : A) × (x ≡ ready a) × (f a ≡ ready b)
and_then-ready (ready a) f b h = (a, refl, h)
and_then-ready (not_ready reason msg) f b h = absurd (not_ready-ne-ready h)
and_then-ready (failed e) f b h = absurd (failed-ne-ready h)

module _ (v : View) (namespace : String) where
  address_of-ready :
      (name service ip : String) (answer : Result String)
      → address_of v namespace name service answer ≡ ready ip
      → (answer ≡ ok ip) × (ip ≢ "") × (ip ≢ "None")
  unfolding address_of
  address_of-ready name service ip (err e) h = elim (Bool-cases (is_kind api_not_found e.kind)) [
    | inl missing ↦ absurd (not_ready-ne-ready (rw missing at h))
    | inr broken ↦ absurd (failed-ne-ready (rw broken at h))
  ]
  address_of-ready name service ip (ok a) h = elim (Bool-cases (a == "" || a == "None")) [
    | inl none_yet ↦ absurd (not_ready-ne-ready (rw none_yet at h))
    | inr given ↦
        rw (sym (ready_inj (rw given at h)))
          (refl, ne-of-eq_false a "" (ground arith), ne-of-eq_false a "None" (ground arith))
  ]

  backend_of-ready :
      (name ip : String) (answer : Result PowerDnsServer)
      → v.server (record { namespace = namespace; name = name }) ≡ answer
      → backend_of v namespace name answer ≡ ready ip
      → IsBackend v namespace name ip
  unfolding backend_of
  backend_of-ready name ip (err e) got h = elim (Bool-cases (is_kind api_not_found e.kind)) [
    | inl missing ↦ absurd (not_ready-ne-ready (rw missing at h))
    | inr broken ↦ absurd (failed-ne-ready (rw broken at h))
  ]
  backend_of-ready name ip (ok s) got h = elim (Bool-cases (s.status.phase == phase_ready)) [
    | inr waiting ↦ absurd (not_ready-ne-ready (rw waiting at h))
    | inl up ↦
        let (served, given, single) = address_of-ready name _ ip _ (rw up at h) in
        record {
          server = s;
          found = got;
          is_ready = (eq_iff _ _).0 up;
          served = served;
          has_address = given;
          not_headless = single;
        }
  ]

  -- An address that was found stays under its name.
  kept :
      (refs : List ObjectRef) (addrs out : List (String × String)) (k ip : String)
      → resolve_all v namespace refs addrs ≡ ready out
      → resolve v namespace k ≡ ready ip
      → lookup k addrs ≡ some ip
      → lookup k out ≡ some ip
  unfolding resolve_all
  kept [] addrs out k ip h r e = ap (lookup k) (sym (ready_inj h)) ∙ e
  kept (ref ∷ refs) addrs out k ip h r e =
      let (a, found, rest) = and_then-ready (resolve v namespace ref.name) _ out h in
      kept refs (put ref.name a addrs) out k ip rest r (
        lookup-put ref.name a k addrs ∙ (elim (Bool-cases (ref.name == k)) [
          | inl same ↦
              let e1 : resolve v namespace ref.name ≡ ready ip =
                ap (resolve v namespace) ((eq_iff _ _).0 same) ∙ r in
              rw same (ap some (ready_inj (sym found ∙ e1)))
          | inr differs ↦ rw differs e
        ]))

  resolve_all-IsBackend :
      (refs : List ObjectRef) (addrs out : List (String × String))
      → resolve_all v namespace refs addrs ≡ ready out
      → All
          (λ ref.
            (ip : String) × (lookup ref.name out ≡ some ip) × IsBackend v namespace ref.name ip)
          refs
  unfolding resolve_all
  resolve_all-IsBackend [] addrs out h = tt
  resolve_all-IsBackend (ref ∷ refs) addrs out h =
      let (a, found, rest) = and_then-ready (resolve v namespace ref.name) _ out h in
      (
        (
          a,
          kept refs (put ref.name a addrs) out ref.name a rest found
              (lookup-put ref.name a ref.name addrs ∙ rw (eq_refl ref.name) refl),
          backend_of-ready ref.name a _ refl (unfold resolve in found),
        ),
        resolve_all-IsBackend refs (put ref.name a addrs) out rest,
      )

-- Where the backends of a tier count as ready, each reference names a server of the tier's
-- namespace that is Ready, and the resolved map has the ClusterIP of that server's DNS Service
-- under the reference's name: an address, neither empty nor "None".
pub backends_ready-IsBackend :
    (v : View) (d : DnsDist) (addrs : List (String × String))
    → backends_ready v d ≡ ready addrs
    → All
        (λ ref.
          (ip : String) × (lookup ref.name addrs ≡ some ip)
          × IsBackend v d.meta.namespace ref.name ip)
        d.spec.backend_refs
unfolding backends_ready
backends_ready-IsBackend v d addrs h =
    resolve_all-IsBackend v d.meta.namespace d.spec.backend_refs [] addrs h
