-- ===== src/Tests/Zones.antt =====
-- The theorems about internal/controller/zone_controller.go at concrete data.
use aether_powerdns.Prelude.{
  ap, arith, sym, ok_inj, err-ne-ok, ne-of-eq_false, Bool-cases, ◌++◌, path_escape, String, Bool,
  true, false, List, [], ◌∷◌, none, some, Option, Result, ok, ◌≡◌, refl, ◌⊎◌, inl, inr, map, any,
  ◌==◌,
}
use aether_powerdns.Api.Meta.{NamespacedName}
use aether_powerdns.Api.Server.{PowerDnsServer}
use aether_powerdns.Api.Zones.{Zone}
use aether_powerdns.Pdns.Types.{Cryptokey}
use aether_powerdns.Pdns.Client.{
  Client, call, get_zone, zone_path, read_answer, is_already_exists, list_cryptokeys,
  create_cryptokey, update_cryptokey, rectify_zone,
}
use aether_powerdns.Controller.World.{World, RemovesFinalizers}
use aether_powerdns.Controller.Access.{server_key_for}
use aether_powerdns.Controller.Zones.Create.{want_kind, create_zone}
use aether_powerdns.Controller.Zones.Create.Outcome.{CreateOutcome, create_zone-Outcome}
use aether_powerdns.Controller.Zones.Dnssec.{ensure_dnssec, deactivate, ds_of}
use aether_powerdns.Controller.Zones.Dnssec.Keys.{turned, set_active}
use aether_powerdns.Controller.Zones.Dnssec.Signing.{
  KeepsKeys, KeyState, ensure_dnssec_disabled, ensure_dnssec_enabled, reenabled_ds,
}
use aether_powerdns.Controller.Zones.Deletion.{reconcile_delete}
use aether_powerdns.Controller.Zones.Deletion.Release.{
  MayDelete, ServerGone, reconcile_delete-MayDelete, IsReleased, reconcile_delete-IsReleased,
}
use aether_powerdns.Controller.Zones.Reconcile.{drifted, reconcile_zone, reconcile}
use aether_powerdns.Controller.Zones.Reconcile.ZoneGates.{MayTouchZone, reconcile-MayTouchZone}
use aether_powerdns.Controller.Zones.Reconcile.Adoption.{reconcile_zone_settled}
use aether_powerdns.Tests.Sample.{
  without, Store, sample_cluster, sample_zone_answer, sample_server, sample_zone,
}
use aether_powerdns.Tests.Keyring.{Keyring, keyring_transport, key_of, keys_of}

abbrev client : Client
client = record { base_url = "http://pdns-api.dns.svc:8081"; api_key = "secret" }

abbrev zone_name : String
zone_name = "example.org."

abbrev state : Bool → Option Bool → Keyring
state zone key = record { zone = zone; key = key }

listed :
    (z : Bool) (o : Option Bool)
    → list_cryptokeys keyring_transport client zone_name (state z o) ≡ (ok (keys_of o), state z o)
unfolding list_cryptokeys call zone_path path_escape read_answer is_already_exists
listed z none = refl
listed z (some true) = refl
listed z (some false) = refl

updated :
    (z : Bool) (o : Option Bool) (k : Cryptokey)
    → keys_of (update_cryptokey keyring_transport client zone_name k (state z o)).1.key
      ≡ set_active k.id k.active (keys_of o)
unfolding update_cryptokey call zone_path path_escape read_answer is_already_exists
updated z none k = refl
updated z (some b) k = ground arith

created :
    (z : Bool) (o : Option Bool) (k made : Cryptokey)
    → (create_cryptokey keyring_transport client zone_name k (state z o)).0 ≡ ok made
    → (made.active ≡ k.active)
      × (keys_of (create_cryptokey keyring_transport client zone_name k (state z o)).1.key
          ≡ keys_of o ++ made ∷ [])
unfolding create_cryptokey call zone_path path_escape read_answer is_already_exists
created z none k made h = elim (Bool-cases k.active) [
  | inl on ↦ let same = ok_inj (rw on at h) in rw (on, sym same) (refl, refl)
  | inr off ↦ let same = ok_inj (rw off at h) in rw (off, sym same) (refl, refl)
]
created z (some b) k made h = absurd (err-ne-ok h)

keeps : KeepsKeys keyring_transport client zone_name
unfolding rectify_zone call zone_path path_escape read_answer is_already_exists
keeps = record {
  keys = λ p. keys_of p.key;
  list_answers = λ p ks h. let e = listed p.zone p.key in (sym (ok_inj (rw e at h)), rw e refl);
  update_sets = λ k p h. updated p.zone p.key k;
  create_appends = λ k made p h. created p.zone p.key k made h;
  rectify_keeps = λ p. refl;
}

abbrev dnssec : Bool → Keyring → Result (List String) × Keyring
dnssec = ensure_dnssec keyring_transport client zone_name

signed_once : dnssec true (state true none) ≡ (ok ("1 13 2 aa" ∷ []), state true (some true))
unfolding ensure_dnssec deactivate ds_of list_cryptokeys create_cryptokey update_cryptokey
    rectify_zone call zone_path path_escape read_answer is_already_exists
signed_once = refl

switched_off : dnssec false (state true (some true)) ≡ (ok [], state true (some false))
unfolding ensure_dnssec deactivate ds_of list_cryptokeys create_cryptokey update_cryptokey
    rectify_zone call zone_path path_escape read_answer is_already_exists
switched_off = refl

switched_on :
    dnssec true (dnssec false (state true (some true))).1
    ≡ (ok ("1 13 2 aa" ∷ []), state true (some true))
unfolding ensure_dnssec deactivate ds_of list_cryptokeys create_cryptokey update_cryptokey
    rectify_zone call zone_path path_escape read_answer is_already_exists
switched_on = refl

abbrev no_ds : List String
no_ds = []

ensure_dnssec_disabled_example :
    (no_ds ≡ [])
    × (keys_of (dnssec false (state true (some true))).1.key
        ≡ map (turned false) (keys_of (some true)))
unfolding keeps
ensure_dnssec_disabled_example =
    ensure_dnssec_disabled keyring_transport client zone_name keeps (state true (some true)) []
      (ap (λ r. r.0) switched_off)

ensure_dnssec_enabled_example :
    KeyState keyring_transport client zone_name keeps []
      (keys_of (dnssec true (state true none)).1.key)
    × (("1 13 2 aa" ∷ []) ≡ ds_of (keys_of (dnssec true (state true none)).1.key))
unfolding keeps ensure_dnssec
ensure_dnssec_enabled_example =
    ensure_dnssec_enabled keyring_transport client zone_name keeps (state true none)
      ("1 13 2 aa" ∷ []) (ap (λ r. r.0) signed_once)

reenabled_ds_example : ("1 13 2 aa" ∷ []) ≡ (key_of true).ds
unfolding keeps
reenabled_ds_example =
    reenabled_ds keyring_transport client zone_name keeps (state true (some true)) (key_of true) []
      [] ("1 13 2 aa" ∷ []) refl refl (ap (λ r. r.0) switched_off) (ap (λ r. r.0) switched_on)

abbrev deleting_zone : Zone
deleting_zone = record sample_zone {
  meta = record sample_zone.meta {
    deleting = true;
    finalizers = "dns.aetherplatform.cloud/zone-protection" ∷ [];
  };
}

abbrev world : List PowerDnsServer → Zone → Keyring → World Store Keyring
world servers zone pdns = record {
  cluster = record { servers = servers; zones = zone ∷ []; rrsets = []; api_key = "secret" };
  pdns = pdns;
  recording = true;
  events = [];
}

abbrev served : World Store Keyring
served = world (sample_server ∷ []) sample_zone (state true (some true))

abbrev fresh : World Store Keyring
fresh = world (sample_server ∷ []) sample_zone (state false none)

create_zone-Outcome_example :
    CreateOutcome keyring_transport sample_zone client fresh.pdns
      (create_zone keyring_transport sample_zone client fresh).0
      (create_zone keyring_transport sample_zone client fresh).1.pdns
create_zone-Outcome_example = create_zone-Outcome keyring_transport sample_zone client fresh

reconcile_delete-MayDelete_example :
    ((reconcile_delete sample_cluster keyring_transport deleting_zone served).1.pdns ≡ served.pdns)
    ⊎ MayDelete sample_cluster served.cluster deleting_zone
reconcile_delete-MayDelete_example =
    reconcile_delete-MayDelete sample_cluster keyring_transport served deleting_zone

abbrev orphaned : World Store Keyring
orphaned = world [] deleting_zone (state true none)

without_removed : (fs : List String) (f : String) → any (λ g. g == f) (without fs f) ≡ false
without_removed [] f = refl
without_removed (g ∷ fs) f = elim (Bool-cases (g == f)) [
  | inl same ↦ rw same (without_removed fs f)
  | inr other ↦ rw (other, other) (without_removed fs f)
]

sample-RemovesFinalizers : RemovesFinalizers sample_cluster
sample-RemovesFinalizers = record { contains-remove_finalizer = without_removed }

reconcile_delete-IsReleased_example :
    IsReleased sample_cluster keyring_transport orphaned deleting_zone
      (reconcile_delete sample_cluster keyring_transport deleting_zone orphaned)
unfolding server_key_for
reconcile_delete-IsReleased_example =
    reconcile_delete-IsReleased sample_cluster keyring_transport orphaned deleting_zone
      sample-RemovesFinalizers refl (inr (ServerGone.missing _ refl refl))

abbrev request : NamespacedName
request = record { namespace = "dns"; name = "example" }

reconcile-MayTouchZone_example :
    ((reconcile sample_cluster keyring_transport request fresh).1.pdns ≡ fresh.pdns)
    ⊎ MayTouchZone sample_cluster keyring_transport fresh.cluster request
reconcile-MayTouchZone_example =
    reconcile-MayTouchZone sample_cluster keyring_transport fresh request

abbrev signed_zone : Zone
signed_zone = record sample_zone {
  spec = record sample_zone.spec { dnssec = record { enabled = true } };
}

reconcile_zone_settled_example :
    (reconcile_zone sample_cluster keyring_transport signed_zone client served).1.pdns ≡ served.pdns
unfolding get_zone list_cryptokeys call zone_path path_escape read_answer is_already_exists drifted
    want_kind
reconcile_zone_settled_example =
    reconcile_zone_settled sample_cluster keyring_transport signed_zone client served
      (sample_zone_answer []) (keys_of (some true)) refl
      (inl (ne-of-eq_false "Native" "" refl, refl)) refl refl refl
