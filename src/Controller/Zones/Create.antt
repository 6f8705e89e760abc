-- ===== src/Controller/Zones/Create.antt =====
-- `createZone` of internal/controller/zone_controller.go.
pub mod Outcome
use aether_powerdns.Prelude.{
  ℕ, String, Bool, true, false, List, [], ◌∷◌, Option, none, some, ◌<>◌, ◌==◌, not, Result, ok, err,
  Error, Action, ◌>>=◌, ◌>>◌, return, fail, attempt, if◌then◌else◌,
}
use aether_powerdns.Api.Zones.{Zone, SoaSpec, zone_kind_native, zone_kind_secondary}
use aether_powerdns.Pdns.Types.{PdnsRecord, PdnsRrSet, PdnsZone, Transport}
use aether_powerdns.Pdns.Client.{Client, create_zone as post_zone, patch_rrsets, delete_zone}
use aether_powerdns.Controller.World.{World, on_pdns, event, event_normal, event_warning}

-- `zone.Spec.Kind`, Native by default.
unfoldable pub want_kind : Zone → String
want_kind zone = if zone.spec.kind == "" then zone_kind_native else zone.spec.kind

-- What is POSTed.
unfoldable pub new_zone : Zone → PdnsZone
unfolding want_kind
new_zone zone = record {
  id = "";
  name = zone.spec.zone_name;
  kind = want_kind zone;
  serial = 0;
  masters = zone.spec.masters;
  nameservers = elim zone.spec.nameservers [ none ↦ some [] | some ns ↦ some ns ];
  dnssec = false;
  rrsets = [];
}

first_or : String → List String → String
first_or d [] = d
first_or d (n ∷ ns) = n

unfoldable pub soa_primary : Zone → String
unfolding first_or
soa_primary zone = elim zone.spec.nameservers [
  | none ↦ zone.spec.zone_name
  | some ns ↦ first_or zone.spec.zone_name ns
]

soa_hostmaster_of : String → Option SoaSpec → String
soa_hostmaster_of zone none = "hostmaster." <> zone
soa_hostmaster_of zone (some soa) =
    if not (soa.hostmaster == "") then soa.hostmaster else "hostmaster." <> zone

soa_ttl_of : Option SoaSpec → ℕ
soa_ttl_of none = 3600
soa_ttl_of (some soa) = elim soa.ttl [ none ↦ 3600 | some ttl ↦ ttl ]

unfoldable pub soa_hostmaster : Zone → String
unfolding soa_hostmaster_of
soa_hostmaster zone = soa_hostmaster_of zone.spec.zone_name zone.spec.soa

-- The SOA that replaces PowerDNS's placeholder.
unfoldable pub seed_soa : Zone → PdnsRrSet
unfolding soa_ttl_of
seed_soa zone = record {
  name = zone.spec.zone_name;
  type = "SOA";
  ttl = soa_ttl_of zone.spec.soa;
  change_type = "REPLACE";
  records =
      (record {
        content = soa_primary zone <> (" " <> (soa_hostmaster zone <> " 0 10800 3600 604800 3600"));
        disabled = false;
      })
      ∷ [];
}

module _ {S : Type 0} (T : Transport) where
  announced : Zone → PdnsZone → Action (World S T.State) PdnsZone
  announced zone created = do
    event event_normal "ZoneCreated" ("registered " <> (zone.spec.zone_name <> " in PowerDNS"))
    return created

  -- After the compensating DELETE.
  rolled_back : Error → Result (Unit {0}) → Action (World S T.State) PdnsZone
  rolled_back e (err d) = do
    event event_warning "SOASeedFailed" (
        "zone created but SOA seed and compensating delete both failed; zone keeps the PowerDNS default SOA: "
        <> e.text)
    fail (record e { text = "seed SOA: " <> e.text })
  rolled_back e (ok _) =
      fail (record e { text = "seed SOA (zone rolled back, will retry): " <> e.text })

  -- After the PATCH of the SOA.
  seeded : Zone → Client → PdnsZone → Result (Unit {0}) → Action (World S T.State) PdnsZone
  seeded zone pc created (err e) = do
    d ← attempt (on_pdns (delete_zone T pc zone.spec.zone_name))
    rolled_back e d
  seeded zone pc created (ok _) = announced zone created

  -- After the POST.
  seed : Zone → Client → PdnsZone → Action (World S T.State) PdnsZone
  seed zone pc created =
      if not (want_kind zone == zone_kind_secondary)
      then (do
        r ← attempt (on_pdns (patch_rrsets T pc zone.spec.zone_name (seed_soa zone ∷ [])))
        seeded zone pc created r)
      else announced zone created

  unfoldable pub create_zone : Zone → Client → Action (World S T.State) PdnsZone
  unfolding announced rolled_back seeded seed
  create_zone zone pc = do created ← on_pdns (post_zone T pc (new_zone zone)); seed zone pc created
