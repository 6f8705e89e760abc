-- ===== src/Manifests/Tier/Order.antt =====
-- The configuration of a DNSDist (internal/manifests/dnsdist.go) and the order of its backends.
use mathlib.Core.List.{Permᴰ}
use aether_powerdns.Prelude.{
  String, List, [], ◌∷◌, none, some, ◌≡◌, refl, ap, lookup, sort_texts, sort_texts-Permᴰ,
}
use aether_powerdns.Api.Meta.{ObjectRef}
use aether_powerdns.Api.Tiers.{DnsDist}
use aether_powerdns.Manifests.Tier.{backend_names, address_at, server_lines, dns_dist_config}

-- The tier with other backend references.
abbrev pub with_backends : DnsDist → List ObjectRef → DnsDist
with_backends d refs = record d { spec = record d.spec { backend_refs = refs } }

server_lines_same :
    (addrs addrs' : List (String × String)) (ns : List String)
    → ((n : String) → lookup n addrs ≡ lookup n addrs')
    → server_lines addrs ns ≡ server_lines addrs' ns
unfolding server_lines
server_lines_same addrs addrs' [] same = refl
server_lines_same addrs addrs' (n ∷ ns) same =
    let address : address_at addrs n ≡ address_at addrs' n =
      ap (λ o. elim o [ none ↦ "" | some ip ↦ ip ]) (same n) in
    rw (address, server_lines_same addrs addrs' ns same) refl

-- The configuration, and with it the hash that rolls the pods, depends neither on the order in
-- which a tier lists its backends nor on the order in which the map of addresses is kept.
pub dns_dist_config-Permᴰ :
    (d : DnsDist) (refs refs' : List ObjectRef) (addrs addrs' : List (String × String))
    → Permᴰ (backend_names refs) (backend_names refs')
    → ((n : String) → lookup n addrs ≡ lookup n addrs')
    → dns_dist_config (with_backends d refs) addrs ≡ dns_dist_config (with_backends d refs') addrs'
unfolding dns_dist_config
dns_dist_config-Permᴰ d refs refs' addrs addrs' permuted same =
    rw
      (
        sort_texts-Permᴰ permuted,
        server_lines_same addrs addrs' (sort_texts (backend_names refs')) same,
      )
      refl
