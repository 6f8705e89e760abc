-- ===== src/Controller/Records/Conflict.antt =====
-- The loop of `findConflict` (internal/controller/rrset_controller.go).
pub mod Spec
use aether_powerdns.Prelude.{
  String, Bool, true, List, [], ◌∷◌, ◌<>◌, ◌&&◌, ◌||◌, ◌==◌, if◌then◌else◌,
}
use aether_powerdns.Api.Zones.{RrSet}

-- The object that an item stands for is the one in hand, or is being deleted.
abbrev pub is_skipped : RrSet → RrSet → Bool
is_skipped rr o =
    (o.meta.namespace == rr.meta.namespace && o.meta.name == rr.meta.name) || o.meta.deleting

abbrev pub claims_same : RrSet → RrSet → Bool
claims_same rr o = o.spec.name == rr.spec.name && o.spec.type == rr.spec.type

unfoldable pub conflict_in : RrSet → List RrSet → String
conflict_in rr [] = ""
conflict_in rr (o ∷ rest) =
    if is_skipped rr o
    then conflict_in rr rest
    else if claims_same rr o
    then o.meta.namespace <> ("/" <> o.meta.name)
    else conflict_in rr rest
