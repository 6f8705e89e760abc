-- ===== src/Controller/Records/Match.antt =====
-- `nameInZone`, `desiredRRSet` and `rrsetMatches` of internal/controller/rrset_controller.go.
pub mod Counting
pub mod Spec
use aether_powerdns.Prelude.{
  ℕ, ◌+◌, ◌-◌, String, Bool, true, false, List, [], ◌∷◌, Option, none, some, ◌<>◌, ◌||◌, ◌==◌, not,
  has_suffix, length, nat_eq, if◌then◌else◌, map,
}
use aether_powerdns.Api.Zones.{RrSet}
use aether_powerdns.Pdns.Types.{PdnsRecord, PdnsRrSet, PdnsZone}

unfoldable pub name_in_zone : String → String → Bool
name_in_zone name zone = name == zone || has_suffix name ("." <> zone)

-- The loop that appends a record for each content.
unfoldable pub records_of : List String → List PdnsRecord
records_of [] = []
records_of (c ∷ cs) = (record { content = c; disabled = false }) ∷ records_of cs

unfoldable pub desired_rrset : RrSet → PdnsRrSet
unfolding records_of
desired_rrset rr = record {
  name = rr.spec.name;
  type = rr.spec.type;
  ttl = elim rr.spec.ttl [ none ↦ 3600 | some ttl ↦ ttl ];
  change_type = "REPLACE";
  records = records_of rr.spec.records;
}

-- The map `want`, in which a key that is absent reads 0.
abbrev pub Counts : Type 0
Counts = String → ℕ

-- The loop `want[rec.Content]++`.
unfoldable pub count_contents : List PdnsRecord → Counts → Counts
count_contents [] want = want
count_contents (r ∷ rs) want =
    count_contents rs (λ k. if r.content == k then want k + 1 else want k)

-- The loop over `got.Records`.
unfoldable pub take_contents : List PdnsRecord → Counts → Bool
take_contents [] want = true
take_contents (r ∷ rs) want =
    let rest = take_contents rs (λ k. if r.content == k then want k - 1 else want k) in
    if nat_eq (want r.content) 0 then false else rest

unfoldable pub same_contents : PdnsRrSet → PdnsRrSet → Bool
unfolding count_contents take_contents
same_contents got desired =
    if not (nat_eq got.ttl desired.ttl)
      || not (nat_eq (length got.records) (length desired.records))
    then false
    else take_contents got.records (count_contents desired.records (λ k. 0))

-- The loop over `pz.RRSets`: the first set with the name and the type decides.
unfoldable pub matches_in : List PdnsRrSet → PdnsRrSet → Bool
matches_in [] desired = false
matches_in (got ∷ rest) desired =
    if not (got.name == desired.name) || not (got.type == desired.type)
    then matches_in rest desired
    else same_contents got desired

unfoldable pub rrset_matches : PdnsZone → PdnsRrSet → Bool
unfolding matches_in same_contents
rrset_matches pz desired = matches_in pz.rrsets desired
