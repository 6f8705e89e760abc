-- ===== src/Controller/Records/Match/Spec.antt =====
-- What `rrsetMatches` and `nameInZone` of internal/controller/rrset_controller.go decide.
use Prim.Native.String.{[] as nil, ◌∷◌ as ◌::◌}
use mathlib.Core.List.{Perm}
use mathlib.Core.Option.{some_inj}
use text.Mathlib.TextLemmas.{nil-append, cons-append}
use aether_powerdns.Prelude.{
  String, Bool, true, false, List, [], ◌∷◌, Option, none, some, ◌<>◌, ◌&&◌, ◌==◌, eq_iff, eq_refl,
  length, ◌≡◌, ◌↔◌, ◌⊎◌, inl, inr, refl, ap, arith, Bool-cases, find?, has_suffix,
}
use aether_powerdns.Pdns.Types.{PdnsRrSet, PdnsZone, PdnsRecord}
use aether_powerdns.Controller.Records.Match.{
  name_in_zone, count_contents, same_contents, matches_in, rrset_matches,
}
use aether_powerdns.Controller.Records.Match.Counting.{
  contents, occurrences, Perm-length, count_contents-occurrences, take_contents-Perm,
  take_contents_of_Perm,
}

-- The first record set of the zone with a name and a type.
abbrev pub first_rrset : PdnsZone → String → String → Option PdnsRrSet
first_rrset pz name type = find? (λ g. g.name == name && g.type == type) pz.rrsets

-- A record set has another's TTL, and its contents in some order. Whether records are disabled is
-- not looked at, as the loop of the code does not.
abbrev pub Matches : PdnsRrSet → PdnsRrSet → Type 0
Matches got desired =
    (got.ttl ≡ desired.ttl) × Perm (contents got.records) (contents desired.records)

length-contents : (rs : List PdnsRecord) → length (contents rs) ≡ length rs
length-contents [] = refl
length-contents (r ∷ rs) = omega (arith, length-contents rs)

wanted :
    (rs : List PdnsRecord) (k : String) → count_contents rs (λ j. 0) k ≡ occurrences k (contents rs)
wanted rs k = omega (arith, count_contents-occurrences rs (λ j. 0) k)

same_contents-Matches :
    (got desired : PdnsRrSet) → same_contents got desired ≡ true → Matches got desired
unfolding same_contents
same_contents-Matches got desired h = (
  ground arith,
  take_contents-Perm got.records (count_contents desired.records (λ j. 0))
      (contents desired.records) (wanted desired.records)
      (ground (arith, length-contents desired.records)) (ground arith),
)

Matches-same_contents :
    (got desired : PdnsRrSet) → Matches got desired → same_contents got desired ≡ true
unfolding same_contents
Matches-same_contents got desired (ttl, p) =
    let taken =
      take_contents_of_Perm got.records (count_contents desired.records (λ j. 0))
        (contents desired.records) (wanted desired.records) p in
    ground (arith, Perm-length p, length-contents got.records, length-contents desired.records)

-- What the loop over the sets does with the first set of the name and the type.
judge : Option PdnsRrSet → PdnsRrSet → Bool
judge none desired = false
judge (some got) desired = same_contents got desired

matches_in-find? :
    (sets : List PdnsRrSet) (desired : PdnsRrSet)
    → matches_in sets desired
      ≡ judge (find? (λ g. g.name == desired.name && g.type == desired.type) sets) desired
unfolding matches_in judge
matches_in-find? [] desired = refl
matches_in-find? (got ∷ rest) desired = ground (arith, matches_in-find? rest desired)

judge_iff :
    (o : Option PdnsRrSet) (desired : PdnsRrSet)
    → (judge o desired ≡ true) ↔ ((got : PdnsRrSet) × (o ≡ some got) × Matches got desired)
unfolding judge
judge_iff none desired = (λ h. cc, λ (got, e, s). cc)
judge_iff (some got) desired = (
  λ h. (got, refl, same_contents-Matches got desired h),
  λ (x, e, s). Matches-same_contents got desired (rw (some_inj.0 e) s),
)

-- `rrsetMatches` holds exactly if the zone has a record set of the desired name and type, and
-- the first such set has the desired TTL and the desired contents in some order, each as often.
pub rrset_matches_iff :
    (pz : PdnsZone) (desired : PdnsRrSet)
    → (rrset_matches pz desired ≡ true) ↔ (
        (got : PdnsRrSet) × (first_rrset pz desired.name desired.type ≡ some got)
        × Matches got desired)
unfolding rrset_matches
rrset_matches_iff pz desired =
    rw (matches_in-find? pz.rrsets desired)
      (judge_iff (first_rrset pz desired.name desired.type) desired)

has_suffix-append : (s t : String) → has_suffix s t ≡ true → (p : String) × (s ≡ p <> t)
has_suffix-append nil t h = (nil, rw nil-append ((eq_iff nil t).0 h))
has_suffix-append (c :: s) t h = elim (Bool-cases ((c :: s) == t)) [
  | inl whole ↦ (nil, rw nil-append ((eq_iff (c :: s) t).0 whole))
  | inr shorter ↦
      let (p, e) = has_suffix-append s t (ground arith) in
      (c :: p, rw cons-append (ap (λ r. c :: r) e))
]

has_suffix_self : (t : String) → has_suffix t t ≡ true
has_suffix_self nil = refl
has_suffix_self (c :: t) = ground (arith, eq_refl (c :: t))

append-has_suffix : (p t : String) → has_suffix (p <> t) t ≡ true
append-has_suffix nil t = rw nil-append (has_suffix_self t)
append-has_suffix (c :: p) t = rw cons-append (ground (arith, append-has_suffix p t))

-- A name is in a zone exactly if it is the zone's own or ends in a dot and the zone's.
pub name_in_zone_iff :
    (name zone : String)
    → (name_in_zone name zone ≡ true)
      ↔ ((name ≡ zone) ⊎ ((p : String) × (name ≡ p <> ("." <> zone))))
unfolding name_in_zone
name_in_zone_iff name zone = (sound, complete)
  where
    sound :
        name_in_zone name zone ≡ true → (name ≡ zone) ⊎ ((p : String) × (name ≡ p <> ("." <> zone)))
    sound h = elim (Bool-cases (name == zone)) [
      | inl apex ↦ inl ((eq_iff name zone).0 apex)
      | inr below ↦ inr (has_suffix-append name ("." <> zone) (ground arith))
    ]

    complete :
        (name ≡ zone) ⊎ ((p : String) × (name ≡ p <> ("." <> zone))) → name_in_zone name zone ≡ true
    complete (inl apex) = ground (arith, eq_iff name zone)
    complete (inr (p, e)) = rw e (ground (arith, append-has_suffix p ("." <> zone)))
