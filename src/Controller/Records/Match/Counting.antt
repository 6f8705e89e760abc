-- ===== src/Controller/Records/Match/Counting.antt =====
-- The counting loops of `rrsetMatches` (internal/controller/rrset_controller.go) against
-- permutations of the contents.
use mathlib.Core.Logic.{∥∥₁_elim}
use mathlib.Core.List.{Perm, Permᴰ, perm_middle}
use mathlib.Core.List.Perm
use native.Mathlib.Nat.{ℕ_set}
use native.Mathlib.Bridge.{le_prop}
use aether_powerdns.Prelude.{
  ℕ, ◌+◌, ◌-◌, ◌≤◌, ◌<◌, String, true, List, [], ◌∷◌, ◌++◌, ◌==◌, eq_iff, eq_refl, length,
  if◌then◌else◌, ◌≡◌, refl, ◌∙◌, ap, arith, Bool-cases, inl, inr, length-append,
}
use aether_powerdns.Pdns.Types.{PdnsRecord}
use aether_powerdns.Controller.Records.Match.{Counts, count_contents, take_contents}

abbrev pub contents : List PdnsRecord → List String
contents [] = []
contents (r ∷ rs) = r.content ∷ contents rs

-- How often a text occurs.
abbrev pub occurrences : String → List String → ℕ
occurrences k [] = 0
occurrences k (x ∷ xs) = (if x == k then 1 else 0) + occurrences k xs

occurrences-append :
    (k : String) (xs ys : List String)
    → occurrences k (xs ++ ys) ≡ occurrences k xs + occurrences k ys
occurrences-append k [] ys = omega arith
occurrences-append k (x ∷ xs) ys = ground (arith, occurrences-append k xs ys)

pub count_contents-occurrences :
    (rs : List PdnsRecord) (want : Counts) (k : String)
    → count_contents rs want k ≡ want k + occurrences k (contents rs)
unfolding count_contents
count_contents-occurrences [] want k = omega arith
count_contents-occurrences (r ∷ rs) want k =
    ground
      (arith, count_contents-occurrences rs (λ j. if r.content == j then want j + 1 else want j) k)

-- A text that occurs can be taken out.
extract :
    (k : String) (xs : List String)
    → 0 < occurrences k xs
    → (l : List String) × (r : List String) × (xs ≡ l ++ (k ∷ r))
extract k [] h = absurd (omega arith)
extract k (x ∷ xs) h = elim (Bool-cases (x == k)) [
  | inl same ↦ ([], xs, ap (λ y. y ∷ xs) ((eq_iff x k).0 same))
  | inr differs ↦ let (l, r, e) = extract k xs (ground arith) in (x ∷ l, r, ap (λ ys. x ∷ ys) e)
]

occurrences-middle :
    (j k : String) (l r : List String)
    → occurrences j (l ++ (k ∷ r)) ≡ (if k == j then 1 else 0) + occurrences j (l ++ r)
occurrences-middle j k [] r = refl
occurrences-middle j k (x ∷ l) r = ground (arith, occurrences-middle j k l r)

-- The loop succeeds only on a permutation, if as many records are wanted as there are.
pub take_contents-Perm :
    (rs : List PdnsRecord) (want : Counts) (xs : List String)
    → ((k : String) → want k ≡ occurrences k xs)
    → length rs ≡ length xs
    → take_contents rs want ≡ true
    → Perm (contents rs) xs
unfolding take_contents
take_contents-Perm [] want [] w n h = Perm.refl []
take_contents-Perm [] want (x ∷ xs) w n h = absurd (omega arith)
take_contents-Perm (r ∷ rs) want xs w n h =
    let (before, after, split) = extract r.content xs (ground (arith, w r.content)) in
    let smaller =
      take_contents-Perm rs (λ k. if r.content == k then want k - 1 else want k) (before ++ after)
        (λ k.
          ground
            (arith, w k, ap (occurrences k) split, occurrences-middle k r.content before after))
        (omega (
          arith,
          ap length split,
          length-append before (r.content ∷ after),
          length-append before after,
        ))
        (ground arith) in
    rw split (Perm.trans (Perm.cons r.content smaller) (Perm.symm (perm_middle before after)))

Permᴰ-occurrences :
    {xs ys : List String} (k : String) → Permᴰ xs ys → occurrences k xs ≡ occurrences k ys
Permᴰ-occurrences k Permᴰ.nil = refl
Permᴰ-occurrences k (Permᴰ.cons {a} {b} e p) = rw e (ground (arith, Permᴰ-occurrences k p))
Permᴰ-occurrences k (Permᴰ.swap e e') = rw (e, e') (omega arith)
Permᴰ-occurrences k (Permᴰ.trans p q) = Permᴰ-occurrences k p ∙ Permᴰ-occurrences k q

Permᴰ-length : {xs ys : List String} → Permᴰ xs ys → length xs ≡ length ys
Permᴰ-length Permᴰ.nil = refl
Permᴰ-length (Permᴰ.cons e p) = omega (arith, Permᴰ-length p)
Permᴰ-length (Permᴰ.swap e e') = refl
Permᴰ-length (Permᴰ.trans p q) = Permᴰ-length p ∙ Permᴰ-length q

pub Perm-length : {xs ys : List String} → Perm xs ys → length xs ≡ length ys
Perm-length p = ∥∥₁_elim p (ℕ_set _ _) Permᴰ-length

-- The loop succeeds where no content occurs more often than it is wanted.
take_contents_of_le :
    (rs : List PdnsRecord) (want : Counts)
    → ((k : String) → occurrences k (contents rs) ≤ want k)
    → take_contents rs want ≡ true
unfolding take_contents
take_contents_of_le [] want h = refl
take_contents_of_le (r ∷ rs) want h =
    let rest =
      take_contents_of_le rs (λ k. if r.content == k then want k - 1 else want k)
        (λ k. ground (arith, h k)) in
    ground (arith, h r.content, eq_refl r.content)

-- The loop succeeds on every permutation of what is wanted.
pub take_contents_of_Perm :
    (rs : List PdnsRecord) (want : Counts) (xs : List String)
    → ((k : String) → want k ≡ occurrences k xs)
    → Perm (contents rs) xs
    → take_contents rs want ≡ true
take_contents_of_Perm rs want xs w p =
    take_contents_of_le rs want
      λ k. ∥∥₁_elim p le_prop (λ q. omega (arith, w k, Permᴰ-occurrences k q))
