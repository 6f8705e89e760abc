-- ===== src/Controller/Services/Annotations.antt =====
-- The annotations that `updateService` of internal/controller/converge.go merges.
use aether_powerdns.Prelude.{
  String, true, List, [], ◌∷◌, Option, some, ◌==◌, eq_iff, ◌≡◌, refl, sym, ap, ◌∙◌, ◌⊎◌, inl, inr,
  lookup, keys, all, arith, Bool-cases, same_text_option, same_text_option_refl, if◌then◌else◌,
}
use aether_powerdns.Controller.Services.{put, merge_annotations, same_map}

-- What the desired annotations say of a key, where `rest` is what was there: the last binding.
unfoldable pub said : List (String × String) → String → Option String → Option String
said [] k rest = rest
said (entry ∷ desired) k rest = said desired k (if entry.0 == k then some entry.1 else rest)

pub lookup-put :
    (j v k : String) (m : List (String × String))
    → lookup k (put j v m) ≡ (if j == k then some v else lookup k m)
unfolding put
lookup-put j v k [] = ground arith
lookup-put j v k (entry ∷ m) =
    ground (arith, eq_iff j k, eq_iff entry.0 j, eq_iff entry.0 k, lookup-put j v k m)

-- A key of the merged annotations has the desired value, if it is desired, and else the live one.
pub lookup-merge_annotations :
    (desired live : List (String × String)) (k : String)
    → lookup k (merge_annotations desired live) ≡ said desired k (lookup k live)
unfolding merge_annotations said
lookup-merge_annotations [] live k = refl
lookup-merge_annotations (entry ∷ desired) live k =
    lookup-merge_annotations desired (put entry.0 entry.1 live) k
    ∙ ap (said desired k) (lookup-put entry.0 entry.1 k live)

-- The desired annotations say nothing of a key, or one value, whatever was there.
said-cases :
    (desired : List (String × String)) (k : String)
    → ((rest : Option String) → said desired k rest ≡ rest)
      ⊎ ((v : String) × ((rest : Option String) → said desired k rest ≡ some v))
unfolding said
said-cases [] k = inl (λ rest. refl)
said-cases (entry ∷ desired) k = elim (said-cases desired k) [
  | inr (v, fixed) ↦ inr (v, λ rest. fixed _)
  | inl silent ↦ elim (Bool-cases (entry.0 == k)) [
    | inl same ↦ inr (entry.1, λ rest. silent _ ∙ rw same refl)
    | inr differs ↦ inl (λ rest. silent _ ∙ rw differs refl)
  ]
]

-- Where each desired annotation is there, the desired ones change none.
pub said_again :
    (desired live got : List (String × String)) (k : String)
    → ((v : String) → lookup k (merge_annotations desired live) ≡ some v → lookup k got ≡ some v)
    → said desired k (lookup k got) ≡ lookup k got
said_again desired live got k kept = elim (said-cases desired k) [
  | inl silent ↦ silent _
  | inr (v, fixed) ↦
      fixed _ ∙ sym (kept v (lookup-merge_annotations desired live k ∙ fixed (lookup k live)))
]

all_same :
    (m n : List (String × String)) (ks : List String)
    → ((k : String) → lookup k m ≡ lookup k n)
    → all (λ k. same_text_option (lookup k m) (lookup k n)) ks ≡ true
all_same m n [] h = refl
all_same m n (k ∷ ks) h = rw (sym (h k), same_text_option_refl (lookup k m)) (all_same m n ks h)

-- Maps that agree at each key compare equal.
pub same_map-of-lookup :
    (m n : List (String × String)) → ((k : String) → lookup k m ≡ lookup k n) → same_map m n ≡ true
same_map-of-lookup m n h = rw (all_same m n (keys m) h, all_same m n (keys n) h) refl
