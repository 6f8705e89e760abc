-- ===== src/Controller/Zones/Dnssec/Keys.antt =====
-- Lists of keys, as `ensureDNSSEC` of internal/controller/zone_controller.go turns them on and off.
use mathlib.Core.List.{append-nil}
use aether_powerdns.Prelude.{
  ℕ, Bool, true, false, List, [], ◌∷◌, map, not, ◌&&◌, ◌||◌, ◌≡◌, refl, sym, ap, ◌∙◌, any, all,
  nat_eq, nat_eq_iff, arith, if◌then◌else◌, Bool-cases, inl, inr,
}
use aether_powerdns.Pdns.Types.{Cryptokey}
use aether_powerdns.Controller.Zones.Dnssec.{ds_of}

abbrev pub turned : Bool → Cryptokey → Cryptokey
turned b k = record k { active = b }

-- The keys after the one with an id has been turned on or off.
abbrev pub set_active : ℕ → Bool → List Cryptokey → List Cryptokey
set_active id b = map (λ j. if nat_eq j.id id then turned b j else j)

-- The keys `ls` after each active one of `ks` has been turned off, one after the other.
unfoldable pub silence : List Cryptokey → List Cryptokey → List Cryptokey
silence [] ls = ls
silence (k ∷ ks) ls = if k.active then silence ks (set_active k.id false ls) else silence ks ls

-- The key is off, or one of `ks` that is on has its id.
abbrev covered : List Cryptokey → Cryptokey → Bool
covered ks j = not j.active || any (λ k. k.active && nat_eq j.id k.id) ks

turned-off : (j : Cryptokey) → j.active ≡ false → turned false j ≡ j
turned-off j h = ap (λ b. turned b j) (sym h)

all_off : (ls : List Cryptokey) → all (covered []) ls ≡ true → map (turned false) ls ≡ ls
all_off [] h = refl
all_off (j ∷ ls) h = rw (turned-off j (ground arith), all_off ls (ground arith))

covered-step :
    (k : Cryptokey) (ks ls : List Cryptokey)
    → all (covered (k ∷ ks)) ls ≡ true
    → all (covered ks) (set_active k.id false ls) ≡ true
covered-step k ks [] h = refl
covered-step k ks (j ∷ ls) h = ground (arith, covered-step k ks ls)

covered-skip :
    (k : Cryptokey) (ks ls : List Cryptokey)
    → k.active ≡ false
    → all (covered (k ∷ ks)) ls ≡ true
    → all (covered ks) ls ≡ true
covered-skip k ks [] off h = refl
covered-skip k ks (j ∷ ls) off h = ground (arith, covered-skip k ks ls off)

turned-set_active :
    (id : ℕ) (ls : List Cryptokey)
    → map (turned false) (set_active id false ls) ≡ map (turned false) ls
turned-set_active id [] = refl
turned-set_active id (j ∷ ls) = elim (Bool-cases (nat_eq j.id id)) [
  | inl same ↦ rw (same, turned-set_active id ls)
  | inr differs ↦ rw (differs, turned-set_active id ls)
]

silence-turned :
    (ks ls : List Cryptokey) → all (covered ks) ls ≡ true → silence ks ls ≡ map (turned false) ls
unfolding silence
silence-turned [] ls h = sym (all_off ls h)
silence-turned (k ∷ ks) ls h = elim (Bool-cases k.active) [
  | inl on ↦ rw on (
      silence-turned ks (set_active k.id false ls) (covered-step k ks ls h)
      ∙ turned-set_active k.id ls)
  | inr off ↦ rw off (silence-turned ks ls (covered-skip k ks ls off h))
]

covered-weaken :
    (k : Cryptokey) (ks ls : List Cryptokey)
    → all (covered ks) ls ≡ true
    → all (covered (k ∷ ks)) ls ≡ true
covered-weaken k ks [] h = refl
covered-weaken k ks (j ∷ ls) h = ground (arith, covered-weaken k ks ls)

covered_self : (ks : List Cryptokey) → all (covered ks) ks ≡ true
covered_self [] = refl
covered_self (k ∷ ks) =
    ground (arith, covered-weaken k ks ks (covered_self ks), nat_eq_iff k.id k.id)

-- Turning off each active key leaves every key off, and changes nothing else.
pub silence_self : (ks : List Cryptokey) → silence ks ks ≡ map (turned false) ks
silence_self ks = silence-turned ks ks (covered_self ks)

pub none_active : (ks : List Cryptokey) → any (λ k. k.active) (map (turned false) ks) ≡ false
none_active [] = refl
none_active (k ∷ ks) = none_active ks

others_silent :
    (id : ℕ) (ks : List Cryptokey)
    → any (λ j. nat_eq j.id id) ks ≡ false
    → ds_of (set_active id true (map (turned false) ks)) ≡ []
unfolding ds_of
others_silent id [] h = refl
others_silent id (j ∷ ks) h = elim (Bool-cases (nat_eq j.id id)) [
  | inl same ↦ ground arith
  | inr differs ↦ rw (differs, others_silent id ks (ground arith))
]

-- Where only the first key has its id, turning it on again after all were off brings its DS
-- records back, and no others.
pub only_key_ds :
    (k : Cryptokey) (ks : List Cryptokey)
    → any (λ j. nat_eq j.id k.id) ks ≡ false
    → ds_of (set_active k.id true (map (turned false) (k ∷ ks))) ≡ k.ds
unfolding ds_of
only_key_ds k ks h = rw ((nat_eq_iff k.id k.id).1 refl, others_silent k.id ks h, append-nil k.ds)
