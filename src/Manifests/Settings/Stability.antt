-- ===== src/Manifests/Settings/Stability.antt =====
-- The rendered settings and the hash (internal/manifests/manifests.go) depend on the maps alone,
-- not on the order in which a loop over a map meets its entries.
use mathlib.Core.List.{Permᴰ}
use aether_powerdns.Prelude.{
  String, List, [], ◌∷◌, none, some, ◌<>◌, ◌==◌, not, ◌≡◌, refl, sym, ap, ◌∙◌, lookup, keys,
  sort_texts-Permᴰ, sort_texts, if◌then◌else◌,
}
use aether_powerdns.Manifests.Settings.{
  Settings, value_at, sorted_keys, extra_setting_violation, render_from, render_extra_settings,
  secret_feed, secrets_feed, config_hash,
}

-- Two listings of one map.
pub record SameMap (m n : Settings) : Type 0 where
  pub keys_permuted : Permᴰ (keys m) (keys n)
  pub same_values : (k : String) → lookup k m ≡ lookup k n

-- Listings of the same maps, one by one.
abbrev pub SameMaps : List Settings → List Settings → Type 0
SameMaps [] [] = Unit
SameMaps [] (n ∷ ns) = ⊥
SameMaps (m ∷ ms) [] = ⊥
SameMaps (m ∷ ms) (n ∷ ns) = SameMap m n × SameMaps ms ns

module _ {m n : Settings} (same : SameMap m n) where
  value_at_same : (k : String) → value_at m k ≡ value_at n k
  value_at_same k = ap (λ o. elim o [ none ↦ "" | some v ↦ v ]) (same.same_values k)

  sorted_keys_same : sorted_keys m ≡ sorted_keys n
  unfolding sorted_keys
  sorted_keys_same = sort_texts-Permᴰ same.keys_permuted

  render_from_same : (ks : List String) (b : String) → render_from m ks b ≡ render_from n ks b
  unfolding render_from
  render_from_same [] b = refl
  render_from_same (k ∷ ks) b =
      rw (sym (value_at_same k), render_from_same ks b)
        (ap
          (λ r.
            if not (extra_setting_violation k (value_at m k) == "") then render_from n ks b else r)
          (render_from_same ks _))

  secret_feed_same : (ks : List String) → secret_feed m ks ≡ secret_feed n ks
  unfolding secret_feed
  secret_feed_same [] = refl
  secret_feed_same (k ∷ ks) = rw (value_at_same k, secret_feed_same ks) refl

render-loop : (m : Settings) → render_extra_settings m ≡ render_from m (sorted_keys m) ""
unfolding render_extra_settings render_from sorted_keys sort_texts
render-loop [] = refl
render-loop (e ∷ m) = refl

-- The rendered block of extra settings is the same for two listings of one map.
pub render_extra_settings-SameMap :
    {m n : Settings} → SameMap m n → render_extra_settings m ≡ render_extra_settings n
render_extra_settings-SameMap {m} {n} same =
    render-loop m
    ∙ (ap (λ ks. render_from m ks "") (sorted_keys_same same)
        ∙ (render_from_same same (sorted_keys n) "" ∙ sym (render-loop n)))

secrets_feed_same : (ms ns : List Settings) → SameMaps ms ns → secrets_feed ms ≡ secrets_feed ns
unfolding secrets_feed
secrets_feed_same [] [] same = refl
secrets_feed_same [] (n ∷ ns) same = absurd same
secrets_feed_same (m ∷ ms) [] same = absurd same
secrets_feed_same (m ∷ ms) (n ∷ ns) (same, rest) =
    rw (sorted_keys_same same, secret_feed_same same (sorted_keys n), secrets_feed_same ms ns rest)
      refl

-- The hash that rolls the pods, over the configuration with its extra settings and over the
-- secrets, is the same for two listings of the same maps: a pass that reads the same data never
-- rolls them.
pub config_hash-SameMaps :
    (digest : String → String) (conf : String) {m n : Settings} (ms ns : List Settings)
    → SameMap m n
    → SameMaps ms ns
    → config_hash digest (conf <> render_extra_settings m) ms
      ≡ config_hash digest (conf <> render_extra_settings n) ns
unfolding config_hash
config_hash-SameMaps digest conf ms ns same rest =
    rw (render_extra_settings-SameMap same, secrets_feed_same ms ns rest) refl
