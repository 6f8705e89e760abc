-- ===== src/Manifests/Settings.antt =====
-- The configuration file of internal/manifests/manifests.go: `PDNSConfig`, the extra settings
-- that it takes from a spec, and the hash over it.
pub mod Validity
pub mod Lines
pub mod RoundTrip
pub mod Stability
use Prim.Native.Char.{nul}
use Prim.Native.String.{[] as nil, ◌∷◌ as ◌::◌, slice}
use aether_powerdns.Prelude.{
  ℕ, String, Char, code, Bool, true, false, List, [], ◌∷◌, Option, none, some, ◌<>◌, ◌&&◌, ◌||◌,
  ◌==◌, not, any, all_chars, any_char, has_prefix, leb, nat_eq, quote, show_nat, lookup, keys,
  sort_texts, if◌then◌else◌,
}
use aether_powerdns.Api.Server.{PowerDnsServer}

abbrev pub reserved_settings : List String
reserved_settings =
    "launch" ∷ "local-address" ∷ "local-port" ∷ "webserver" ∷ "webserver-address" ∷ "webserver-port"
    ∷ "webserver-allow-from" ∷ "api" ∷ "api-key" ∷ "default-soa-content" ∷ []

abbrev pub reserved_setting_prefix : String
reserved_setting_prefix = "gpgsql-"

abbrev pub is_lower_or_digit : Char → Bool
is_lower_or_digit c = leb 97 (code c) && leb (code c) 122 || leb 48 (code c) && leb (code c) 57

-- `extraSettingKeyPattern.MatchString`.
unfoldable pub matches_key_pattern : String → Bool
matches_key_pattern nil = false
matches_key_pattern (c :: s) =
    is_lower_or_digit c && all_chars (λ d. is_lower_or_digit d || nat_eq (code d) 45) s

abbrev pub is_line_end : Char → Bool
is_line_end c = nat_eq (code c) 13 || nat_eq (code c) 10

unfoldable pub extra_setting_violation : String → String → String
extra_setting_violation key value =
    if not (matches_key_pattern key)
    then "key " <> (quote key <> " must match ^[a-z0-9][a-z0-9-]*$")
    else if any (λ r. r == key) reserved_settings || has_prefix key reserved_setting_prefix
    then "key " <> (quote key <> " is managed by the operator and cannot be overridden")
    else if any_char is_line_end value
    then "value of " <> (quote key <> " must not contain newlines")
    else ""

-- A map of Go, with the entries in the order in which a loop meets them.
abbrev pub Settings : Type 0
Settings = List (String × String)

-- `extra[k]`.
abbrev pub value_at : Settings → String → String
value_at extra key = elim (lookup key extra) [ none ↦ "" | some v ↦ v ]

unfoldable pub sorted_keys : Settings → List String
sorted_keys extra = sort_texts (keys extra)

-- The loop of `ValidateExtraSettings`.
violations : Settings → List String → List String
violations extra [] = []
violations extra (k ∷ ks) =
    let rest = violations extra ks in
    let msg = extra_setting_violation k (value_at extra k) in
    if not (msg == "") then msg ∷ rest else rest

unfoldable pub validate_extra_settings : Settings → List String
unfolding violations
validate_extra_settings [] = []
validate_extra_settings extra = violations extra (sorted_keys extra)

abbrev header : String
header = "# spec.extraSettings\n"

setting_line : String → String → String
setting_line key value = key <> ("=" <> (value <> "\n"))

-- The loop of `renderExtraSettings`, with what the builder holds.
render_from : Settings → List String → String → String
render_from extra [] b = b
render_from extra (k ∷ ks) b =
    let skipped = render_from extra ks b in
    let started = if b == "" then b <> header else b in
    let written = render_from extra ks (started <> setting_line k (value_at extra k)) in
    if not (extra_setting_violation k (value_at extra k) == "") then skipped else written

unfoldable pub render_extra_settings : Settings → String
unfolding render_from setting_line
render_extra_settings [] = ""
render_extra_settings extra = render_from extra (sorted_keys extra) ""

-- `apiSpecOrDefault(s).Port`.
unfoldable pub api_port_of : PowerDnsServer → ℕ
api_port_of s = if nat_eq s.spec.api.port 0 then 8081 else s.spec.api.port

unfoldable pub pdns_config : PowerDnsServer → String
unfolding api_port_of
pdns_config s =
    "# managed by aether-powerdns\nlaunch=gpgsql\nlocal-address=0.0.0.0\nlocal-port=53\nwebserver=yes\nwebserver-address=0.0.0.0\nwebserver-port="
    <> (show_nat (api_port_of s)
        <> ("\nwebserver-allow-from=0.0.0.0/0,::/0\napi=yes\n# api-key, gpgsql-host, gpgsql-port, gpgsql-dbname, gpgsql-user, gpgsql-password\n# are passed on the command line (--api-key=$(PDNS_AUTH_API_KEY), ...) —\n# Secret-sourced env expanded by the kubelet, never written to this file.\n# Sane SOA for zones created out of band (API/pdnsutil): @ expands to\n# the zone name — never the upstream \"a.misconfigured...\" placeholder.\n# Zone-CR creations get an explicit SOA seeded by the operator anyway.\ndefault-soa-content=@ hostmaster.@ 0 10800 3600 604800 3600\nloglevel=4\n"
            <> render_extra_settings s.spec.extra_settings))

-- The entries of one secret, as they are written into the hash.
secret_feed : Settings → List String → String
secret_feed secret [] = ""
secret_feed secret (k ∷ ks) =
    k <> ((nul :: nil) <> (value_at secret k <> ((nul :: nil) <> secret_feed secret ks)))

secrets_feed : List Settings → String
unfolding secret_feed
secrets_feed [] = ""
secrets_feed (secret ∷ rest) = secret_feed secret (sorted_keys secret) <> secrets_feed rest

-- `ConfigHash`, over the hexadecimal SHA-256 digest.
unfoldable pub config_hash : (String → String) → String → List Settings → String
unfolding secrets_feed
config_hash digest conf secrets = slice (digest (conf <> secrets_feed secrets)) 0 16
