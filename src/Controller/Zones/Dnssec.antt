-- ===== src/Controller/Zones/Dnssec.antt =====
-- `ensureDNSSEC` of internal/controller/zone_controller.go.
pub mod Keys
pub mod Signing
pub mod Settled
use aether_powerdns.Prelude.{
  String, Bool, true, false, List, [], ◌∷◌, ◌++◌, not, Result, Action, ◌>>=◌, ◌>>◌, return, any,
  if◌then◌else◌,
}
use aether_powerdns.Api.Zones.{Zone}
use aether_powerdns.Pdns.Types.{Cryptokey, Transport}
use aether_powerdns.Pdns.Client.{
  Client, list_cryptokeys, create_cryptokey, update_cryptokey, rectify_zone,
}

-- The loop that appends the DS records of the active keys.
unfoldable pub ds_of : List Cryptokey → List String
ds_of [] = []
ds_of (k ∷ ks) = if k.active then k.ds ++ ds_of ks else ds_of ks

-- The key that is created where there is none.
abbrev new_key : Cryptokey
new_key = record { id = 0; key_type = "csk"; active = true; ds = [] }

module _ (T : Transport) (pc : Client) (zone : String) where
  -- The loop that deactivates the active keys.
  unfoldable pub deactivate : List Cryptokey → Action T.State (Unit {0})
  deactivate [] = return tt
  deactivate (k ∷ ks) =
      let rest = deactivate ks in
      if not k.active
      then rest
      else update_cryptokey T pc zone (record k { active = false }) >> rest

  -- The first key is activated, or the first one made.
  activate : List Cryptokey → Action T.State (Unit {0})
  activate [] = do k ← create_cryptokey T pc zone new_key; return tt
  activate (k ∷ ks) = update_cryptokey T pc zone (record k { active = true })

  sign : List Cryptokey → Action T.State (List String)
  sign keys = do
    activate keys
    rectify_zone T pc zone
    now ← list_cryptokeys T pc zone
    return (ds_of now)

  with_keys : Bool → List Cryptokey → Action T.State (List String)
  with_keys enabled keys =
      if not enabled
      then deactivate keys >> return []
      else if not (any (λ k. k.active) keys)
      then sign keys
      else return (ds_of keys)

  unfoldable pub ensure_dnssec : Bool → Action T.State (List String)
  unfolding with_keys sign activate
  ensure_dnssec enabled = do keys ← list_cryptokeys T pc zone; with_keys enabled keys
