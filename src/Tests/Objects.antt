-- ===== src/Tests/Objects.antt =====
-- Deletions and ConfigMaps (internal/controller/converge.go) at concrete data.
use aether_powerdns.Prelude.{
  String, Bool, true, false, List, [], ◌∷◌, Option, none, some, ok, err, Error, api_not_found, ◌≡◌,
  refl, err-ne-ok, sym, inl,
}
use aether_powerdns.Controller.Objects.{
  ObjectApi, ignore_absent, delete_found, delete_if_exists, ConfigMapApi, replace_found,
  replace_data, with_config_map, update_config_map,
}
use aether_powerdns.Controller.Objects.Absence.{IsGone, DeletesAtOnce, delete_if_exists-IsGone}
use aether_powerdns.Controller.Objects.Contents.{
  IsStored, StoresConfigMaps, update_config_map-IsStored,
}

abbrev missing : Error
missing = record { kind = api_not_found; text = "not found" }

-- A cluster that holds one object, or none.
abbrev objects : ObjectApi
objects = record {
  State = Bool;
  get = λ s. elim s [ true ↦ ok tt | false ↦ err missing ];
  delete = λ s. elim s [ true ↦ (ok tt, false) | false ↦ (err missing, false) ];
}

nothing_left : IsGone objects false
nothing_left = record { error = missing; answer = refl; absent = inl refl }

deleted : delete_if_exists objects true ≡ (ok tt, false)
unfolding delete_if_exists delete_found ignore_absent
deleted = refl

delete-IsGone : (s : Bool) → (objects.delete s).0 ≡ ok tt → IsGone objects (objects.delete s).1
delete-IsGone true h = nothing_left
delete-IsGone false h = nothing_left

no_delete-IsGone :
    (s : Bool) (e : Error) → (objects.delete s).0 ≡ err e → IsGone objects (objects.delete s).1
no_delete-IsGone true e h = nothing_left
no_delete-IsGone false e h = nothing_left

abbrev objects_delete : DeletesAtOnce objects
objects_delete = record {
  after_success = delete-IsGone;
  after_not_found = λ s e h missing_kind. no_delete-IsGone s e h;
}

delete_if_exists-IsGone_example :
    ((delete_if_exists objects true).0 ≡ ok tt → IsGone objects (delete_if_exists objects true).1)
    × (IsGone objects true → delete_if_exists objects true ≡ (ok tt, true))
delete_if_exists-IsGone_example = delete_if_exists-IsGone objects objects_delete true

abbrev rendered : List (String × String)
rendered = ("pdns.conf", "api=yes\n") ∷ []

abbrev stale : List (String × String)
stale = ("pdns.conf", "api=no\n") ∷ []

-- A cluster that holds one ConfigMap, or none; an update does not meet a conflict, and a create
-- leaves what is there as it is, like `ensureOwned`.
abbrev config_maps : ConfigMapApi
config_maps = record {
  State = Option (List (String × String));
  get = λ s. elim s [ none ↦ err missing | some found ↦ ok found ];
  create = λ s. elim s [ none ↦ (ok tt, some rendered) | some found ↦ (ok tt, some found) ];
  update = λ new s. (ok tt, some new);
  retry = λ a s. a s;
}

converged : update_config_map config_maps rendered (some stale) ≡ (ok tt, some rendered)
unfolding update_config_map with_config_map replace_data replace_found
converged = refl

created_absent :
    (s : Option (List (String × String))) (x : Error)
    → config_maps.get s ≡ err x
    → config_maps.get (config_maps.create s).1 ≡ ok rendered
created_absent none x e = refl
created_absent (some found) x e = absurd (err-ne-ok (sym e))

abbrev config_maps_store : StoresConfigMaps config_maps rendered
config_maps_store = record {
  created = λ s x absent missing_kind h. created_absent s x absent;
  updated = λ s h. refl;
  retried = λ a s h. (s, refl);
}

update_config_map-IsStored_example :
    ((update_config_map config_maps rendered (some stale)).0 ≡ ok tt
      → IsStored config_maps rendered (update_config_map config_maps rendered (some stale)).1)
    × (IsStored config_maps rendered (some stale)
        → update_config_map config_maps rendered (some stale) ≡ (ok tt, some stale))
update_config_map-IsStored_example =
    update_config_map-IsStored config_maps rendered config_maps_store (some stale)
