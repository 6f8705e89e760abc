-- ===== src/Controller/Objects.antt =====
-- `deleteIfExists` and `updateConfigMap` of internal/controller/converge.go.
pub mod Absence
pub mod Contents
use aether_powerdns.Prelude.{
  String, Bool, true, false, List, Result, ok, err, Error, api_not_found, no_match, is_kind, Action,
  ◌>>=◌, attempt, return, fail, ◌||◌, if◌then◌else◌,
}
use aether_powerdns.Controller.Services.{same_map}

-- The client of controller-runtime at one object.
pub record ObjectApi : Type 1 where
  pub State : Type 0
  pub get : State → Result (Unit {0})
  pub delete : Action State (Unit {0})

module _ (A : ObjectApi) where
  -- `client.IgnoreNotFound`.
  unfoldable pub ignore_absent : Result (Unit {0}) → Action A.State (Unit {0})
  ignore_absent (ok _) = return tt
  ignore_absent (err e) = if is_kind api_not_found e.kind then return tt else fail e

  -- With the answer to the Get.
  unfoldable pub delete_found : Result (Unit {0}) → Action A.State (Unit {0})
  delete_found (err e) = if is_kind no_match e.kind then return tt else ignore_absent (err e)
  delete_found (ok _) = do r ← attempt A.delete; ignore_absent r

  unfoldable pub delete_if_exists : Action A.State (Unit {0})
  unfolding delete_found ignore_absent
  delete_if_exists s = delete_found (A.get s) s

-- The client of controller-runtime at one ConfigMap, given by its data, and the function of
-- client-go that retries an update on a conflict.
pub record ConfigMapApi : Type 1 where
  pub State : Type 0
  pub get : State → Result (List (String × String))
  pub create : Action State (Unit {0})
  pub update : List (String × String) → Action State (Unit {0})
  pub retry : Action State (Unit {0}) → Action State (Unit {0})

module _ (A : ConfigMapApi) where
  -- The function that is retried: with the answer to its own Get, write the desired data.
  unfoldable pub replace_found :
      List (String × String) → Result (List (String × String)) → Action A.State (Unit {0})
  replace_found desired (err e) s = (err e, s)
  replace_found desired (ok live) s = A.update desired s

  unfoldable pub replace_data : List (String × String) → Action A.State (Unit {0})
  unfolding replace_found
  replace_data desired s = replace_found desired (A.get s) s

  -- With the answer to the Get.
  unfoldable pub with_config_map :
      List (String × String) → Result (List (String × String)) → Action A.State (Unit {0})
  with_config_map desired (err e) s =
      if is_kind api_not_found e.kind then A.create s else (err e, s)
  with_config_map desired (ok live) s =
      if same_map live desired then (ok tt, s) else A.retry (replace_data desired) s

  unfoldable pub update_config_map : List (String × String) → Action A.State (Unit {0})
  unfolding with_config_map replace_data
  update_config_map desired s = with_config_map desired (A.get s) s
