-- ===== src/Controller/Common.antt =====
-- What the reconcilers of internal/controller share: the delays, the reading of errors, and the
-- results of a pass.
use aether_powerdns.Prelude.{
  ℕ, String, true, false, Error, api_not_found, err_unreachable, is_kind, Action, return, fail,
  if◌then◌else◌,
}
use aether_powerdns.Api.Meta.{ReconcileResult}

abbrev pub requeue_short : ℕ
requeue_short = 5

abbrev pub requeue_long : ℕ
requeue_long = 30

abbrev pub resync_interval : ℕ
resync_interval = 300

abbrev pub done : ReconcileResult
done = record { requeue = false; requeue_after = 0 }

abbrev pub requeue_now : ReconcileResult
requeue_now = record { requeue = true; requeue_after = 0 }

abbrev pub requeue_in : ℕ → ReconcileResult
requeue_in after = record { requeue = false; requeue_after = after }

-- `ctrl.Result{}, client.IgnoreNotFound(err)`.
abbrev pub ignore_not_found : {W : Type 0} → Error → Action W ReconcileResult
ignore_not_found e = if is_kind api_not_found e.kind then return done else fail e

unfoldable pub api_reason : Error → String
api_reason e = if is_kind err_unreachable e.kind then "APIUnreachable" else "APIError"
