-- ===== src/Controller/Servers/Status.antt =====
-- How internal/controller/powerdnsserver_controller.go writes the status of a server: `setPhase`
-- and `setFailed`, with `setCondition` of internal/controller/conditions.go.
use aether_powerdns.Prelude.{String, ◌<>◌, Action, ◌>>◌, return}
use aether_powerdns.Api.Meta.{ConditionStatus, condition_true, condition_false, ReconcileResult}
use aether_powerdns.Api.Server.{PowerDnsServer, condition_ready, phase_failed}
use aether_powerdns.Controller.Common.{done, requeue_now}
use aether_powerdns.Controller.Kube.{Kube}
use aether_powerdns.Controller.Kube.Children.{within}
use aether_powerdns.Controller.World.{World, write, event, event_warning}

module _ (A : Kube) where
  -- What a pass changes: the cluster, and the events it records.
  abbrev pub Pass : Type 0 → Type 0
  Pass B = Action (World A.State (Unit {0})) B

  abbrev pub set_condition :
      PowerDnsServer → String → ConditionStatus → String → String → PowerDnsServer
  set_condition s type status reason message = record s {
    status = record s.status {
      conditions = A.set_status_condition s.status.conditions (record {
        type = type;
        status = status;
        reason = reason;
        message = message;
        observed_generation = s.meta.generation;
      });
    };
  }

  abbrev pub true_cond : PowerDnsServer → String → String → String → PowerDnsServer
  true_cond s type reason message = set_condition s type condition_true reason message

  abbrev pub false_cond : PowerDnsServer → String → String → String → PowerDnsServer
  false_cond s type reason message = set_condition s type condition_false reason message

  unfoldable pub set_phase : PowerDnsServer → String → Pass ReconcileResult
  set_phase s phase = do
    within ("update phase to " <> phase)
        (write (A.update_server_status (record s { status = record s.status { phase = phase } })))
    return requeue_now

  unfoldable pub set_failed : PowerDnsServer → String → Pass ReconcileResult
  set_failed s msg = do
    let s' =
        false_cond
          (record s { status = record s.status { phase = phase_failed; failure_message = msg } })
          condition_ready "Failed" msg
    write (A.update_server_status s')
    event event_warning "Failed" msg
    return done
