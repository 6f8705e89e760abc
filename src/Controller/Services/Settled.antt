-- ===== src/Controller/Services/Settled.antt =====
-- What `updateService` of internal/controller/converge.go keeps of a live Service, and its pass
-- over a Service that it converged.
use mathlib.Core.List.{Memᴰ}
use aether_powerdns.Prelude.{
  String, Bool, true, List, [], ◌∷◌, some, ◌==◌, ◌||◌, ◌&&◌, ◌≢◌, eq_false-of-ne, if◌then◌else◌,
  eq_refl, nat_eq_iff, find?, map, lookup, ◌≡◌, refl, sym, ap, ◌∙◌, ok, arith, Bool-cases, inl, inr,
}
use aether_powerdns.Controller.Services.{
  ServicePort, ServiceSpec, Service, service_ports_match, carry_node_port, updated_service,
  same_port, same_ports, same_spec, ServiceApi, with_existing, converge_service,
}
use aether_powerdns.Controller.Services.Ports.{
  AreApart, CompletedPorts, carry_completed, plain_completed, carried-CompletedPorts,
}
use aether_powerdns.Controller.Services.Annotations.{
  said, lookup-merge_annotations, said_again, same_map-of-lookup,
}

-- A Service whose type has node ports.
abbrev pub has_node_ports : Service → Bool
has_node_ports s = s.spec.type == "LoadBalancer" || s.spec.type == "NodePort"

-- What an update keeps of the live Service.
pub record IsKept (desired live updated : Service) : Type 0 where
  -- An annotation that is not desired stays; one that is has the desired value.
  pub annotation :
      (k : String)
      → lookup k updated.annotations ≡ said desired.annotations k (lookup k live.annotations)
  pub foreign : updated.spec.foreign ≡ live.spec.foreign
  -- A port that asks for no node port has that of the first live port that matches it.
  pub node_port :
      (p ep : ServicePort)
      → has_node_ports desired ≡ true
      → Memᴰ p desired.spec.ports
      → p.node_port ≡ 0
      → find? (λ e. service_ports_match e p) live.spec.ports ≡ some ep
      → Memᴰ (record p { node_port = ep.node_port }) updated.spec.ports

mem-map : {A B : Type 0} (f : A → B) (xs : List A) (x : A) → Memᴰ x xs → Memᴰ (f x) (map f xs)
mem-map f [] x m = elim m [ ]
mem-map f (y ∷ xs) x (Memᴰ.head e) = Memᴰ.head (ap f e)
mem-map f (y ∷ xs) x (Memᴰ.tail m) = Memᴰ.tail (mem-map f xs x m)

carried :
    (existing : List ServicePort) (p ep : ServicePort)
    → p.node_port ≡ 0
    → find? (λ e. service_ports_match e p) existing ≡ some ep
    → carry_node_port existing p ≡ record p { node_port = ep.node_port }
unfolding carry_node_port
carried existing p ep unset found = rw ((nat_eq_iff p.node_port 0).1 unset, found) refl

-- Updating a live Service keeps the annotations and the fields that others set, and the node
-- ports that were assigned to the ports it asks for.
pub updated_service-IsKept :
    (desired live : Service) → IsKept desired live (updated_service desired live)
unfolding updated_service
updated_service-IsKept desired live = record {
  annotation = lookup-merge_annotations desired.annotations live.annotations;
  foreign = refl;
  node_port = λ p ep typed m unset found.
      rw (typed, sym (carried live.spec.ports p ep unset found))
        (mem-map (carry_node_port live.spec.ports) desired.spec.ports p m);
}

same_port_refl : (p : ServicePort) → same_port p p ≡ true
same_port_refl p = ground (
  arith,
  eq_refl p.name,
  eq_refl p.protocol,
  nat_eq_iff p.port p.port,
  nat_eq_iff p.target_port p.target_port,
  nat_eq_iff p.node_port p.node_port,
)

same_ports_refl : (ps : List ServicePort) → same_ports ps ps ≡ true
same_ports_refl [] = refl
same_ports_refl (p ∷ ps) = rw (same_port_refl p, same_ports_refl ps) refl

same_spec_refl : (a : ServiceSpec) → same_spec a a ≡ true
unfolding same_spec
same_spec_refl a =
    rw
      (
        same_ports_refl a.ports,
        same_map-of-lookup a.selector a.selector (λ k. refl),
        same_map-of-lookup a.foreign a.foreign (λ k. refl),
        eq_refl a.type,
        eq_refl a.load_balancer_ip,
        eq_refl a.external_traffic_policy,
        eq_refl a.cluster_ip,
      )
      refl

-- What the documentation of Kubernetes says of a Service `a` that was stored and is read as `b`: the
-- server may assign node ports and a ClusterIP, fill fields that were not written, and default the
-- traffic policy where there are node ports, and others may have added annotations since.
pub record IsCompletion (a b : Service) : Type 0 where
  pub ports : CompletedPorts (has_node_ports a) a.spec.ports b.spec.ports
  pub selector : b.spec.selector ≡ a.spec.selector
  pub type : b.spec.type ≡ a.spec.type
  pub load_balancer_ip : b.spec.load_balancer_ip ≡ a.spec.load_balancer_ip
  pub policy : b.spec.external_traffic_policy ≡ (
      if has_node_ports a && a.spec.external_traffic_policy == ""
      then "Cluster"
      else a.spec.external_traffic_policy)
  pub annotation :
      (k v : String) → lookup k a.annotations ≡ some v → lookup k b.annotations ≡ some v

module _ (desired live got : Service)
    (complete : IsCompletion (updated_service desired live) got) where
  ports_settled :
      AreApart desired.spec.ports → (updated_service desired got).spec.ports ≡ got.spec.ports
  unfolding updated_service
  ports_settled apart = elim (Bool-cases (has_node_ports desired)) [
    | inl typed ↦
        let ports : CompletedPorts true (map (carry_node_port live.spec.ports) desired.spec.ports)
            got.spec.ports =
          rw typed at complete.ports in
        rw typed (
          carry_completed desired.spec.ports got.spec.ports apart
            (carried-CompletedPorts live.spec.ports desired.spec.ports got.spec.ports ports))
    | inr plain ↦
        rw plain (plain_completed desired.spec.ports got.spec.ports (rw plain at complete.ports))
  ]

  policy_settled :
      (has_node_ports desired ≡ true → desired.spec.external_traffic_policy ≢ "")
      → desired.spec.external_traffic_policy ≡ got.spec.external_traffic_policy
  unfolding updated_service
  policy_settled given = elim (Bool-cases (has_node_ports desired)) [
    | inl typed ↦ sym (
        rw (typed, eq_false-of-ne desired.spec.external_traffic_policy "" (given typed)) at
          complete.policy)
    | inr plain ↦ sym (rw plain at complete.policy)
  ]

  spec_settled :
      AreApart desired.spec.ports
      → (has_node_ports desired ≡ true → desired.spec.external_traffic_policy ≢ "")
      → (updated_service desired got).spec ≡ got.spec
  unfolding updated_service ports_settled
  spec_settled apart given =
      rw
        (
          ports_settled apart,
          policy_settled given,
          sym complete.selector,
          sym complete.type,
          sym complete.load_balancer_ip,
        )
        refl

  annotations_settled :
      (k : String) → lookup k got.annotations ≡ lookup k (updated_service desired got).annotations
  unfolding updated_service
  annotations_settled k = sym (
      lookup-merge_annotations desired.annotations got.annotations k
      ∙ said_again desired.annotations live.annotations got.annotations k (complete.annotation k))

  -- A Service that was updated, as the cluster has completed it, is found as desired.
  pub converge_service_settled :
      (A : ServiceApi) (s : A.State)
      → AreApart desired.spec.ports
      → (has_node_ports desired ≡ true → desired.spec.external_traffic_policy ≢ "")
      → A.get (record { namespace = desired.namespace; name = desired.name }) s ≡ ok got
      → converge_service A desired s ≡ (ok tt, s)
  unfolding converge_service with_existing
  converge_service_settled A s apart given found =
      rw
        (
          found,
          ap (same_spec got.spec) (spec_settled apart given) ∙ same_spec_refl got.spec,
          same_map-of-lookup got.annotations (updated_service desired got).annotations
              annotations_settled,
        )
        refl
