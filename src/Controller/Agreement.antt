-- ===== src/Controller/Agreement.antt =====
-- The collector looks for the profile of a workload where the controller writes it.
use kapprofiler.Base.{
  >>=-eq-some, ◌≡◌, true, false, String, some, arith, ◌∙◌, ap, ◌==◌, string_comparable, to_lower,
  if_false, Bool, sym, ◌>>=◌,
}
use kapprofiler.Kubernetes.{Cluster, OwnerReference, Resource, pod_kind, replica_set_kind}
use kapprofiler.Collector.Exists.{
  above_replica_set, highest_owner, profile_key, does_application_profile_exist, has_profile,
}
use kapprofiler.Controller.Defs.{profile_name, deployment_of, first_owner, if_deployment}
use kapprofiler.Controller.Owners.{
  Writes, for_owner, for_deployment, IsKubernetes, FirstControls, controller_kind-to_lower,
  controller_kind-replicaset, workload_of-first, Behind-controller_of, profile_key-profile_name,
  not_replicas, lower_deployment,
}

module _ (cluster : Cluster) (rules : IsKubernetes cluster) (firsts : FirstControls cluster) where
  -- The first step up from a pod.
  highest_owner-first :
      (namespace pod_name : String) (pod : Resource) (owner : OwnerReference)
      → cluster.get pod_kind namespace pod_name ≡ some pod
      → first_owner pod.owner_references ≡ some owner
      → highest_owner cluster namespace pod_name
        ≡ above_replica_set cluster namespace (owner.kind, owner.name)
  unfolding highest_owner
  highest_owner-first namespace pod_name pod owner h k =
      rw (h, highest_owner)
        (ap (above_replica_set cluster namespace) (
          workload_of-first ("Pod", pod_name) pod.owner_references owner k
            (firsts pod_kind namespace pod_name pod owner h k)))

  above_replica_set-other :
      (namespace : String) (own : String × String)
      → (own.0 == "ReplicaSet") ≡ false
      → above_replica_set cluster namespace own ≡ some own
  unfolding above_replica_set
  above_replica_set-other namespace own h = if_false (own.0 == "ReplicaSet") _ (some own) h

  above_replica_set-replicas :
      (namespace : String) (name : String) (replicas : Resource) (owner : OwnerReference)
      → cluster.get replica_set_kind namespace name ≡ some replicas
      → first_owner replicas.owner_references ≡ some owner
      → above_replica_set cluster namespace ("ReplicaSet", name) ≡ some (owner.kind, owner.name)
  unfolding above_replica_set
  above_replica_set-replicas namespace name replicas owner h k =
      rw (h, above_replica_set)
        (ap some (
          workload_of-first ("ReplicaSet", name) replicas.owner_references owner k
            (firsts replica_set_kind namespace name replicas owner h k)))

  -- What `deployment_of` finds.
  Deployment-deployment_of :
      (namespace name : String) (replicas : Resource) (deployment : OwnerReference)
      → deployment_of cluster namespace name ≡ some (replicas, deployment)
      → (cluster.get replica_set_kind namespace name ≡ some replicas)
        × ((first_owner replicas.owner_references ≡ some deployment)
            × (deployment.kind ≡ "Deployment"))
  unfolding deployment_of
  Deployment-deployment_of namespace name replicas deployment h =
      let (found, a) = >>=-eq-some (cluster.get replica_set_kind namespace name) _ _ h in
      let (first, b) = >>=-eq-some (first_owner found.owner_references) _ _ a.1 in
      let (owner, c) = >>=-eq-some (if_deployment first) _ _ b.1 in
      ground (arith, a.0, b.0, c, string_comparable.equal_iff first.kind "Deployment")

  highest_owner-Writes :
      (namespace pod_name kind name : String) (pod : Resource)
      → cluster.get pod_kind namespace pod_name ≡ some pod
      → Writes cluster pod kind name
      → (own : String × String) × ((highest_owner cluster namespace pod_name ≡ some own)
          × ((to_lower own.0 ≡ kind) × (own.1 ≡ name)))
  highest_owner-Writes namespace pod_name kind name pod h
        (for_owner owned found other same_kind same_name) =
      let b = Behind-controller_of cluster pod owned found in
      let lower = controller_kind-to_lower b.owner.kind owned.kind b.kind b.prefix ∙ same_kind in
      let its_name = sym (rules.named b.kind pod.namespace b.owner.name b.workload b.got) in
      (
        (b.owner.kind, b.owner.name),
        (
          highest_owner-first namespace pod_name pod b.owner h b.first
              ∙ above_replica_set-other namespace (b.owner.kind, b.owner.name)
                  (not_replicas b.owner.kind kind lower other),
          (lower, its_name ∙ b.same_name ∙ same_name),
        ),
      )
  highest_owner-Writes namespace pod_name kind name pod h
        (for_deployment owned replicas deployment found replica_kind above same_kind same_name) =
      let b = Behind-controller_of cluster pod owned found in
      let d = Deployment-deployment_of pod.namespace owned.name replicas deployment above in
      let kinds =
        controller_kind-replicaset b.owner.kind b.kind
          (b.prefix ∙ ap (λ p. some (b.kind, p)) replica_kind) in
      let its_name =
        sym (rules.named b.kind pod.namespace b.owner.name b.workload b.got) ∙ b.same_name in
      let place = rules.within pod_kind namespace pod_name pod h in
      let got : cluster.get replica_set_kind namespace b.owner.name ≡ some replicas =
        (λ i. cluster.get replica_set_kind (sym place i) (its_name i)) ∙ d.0 in
      (
        (deployment.kind, deployment.name),
        (
          highest_owner-first namespace pod_name pod b.owner h b.first
              ∙ ap (λ k. above_replica_set cluster namespace (k, b.owner.name)) kinds.0
              ∙ above_replica_set-replicas namespace b.owner.name replicas deployment got d.1.0,
          (ap to_lower d.1.1 ∙ lower_deployment ∙ same_kind, same_name),
        ),
      )

  -- Let the API server return objects of the name and the namespace that it was asked for, and let
  -- the first owner reference of every object be that of its controller: the controller of profiles
  -- reads the first reference, the collector the first one that controls. Let a pod be owned by a
  -- deployment through a replica set, or by a workload of another of the kinds that the controller
  -- knows, and let the name of that owner be in lower case. Then the collector's question whether
  -- the profile of the pod's highest owner exists is about the namespace and the name under which
  -- the controller writes the profile of that owner.
  pub does_application_profile_exist-Writes :
      (store namespace pod_name kind name : String) (check_final : Bool) (pod : Resource)
      → cluster.get pod_kind namespace pod_name ≡ some pod
      → Writes cluster pod kind name
      → to_lower name ≡ name
      → does_application_profile_exist cluster store namespace pod_name check_final true
        ≡ has_profile cluster check_final (profile_name store pod.namespace kind name)
  unfolding does_application_profile_exist
  does_application_profile_exist-Writes store namespace pod_name kind name check_final pod h w
        lower =
      let (own, a) = highest_owner-Writes namespace pod_name kind name pod h w in
      let own_lower = ap to_lower a.1.1 ∙ lower ∙ sym a.1.1 in
      let place = rules.within pod_kind namespace pod_name pod h in
      ap (λ o. o >>= λ w'. has_profile cluster check_final (profile_key store namespace w')) a.0
      ∙ ap (has_profile cluster check_final) (
          profile_key-profile_name store namespace own.0 own.1 kind a.1.0 own_lower
          ∙ (λ i. profile_name store (sym place i) kind (a.1.1 i)))
