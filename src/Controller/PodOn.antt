-- ===== src/Controller/PodOn.antt =====
-- The pod that the function of `reconcileReplicas` creates, and its entry in the status.
use fa_st_gshare.Common.Dict.{Dict, lookup, insert, lookup-insert, lookup-insert_self}
use fa_st_gshare.Common.Float.{Floats}
use fa_st_gshare.Common.Outcome.{Outcome, returns, >>=-returns, deref}
use fa_st_gshare.Common.{
  ℕ, ◌==◌, ◌≡◌, true, false, Bool-cases, Option, none, some, List, ◌∷◌, ◌++◌, [], String, str_eq,
  arith, refl, ◌∙◌, ap, subst, inl, inr, if◌then◌else◌,
}
use fa_st_gshare.Kube.{FastPod, Pod, get_text, vgpu_uuid_name, allocation_type_name}
use fa_st_gshare.Manager.State.{SelectionResult, Allocation}
use fa_st_gshare.Manager.Request.{Requested}
use fa_st_gshare.Replicas.Batch.{Called}
use fa_st_gshare.Controller.NewPod.{
  PodSpec, NewPodParams, new_pod, quota_annotations, pod_annotations,
}
use fa_st_gshare.Controller.Create.{
  Created, created, namespace_terminating, create_failed, Creating, Surroundings, after_create,
  create_for, on_code,
}

pub same_result {ℓ} : {A : Type ℓ} {a b : A} → ◌≡◌ {A = Outcome A} (returns a) (returns b) → a ≡ b
same_result e = cc

pub true-false : false ≡ true → ⊥
true-false e = cc

deref-some {ℓ} : {A : Type ℓ} (o : Option A) {a : A} → deref o ≡ returns a → o ≡ some a
deref-some none e = cc
deref-some (some b) e = ap some (same_result e)

get_text-lookup :
    (k : String) (m : Dict String) {v : String} → lookup k m ≡ some v → get_text k m ≡ v
unfolding get_text
get_text-lookup k m e = rw (e, get_text) refl

-- A value that is written is read, also below another key.
get_text-insert :
    (k j v x : String) (m : Dict String)
    → str_eq j k ≡ false
    → get_text k (insert j v (insert k x m)) ≡ x
get_text-insert k j v x m other = get_text-lookup k (insert j v (insert k x m)) (
    lookup-insert j k v (insert k x m)
    ∙ ap (λ b. if b then some v else lookup k (insert k x m)) other
    ∙ lookup-insert_self k x m)

pod_annotations-vgpu :
    (fp : FastPod) (params : NewPodParams)
    → get_text vgpu_uuid_name (pod_annotations fp params) ≡ params.sched_vgpu_id
unfolding pod_annotations
pod_annotations-vgpu fp params =
    get_text-insert vgpu_uuid_name allocation_type_name
      (get_text allocation_type_name fp.annotations) params.sched_vgpu_id
      (quota_annotations fp params) refl

module _ {F : Type 0} ⦃fl : Floats F⦄ where
  -- The new pod, its place and its entry in the status.
  pub record PodOn (before : List Pod) (name : String) (sel : SelectionResult) (a : Allocation)
      (t : Creating F) : Type 0 where
    pub pod : Pod
    pub pods_eq : t.pods ≡ before ++ pod ∷ []
    pub pod_name : pod.name ≡ name
    pub pod_node : pod.node_name ≡ sel.node_name
    pub pod_vgpu : get_text vgpu_uuid_name pod.annotations ≡ a.uuid
    pub bound : lookup name t.bound_device_ids ≡ some sel.vgpu_uuid

  after_create-PodOn :
      (sel : SelectionResult) (a : Allocation) (p : Pod) (made : Created) (s : Creating F)
      → (after_create sel a p made s).0.has_pod ≡ true
      → p.node_name ≡ sel.node_name
      → get_text vgpu_uuid_name p.annotations ≡ a.uuid
      → PodOn s.pods p.name sel a (after_create sel a p made s).1
  unfolding after_create
  after_create-PodOn sel a p created s has node vgpu = record {
    pod = p;
    pods_eq = refl;
    pod_name = refl;
    pod_node = node;
    pod_vgpu = vgpu;
    bound = lookup-insert_self p.name sel.vgpu_uuid s.bound_device_ids;
  }
  after_create-PodOn sel a p namespace_terminating s has node vgpu = cc
  after_create-PodOn sel a p (create_failed text) s has node vgpu = cc

  create_for-PodOn :
      (env : Surroundings F) (fp : FastPod) (spec : PodSpec) (sel : SelectionResult) (name : String)
      (turn : ℕ) (a : Allocation) (s : Creating F)
      → (create_for env fp spec sel name turn a s).0.has_pod ≡ true
      → PodOn s.pods name sel a (create_for env fp spec sel name turn a s).1
  unfolding create_for new_pod
  create_for-PodOn env fp spec sel name turn a s has =
      after_create-PodOn sel a _ _ s has refl (pod_annotations-vgpu fp _)

  pub on_code-pod :
      (env : Surroundings F) (fp : FastPod) (spec : PodSpec) (sel : SelectionResult) (name : String)
      (turn : ℕ) (q : Requested F) (s : Creating F) {r : Called × Creating F}
      → on_code env fp spec sel name turn q s ≡ returns r
      → r.0.has_pod ≡ true
      → (q.code ≡ 0) × ((a : Allocation) × (q.allocation ≡ some a) × PodOn s.pods name sel a r.1)
  unfolding on_code
  on_code-pod env fp spec sel name turn q s {r = r} e has = elim (Bool-cases (q.code == 0)) [
    | inl ok ↦
        let (a, given, rest) = >>=-returns (deref q.allocation) _ (rw (ok, on_code) at e) in
        let made = same_result rest in
        let on =
          create_for-PodOn env fp spec sel name turn a _ (ap (λ k. k.0.has_pod) made ∙ has) in
        (
          ground (arith, ok),
          (
            a,
            deref-some q.allocation given,
            subst (λ (k : Called × Creating F). PodOn s.pods name sel a k.1) made on,
          ),
        )
    | inr bad ↦
        absurd (true-false (ap (λ k. k.0.has_pod) (same_result (rw (bad, on_code) at e)) ∙ has))
  ]
