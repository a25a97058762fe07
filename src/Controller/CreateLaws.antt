-- ===== src/Controller/CreateLaws.antt =====
-- The creating branch of `reconcileReplicas` as steps of the controller manager.
use fa_st_gshare.Common.Float.{Floats}
use fa_st_gshare.Common.Outcome.{Outcome, returns, >>=-returns, deref}
use fa_st_gshare.Common.{
  ℕ, suc, ◌==◌, ◌≡◌, ◌⊎◌, true, false, Bool-cases, Option-cases, List, ◌∷◌, ◌++◌, [], String, refl,
  sym, ◌∙◌, ap, subst, inl, inr,
}
use fa_st_gshare.Kube.{FastPod, Pod, join_key}
use fa_st_gshare.Types.{is_none_type}
use fa_st_gshare.Manager.State.{ResourceRequest, SelectionResult, Allocation}
use fa_st_gshare.Manager.Validate.{get_pod_request_from_pod, validate_pod_request}
use fa_st_gshare.Manager.Schedule.{Selection, selected, rejected, schedule_request}
use fa_st_gshare.Manager.Request.{Requested, request_gpu_and_update_config}
use fa_st_gshare.Nodes.Cluster.{Cluster, World, Handler, Reach, later, schedule, request}
use fa_st_gshare.Replicas.Batch.{Called}
use fa_st_gshare.Controller.NewPod.{PodSpec}
use fa_st_gshare.Controller.Create.{
  Created, created, namespace_terminating, create_failed, Creating, Surroundings, nothing,
  new_pod_name, after_create, create_for, on_code, on_selection, create_requested, create_pod,
}

same_result {ℓ} : {A : Type ℓ} {a b : A} → ◌≡◌ {A = Outcome A} (returns a) (returns b) → a ≡ b
same_result e = cc

module _ {F : Type 0} ⦃fl : Floats F⦄ where
  -- The state of the controller manager while pods are created, with its other goroutines.
  abbrev pub cluster : List Handler → Creating F → Cluster F
  cluster hs s = record { manager = s.manager; handlers = hs }

  after_create-manager :
      (sel : SelectionResult) (a : Allocation) (p : Pod) (made : Created) (s : Creating F)
      → (after_create sel a p made s).1.manager ≡ s.manager
  unfolding after_create
  after_create-manager sel a p created s = refl
  after_create-manager sel a p namespace_terminating s = refl
  after_create-manager sel a p (create_failed text) s = refl

  create_for-manager :
      (env : Surroundings F) (fp : FastPod) (spec : PodSpec) (sel : SelectionResult) (name : String)
      (turn : ℕ) (a : Allocation) (s : Creating F)
      → (create_for env fp spec sel name turn a s).1.manager ≡ s.manager
  unfolding create_for
  create_for-manager env fp spec sel name turn a s = after_create-manager sel a _ _ s

  pub on_code-manager :
      (env : Surroundings F) (fp : FastPod) (spec : PodSpec) (sel : SelectionResult) (name : String)
      (turn : ℕ) (q : Requested F) (s : Creating F) {r : Called × Creating F}
      → on_code env fp spec sel name turn q s ≡ returns r
      → r.1.manager ≡ q.manager
  unfolding on_code
  on_code-manager env fp spec sel name turn q s e = elim (Bool-cases (q.code == 0)) [
    | inl ok ↦
        let (a, _, rest) = >>=-returns (deref q.allocation) _ (rw (ok, on_code) at e) in
        ap (λ k. k.1.manager) (sym (same_result rest))
        ∙ create_for-manager env fp spec sel name turn a _
    | inr bad ↦ ap (λ k. k.1.manager) (sym (same_result (rw (bad, on_code) at e)))
  ]

  -- The pods after a call: one more, which the call returns, or those before.
  abbrev pub Grown : Creating F → Called × Creating F → Type 0
  Grown s (c, t) =
      ((c.has_pod ≡ true) × ((p : Pod) × (t.pods ≡ s.pods ++ p ∷ [])))
      ⊎ ((c.has_pod ≡ false) × (t.pods ≡ s.pods))

  after_create-Grown :
      (sel : SelectionResult) (a : Allocation) (p : Pod) (made : Created) (s : Creating F)
      → Grown s (after_create sel a p made s)
  unfolding after_create
  after_create-Grown sel a p created s = inl (refl, (p, refl))
  after_create-Grown sel a p namespace_terminating s = inr (refl, refl)
  after_create-Grown sel a p (create_failed text) s = inr (refl, refl)

  create_for-Grown :
      (env : Surroundings F) (fp : FastPod) (spec : PodSpec) (sel : SelectionResult) (name : String)
      (turn : ℕ) (a : Allocation) (s : Creating F)
      → Grown s (create_for env fp spec sel name turn a s)
  unfolding create_for
  create_for-Grown env fp spec sel name turn a s = after_create-Grown sel a _ _ s

  on_code-Grown :
      (env : Surroundings F) (fp : FastPod) (spec : PodSpec) (sel : SelectionResult) (name : String)
      (turn : ℕ) (q : Requested F) (s : Creating F) {r : Called × Creating F}
      → on_code env fp spec sel name turn q s ≡ returns r
      → Grown s r
  unfolding on_code
  on_code-Grown env fp spec sel name turn q s e = elim (Bool-cases (q.code == 0)) [
    | inl ok ↦
        let (a, _, rest) = >>=-returns (deref q.allocation) _ (rw (ok, on_code) at e) in
        subst (λ k. Grown s k) (same_result rest) (create_for-Grown env fp spec sel name turn a _)
    | inr bad ↦ subst (λ k. Grown s k) (same_result (rw (bad, on_code) at e)) (inr (refl, refl))
  ]

  -- What a call does to the system and to the pods.
  abbrev pub Progress : World → List Handler → Creating F → Called × Creating F → Type 0
  Progress w hs s r = Reach w (cluster hs r.1) × Grown s r

  on_selection-Progress :
      {w : World} {hs : List Handler} (env : Surroundings F) (fp : FastPod) (spec : PodSpec)
      (req : ResourceRequest F) (turn : ℕ) (chosen : Selection) (s : Creating F)
      {r : Called × Creating F}
      → Reach w (cluster hs s)
      → on_selection env fp spec req turn chosen s ≡ returns r
      → Progress w hs s r
  unfolding on_selection
  on_selection-Progress {w = w} {hs = hs} env fp spec req turn (rejected x) s reached e =
      subst (λ k. Progress w hs s k) (same_result e) (reached, inr (refl, refl))
  on_selection-Progress {w = w} {hs = hs} env fp spec req turn (selected sel) s {r = r} reached e =
      let name = new_pod_name env fp turn in
      let key = join_key fp.namespace name in
      let (q, asked, rest) =
        >>=-returns (request_gpu_and_update_config (env.rpc turn) s.manager sel req key)
          (λ q. on_code env fp spec sel name turn q s) e in
      (
        subst (λ k. Reach w (record { manager = k; handlers = hs }))
            (sym (on_code-manager env fp spec sel name turn q s rest))
            (later reached (request (env.rpc turn) sel req key asked)),
        on_code-Grown env fp spec sel name turn q s rest,
      )

  create_requested-Progress :
      {w : World} {hs : List Handler} (env : Surroundings F) (fp : FastPod) (spec : PodSpec)
      (req : ResourceRequest F) (turn : ℕ) (s : Creating F) {r : Called × Creating F}
      → Reach w (cluster hs s)
      → create_requested env fp spec req turn s ≡ returns r
      → Progress w hs s r
  unfolding create_requested
  create_requested-Progress {w = w} {hs = hs} env fp spec req turn s {r = r} reached e =
      let unchanged : Progress w hs s (nothing, s) = (reached, inr (refl, refl)) in
      let P : Called × Creating F → Type 0 = λ k. Progress w hs s k in
      elim (Option-cases (validate_pod_request req)) [
        | inr (invalid, bad) ↦ subst P (same_result (rw (bad, create_requested) at e)) unchanged
        | inl valid ↦ elim (Bool-cases (is_none_type req.allocation_type)) [
          | inl none_given ↦
              subst P (same_result (rw (valid, none_given, create_requested) at e)) unchanged
          | inr given ↦
              let (x, offered, rest) =
                >>=-returns (schedule_request (env.rpc turn) s.manager req) _
                  (rw (valid, given, create_requested) at e) in
              on_selection-Progress env fp spec req turn x.selection
                (record s { manager = x.manager })
                (later reached (schedule (env.rpc turn) req offered)) rest
        ]
      ]

  pub create_pod-Progress :
      {w : World} {hs : List Handler} (env : Surroundings F) (fp : FastPod) (spec : PodSpec)
      (s : Creating F) {r : Called × Creating F}
      → Reach w (cluster hs s)
      → create_pod env fp spec s ≡ returns r
      → Progress w hs s r
  unfolding create_pod
  create_pod-Progress {w = w} {hs = hs} env fp spec s {r = r} reached e =
      let P : Called × Creating F → Type 0 = λ k. Progress w hs s k in
      elim (Option-cases (get_pod_request_from_pod env.conv fp)) [
        | inl missing ↦
            subst P (same_result (rw (missing, create_pod) at e)) (reached, inr (refl, refl))
        | inr (req, read) ↦
            create_requested-Progress env fp spec req s.turn (record s { turn = suc s.turn })
              reached (rw (read, create_pod) at e)
      ]
