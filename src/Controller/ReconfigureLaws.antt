-- ===== src/Controller/ReconfigureLaws.antt =====
-- What `reconcileResourceConfig` leaves of the ports, of the nodes and of the GPUs' books.
use fa_st_gshare.Common.Int.{ℤ}
use fa_st_gshare.Common.Dict.{lookup}
use fa_st_gshare.Common.Float.{Floats}
use fa_st_gshare.Common.Outcome.{Outcome, returns, >>=-returns}
use fa_st_gshare.Common.{
  ◌+◌, ◌≡◌, ◌⊎◌, refl, Bool, Bool-cases, Option-cases, some, List, [], ◌∷◌, String, str_eq, inl,
  inr, subst, sym, ◌∙◌, ap, map,
}
use fa_st_gshare.Kube.{FastPod, Pod, get_text, pod_key, vgpu_uuid_name}
use fa_st_gshare.Proto.{Rpc}
use fa_st_gshare.Manager.State.{FastPodReq, GpuDevInfo, Node, Manager, put_gpu, put_node}
use fa_st_gshare.Manager.Queue.{find_in_queue, fast_pod_value, find_pod, find_in_queue-find_pod}
use fa_st_gshare.Manager.Validate.{Strconv, resource_validity_check}
use fa_st_gshare.Manager.Config.{update_pods_gpu_config}
use fa_st_gshare.Manager.Ports.{holds, holders, PortsBooked}
use fa_st_gshare.Manager.PortSafety.{EachNode, insert-EachNode, taken-PortsBooked}
use fa_st_gshare.Manager.EndToEnd.{same_value}
use fa_st_gshare.Nodes.Keeps.{Keeps, same_nodes-Keeps, trans-Keeps, insert-Keeps}
use fa_st_gshare.Controller.Reconfigure.{
  Reconfigured, put_entry, new_entry, reconfigure_entry, reconfigure_on, reconfigure_pod,
  reconcile_resource_config,
}

same_result {ℓ} : {A : Type ℓ} {a b : A} → ◌≡◌ {A = Outcome A} (returns a) (returns b) → a ≡ b
same_result e = cc

module _ {F : Type 0} where
  -- An entry that keeps its port does not change who holds a port.
  holders-put_entry :
      (p : ℤ) (key : String) (r' : FastPodReq F) (l : List (FastPodReq F)) {r : FastPodReq F}
      → find_pod key l ≡ some r
      → r'.gpu_client_port ≡ r.gpu_client_port
      → holders p (put_entry key r' l) ≡ holders p l
  unfolding find_pod put_entry
  holders-put_entry p key r' [] e same = cc
  holders-put_entry p key r' (x ∷ rest) {r = r} e same = elim (Bool-cases (str_eq x.key key)) [
    | inl here ↦
        let known : x ≡ r = same_value (rw (here, find_pod) at e) in
        rw (here, put_entry)
          (ap (λ z. holds p z + holders p rest)
            (same ∙ ap (λ (y : FastPodReq F). y.gpu_client_port) (sym known)))
    | inr later ↦
        let ih = holders-put_entry p key r' rest (rw (later, find_pod) at e) same in
        rw (later, put_entry) (ap (λ z. holds p x.gpu_client_port + z) ih)
  ]

  -- What a round does to the state: nothing, or one GPU has a new list with the same ports.
  pub record Rewrites (m m' : Manager F) : Type 0 where
    pub name : String
    pub id : String
    pub node : Node F
    pub gpu : GpuDevInfo F
    pub pods : List (FastPodReq F)
    pub at : lookup name m.nodes ≡ some node
    pub found : lookup id node.vgpu_id2_gpu ≡ some gpu
    pub held : (p : ℤ) → holders p pods ≡ holders p gpu.fast_pod_list
    pub manager_eq : put_node m name (put_gpu node id (record gpu { fast_pod_list = pods })) ≡ m'

module _ {F : Type 0} ⦃fl : Floats F⦄ where
  reconfigure_on-Rewrites :
      (conv : Strconv F) (rpc : Rpc) (update : Pod → Bool) (fp : FastPod) (m : Manager F) (p : Pod)
      (n : Node F) (g : GpuDevInfo F) {r : Reconfigured F}
      → lookup p.node_name m.nodes ≡ some n
      → lookup (get_text vgpu_uuid_name p.annotations) n.vgpu_id2_gpu ≡ some g
      → reconfigure_on conv rpc update fp m p n g ≡ returns r
      → (m ≡ r.manager) ⊎ Rewrites m r.manager
  unfolding reconfigure_on reconfigure_entry new_entry
  reconfigure_on-Rewrites conv rpc update fp m p n g at found e =
      let (o, looked, e1) =
        >>=-returns (find_in_queue (pod_key p) (map fast_pod_value g.fast_pod_list)) _ e in
      let listed : find_pod (pod_key p) g.fast_pod_list ≡ o =
        same_result (sym (find_in_queue-find_pod (pod_key p) g.fast_pod_list) ∙ looked) in
      elim (Option-cases o) [
        | inl missing ↦
            inl (ap (λ (k : Reconfigured F). k.manager) (same_result (rw missing at e1)))
        | inr (x, here) ↦ elim (Bool-cases (resource_validity_check conv p)) [
          | inr refused ↦
              inl (ap (λ (k : Reconfigured F). k.manager) (same_result (rw (here, refused) at e1)))
          | inl accepted ↦
              let (told, _, e2) =
                >>=-returns (update_pods_gpu_config rpc _ p.node_name g.uuid _) _
                  (rw (here, accepted) at e1) in
              inr (record {
                name = p.node_name;
                id = get_text vgpu_uuid_name p.annotations;
                node = n;
                gpu = g;
                pods = put_entry (pod_key p) (new_entry conv fp x) g.fast_pod_list;
                at = at;
                found = found;
                held = λ q.
                    holders-put_entry q (pod_key p) (new_entry conv fp x) g.fast_pod_list
                      (listed ∙ here) refl;
                manager_eq = ap (λ (k : Reconfigured F). k.manager) (same_result e2);
              })
        ]
      ]

  reconfigure_pod-Rewrites :
      (conv : Strconv F) (rpc : Rpc) (update : Pod → Bool) (fp : FastPod) (m : Manager F) (p : Pod)
      {r : Reconfigured F}
      → reconfigure_pod conv rpc update fp m p ≡ returns r
      → (m ≡ r.manager) ⊎ Rewrites m r.manager
  unfolding reconfigure_pod
  reconfigure_pod-Rewrites conv rpc update fp m p e =
      elim (Option-cases (lookup p.node_name m.nodes)) [
        | inl unknown ↦ inl (
            ap (λ (k : Reconfigured F). k.manager)
              (same_result (rw (unknown, reconfigure_pod) at e)))
        | inr (n, at) ↦
            elim (Option-cases (lookup (get_text vgpu_uuid_name p.annotations) n.vgpu_id2_gpu)) [
              | inl absent ↦ inl (
                  ap (λ (k : Reconfigured F). k.manager)
                    (same_result (rw (at, absent, reconfigure_pod) at e)))
              | inr (g, found) ↦
                  reconfigure_on-Rewrites conv rpc update fp m p n g at found
                    (rw (at, found, reconfigure_pod) at e)
            ]
      ]

  Rewrites-PortsBooked :
      (m m' : Manager F) → EachNode PortsBooked m → Rewrites m m' → EachNode PortsBooked m'
  Rewrites-PortsBooked m m' all w =
      let new : GpuDevInfo F = record w.gpu { fast_pod_list = w.pods } in
      let kept = (all w.name w.node w.at).valid in
      subst (λ (k : Manager F). EachNode PortsBooked k) w.manager_eq
        (insert-EachNode PortsBooked m w.name (put_gpu w.node w.id new) all (
          taken-PortsBooked w.node w.id w.gpu new w.node.daemon_port_alloc (all w.name w.node w.at)
            w.found (kept, λ p. inl (refl, w.held p))))

  Rewrites-Keeps : (m m' : Manager F) → Rewrites m m' → Keeps m m'
  Rewrites-Keeps m m' w =
      insert-Keeps m m' w.name w.node _ w.at (record { host = refl; client = refl })
        (
          ap (λ (k : Manager F). k.nodes) w.manager_eq,
          ap (λ (k : Manager F). k.nodes_liveness) w.manager_eq,
        )

  -- A relation that every round keeps holds after the loop.
  pub reconcile-Rounds :
      (P : Manager F → Manager F → Type 0)
      → ((m : Manager F) → P m m)
      → ((m1 m2 m3 : Manager F) → P m1 m2 → P m2 m3 → P m1 m3)
      → ((m m' : Manager F) → Rewrites m m' → P m m')
      → (conv : Strconv F) (rpc : Rpc) (update : Pod → Bool) (fp : FastPod) (m : Manager F)
        (pods : List Pod) {r : Reconfigured F}
      → reconcile_resource_config conv rpc update fp m pods ≡ returns r
      → P m r.manager
  unfolding reconcile_resource_config
  reconcile-Rounds P same trans step conv rpc update fp m [] e =
      subst (λ (k : Reconfigured F). P m k.manager) (same_result e) (same m)
  reconcile-Rounds P same trans step conv rpc update fp m (p ∷ rest) {r = r} e =
      let (a, went, e1) = >>=-returns (reconfigure_pod conv rpc update fp m p) _ e in
      let first : P m a.manager = elim (reconfigure_pod-Rewrites conv rpc update fp m p went) [
        | inl unchanged ↦ subst (λ k. P m k) unchanged (same m)
        | inr w ↦ step m a.manager w
      ] in
      elim (Bool-cases a.failed) [
        | inl stop ↦
            subst (λ (k : Reconfigured F). P m k.manager) (same_result (rw stop at e1)) first
        | inr go ↦
            let (b, after, e2) =
              >>=-returns (reconcile_resource_config conv rpc update fp a.manager rest) _
                (rw go at e1) in
            trans m a.manager r.manager first (
              subst (λ (k : Reconfigured F). P a.manager k.manager) (same_result e2)
                (reconcile-Rounds P same trans step conv rpc update fp a.manager rest after))
      ]

  pub reconcile-PortsBooked :
      (conv : Strconv F) (rpc : Rpc) (update : Pod → Bool) (fp : FastPod) (m : Manager F)
      (pods : List Pod) {r : Reconfigured F}
      → EachNode PortsBooked m
      → reconcile_resource_config conv rpc update fp m pods ≡ returns r
      → EachNode PortsBooked r.manager
  reconcile-PortsBooked conv rpc update fp m pods all e =
      reconcile-Rounds (λ a b. EachNode PortsBooked a → EachNode PortsBooked b) (λ a h. h)
        (λ a b c f g h. g (f h)) (λ a b w h. Rewrites-PortsBooked a b h w) conv rpc update fp m pods
        e all

  pub reconcile-Keeps :
      (conv : Strconv F) (rpc : Rpc) (update : Pod → Bool) (fp : FastPod) (m : Manager F)
      (pods : List Pod) {r : Reconfigured F}
      → reconcile_resource_config conv rpc update fp m pods ≡ returns r
      → Keeps m r.manager
  reconcile-Keeps conv rpc update fp m pods e =
      reconcile-Rounds Keeps (λ a. same_nodes-Keeps a a (refl, refl)) trans-Keeps Rewrites-Keeps
        conv rpc update fp m pods e
