-- ===== src/Controller/ScaleDown.antt =====
-- controller.go: the branch of `reconcileReplicas` that deletes pods.
use fa_st_gshare.Common.Int.{ℤ}
use fa_st_gshare.Common.Dict.{Dict, erase}
use fa_st_gshare.Common.Float.{Floats}
use fa_st_gshare.Common.Outcome.{Outcome, returns, ◌>>=◌}
use fa_st_gshare.Common.{
  ℕ, ◌==◌, length, Option, none, some, List, [], ◌∷◌, ◌++◌, map, String, if◌then◌else◌,
}
use fa_st_gshare.Kube.{Pod}
use fa_st_gshare.Proto.{Rpc}
use fa_st_gshare.Manager.State.{Manager}
use fa_st_gshare.Manager.Remove.{remove_pod_from_list}
use fa_st_gshare.Replicas.Pods.{Ranked}
use fa_st_gshare.Replicas.Order.{Cluster}
use fa_st_gshare.Replicas.Scale.{Sorter, get_pods_to_delete, chosen_pods}

-- What the API server answers to the deletion of a pod.
pub data Deleted : Type 0 where
  deleted not_found : Deleted
  delete_failed : String → Deleted

-- The package's state, the maps of the FaSTPod's status, the pods whose deletion was asked for and
-- the channel `errCh`, in the order of the sends.
pub record Deleting (F : Type 0) : Type 0 where
  pub manager : Manager F
  pub bound_device_ids : Dict String
  pub gpu_client_port : Dict ℤ
  pub asked : List Pod
  pub errors : List String

-- What the goroutines reach: configurators, `strings.ToUpper` and the API server.
pub record Reached : Type 0 where
  pub rpc : Pod → Rpc
  pub to_upper : String → String
  pub delete : Pod → Deleted

abbrev pub errors_of : Deleted → List String
errors_of deleted = []
errors_of not_found = []
errors_of (delete_failed text) = text ∷ []

-- How the branch ends, and the error that it returns. `stuck` is a `wg.Wait()` that no `Done` can
-- end: the mutex `fstp2PodsMtx` stays locked.
pub data ScaledDown (F : Type 0) : Type 0 where
  finished : Deleting F → Option String → ScaledDown F
  stuck : Deleting F → ScaledDown F

-- `select { case err := <-errCh: … default: }`
abbrev pub first_error : List String → Option String
first_error [] = none
first_error (e ∷ rest) = some e

abbrev pub pods_of : List Ranked → List Pod
pods_of l = map (λ (r : Ranked). r.pod) l

module _ {F : Type 0} ⦃fl : Floats F⦄ where
  -- One goroutine. An error of the API server does not end it: the status and, deferred, the lists
  -- of the GPU lose the pod in each case.
  unfoldable pub delete_pod : Reached → Deleting F → Pod → Outcome (Deleting F)
  delete_pod env s p = do
    r ← remove_pod_from_list (env.rpc p) env.to_upper s.manager p
    returns (record {
      manager = r.manager;
      bound_device_ids = erase p.name s.bound_device_ids;
      gpu_client_port = erase p.name s.gpu_client_port;
      asked = s.asked ++ p ∷ [];
      errors = s.errors ++ errors_of (env.delete p);
    })

  -- The goroutines one after the other, each to its end.
  unfoldable pub delete_pods : Reached → Deleting F → List Pod → Outcome (Deleting F)
  delete_pods env s [] = returns s
  delete_pods env s (p ∷ rest) = do t ← delete_pod env s p; delete_pods env t rest

  -- `errCh := make(chan error, diff)`
  abbrev pub with_channel : Deleting F → Deleting F
  with_channel s = record s { errors = [] }

  -- `wg.Add(diff)`, a goroutine and its `Done` for each chosen pod, `wg.Wait()` and the error. The
  -- code calls `Done` before the removal, which may end after the branch returned.
  unfoldable pub scale_down :
      Cluster → Sorter → Reached → ℤ → List Pod → ℕ → Deleting F → Outcome (ScaledDown F)
  scale_down cl sorter env now existed diff s = do
    let pods = pods_of (chosen_pods (get_pods_to_delete cl sorter now existed diff))
    t ← delete_pods env (with_channel s) pods
    returns (if length pods == diff then finished t (first_error t.errors) else stuck t)
