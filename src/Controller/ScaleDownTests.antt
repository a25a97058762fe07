-- ===== src/Controller/ScaleDownTests.antt =====
-- Two pods, of which one or both are to go.
use fa_st_gshare.Common.Int.{pos}
use fa_st_gshare.Common.Outcome.{returns, panics}
use fa_st_gshare.Common.{ℕ, Bool, true, ◌≡◌, ◌⊎◌, length, refl, List, [], ◌∷◌, arith}
use fa_st_gshare.Kube.{Pod}
use fa_st_gshare.Manager.Example.{fixed_point}
use fa_st_gshare.Nodes.Example.{world, answers, ready, ready_reached}
use fa_st_gshare.Replicas.ScaleLaws.{every_pod}
use fa_st_gshare.Replicas.Example.{cluster, sorter, two_pods}
use fa_st_gshare.Controller.ScaleDown.{
  Deleting, Reached, delete_failed, finished, stuck, first_error, with_channel, scale_down,
}
use fa_st_gshare.Controller.ScaleDownLaws.{
  DeletedAll, all_errors, scale_down-finished, scale_down-stuck,
}

-- The API server refuses every deletion.
abbrev env : Reached
env = record { rpc = λ p. answers; to_upper = λ s. s; delete = λ p. delete_failed "forbidden" }

abbrev before : Deleting ℕ
before = record {
  manager = ready.manager;
  bound_device_ids = ("a", "GPU-1") ∷ ("b", "GPU-1") ∷ [];
  gpu_client_port = ("a", pos 56001) ∷ ("b", pos 56002) ∷ [];
  asked = [];
  errors = [];
}

scale_down-finished_example :
    (scale_down cluster sorter env (pos 9) two_pods 1 before ≡ panics)
    ⊎ ((pods : List Pod) × (t : Deleting ℕ) × (length pods ≡ 1)
        × ((p : Pod → Bool) → every_pod p two_pods ≡ true → every_pod p pods ≡ true)
        × (scale_down cluster sorter env (pos 9) two_pods 1 before
            ≡ returns (finished t (first_error (all_errors env pods))))
        × DeletedAll world ready.handlers env (with_channel before) pods t)
scale_down-finished_example =
    scale_down-finished cluster sorter env (pos 9) two_pods 1 before refl ready_reached
      (omega arith)

scale_down-stuck_example :
    scale_down cluster sorter env (pos 9) two_pods 2 before ≡ returns (stuck (with_channel before))
scale_down-stuck_example =
    scale_down-stuck cluster sorter env (pos 9) two_pods 2 before (omega arith) (omega arith)
