-- ===== src/Manager/Panics.antt =====
-- gpu_manager.go: requests and removals that end the process. `FindInQueue` asserts that each entry
-- is a `*FastPodReq`, also on the MPS list; the `podlist` of an exclusive pod's removal stays nil.
use fa_st_gshare.Common.Dict.{lookup}
use fa_st_gshare.Common.Float.{Floats}
use fa_st_gshare.Common.Outcome.{panics, >>=-panics}
use fa_st_gshare.Common.{◌≡◌, ◌≢◌, refl, some, [], String, arith}
use fa_st_gshare.Kube.{Pod, get_text, vgpu_uuid_name, allocation_type_name}
use fa_st_gshare.Types.{AllocationType, mps, fast_pod, exclusive, none_type, get_allocation_type}
use fa_st_gshare.Proto.{Rpc}
use fa_st_gshare.Bitmap.{Bitmap}
use fa_st_gshare.Manager.State.{GpuDevInfo, Node, Manager, ResourceRequest, SelectionResult}
use fa_st_gshare.Manager.Queue.{find_in_queue}
use fa_st_gshare.Manager.Request.{
  claim_type, place, place_mps, request_on, enable_mps_for, request_gpu_and_update_config,
}
use fa_st_gshare.Manager.Remove.{take_off, is_last, remove_from_gpu, remove_pod_from_list}

module _ {F : Type 0} ⦃fl : Floats F⦄ where
  claim_type-mps_pods :
      (req : ResourceRequest F) (g : GpuDevInfo F)
      → (claim_type req g).mps_pod_list ≡ g.mps_pod_list
  unfolding claim_type
  claim_type-mps_pods req g = ground arith

  place_mps-panics :
      (req : ResourceRequest F) (key : String) (ports : Bitmap) (g : GpuDevInfo F)
      → g.mps_pod_list ≢ []
      → place_mps req key ports g ≡ panics
  unfolding place_mps find_in_queue
  place_mps-panics req key ports g more = ground arith

  place-panics :
      (type : AllocationType) (req : ResourceRequest F) (key : String) (ports : Bitmap)
      (g : GpuDevInfo F)
      → type ≡ mps
      → g.mps_pod_list ≢ []
      → place type req key ports g ≡ panics
  unfolding place
  place-panics mps req key ports g t more = place_mps-panics req key ports g more
  place-panics fast_pod req key ports g t more = cc
  place-panics exclusive req key ports g t more = cc
  place-panics none_type req key ports g t more = cc

  request_on-panics :
      (rpc : Rpc) (m : Manager F) (sel : SelectionResult) (req : ResourceRequest F) (key : String)
      (n : Node F) (g : GpuDevInfo F)
      → req.allocation_type ≡ mps
      → g.mps_pod_list ≢ []
      → request_on rpc m sel req key n g ≡ panics
  unfolding request_on
  request_on-panics rpc m sel req key n g t more =
      >>=-panics (enable_mps_for rpc n g) _
        λ enabled. rw (place-panics req.allocation_type req key n.daemon_port_alloc g t more) refl

  -- An MPS request for a known GPU that has an MPS pod already panics.
  pub request_second_mps_pod :
      (rpc : Rpc) (m : Manager F) (sel : SelectionResult) (req : ResourceRequest F) (key : String)
      (n : Node F) (g : GpuDevInfo F)
      → lookup sel.node_name m.nodes ≡ some n
      → lookup sel.vgpu_uuid n.vgpu_id2_gpu ≡ some g
      → req.allocation_type ≡ mps
      → g.mps_pod_list ≢ []
      → request_gpu_and_update_config rpc m sel req key ≡ panics
  unfolding request_gpu_and_update_config
  request_second_mps_pod rpc m sel req key n g at found t more =
      rw (at, found, request_gpu_and_update_config)
        (request_on-panics rpc m sel req key n (claim_type req g) t
          (rw (claim_type-mps_pods req g) more))

  -- The removal of an exclusive pod from a known GPU of a known node panics.
  pub remove_exclusive_pod :
      (rpc : Rpc) (to_upper : String → String) (m : Manager F) (p : Pod) (n : Node F)
      (g : GpuDevInfo F)
      → lookup p.node_name m.nodes ≡ some n
      → lookup (get_text vgpu_uuid_name p.annotations) n.vgpu_id2_gpu ≡ some g
      → get_allocation_type to_upper (get_text allocation_type_name p.annotations) ≡ exclusive
      → remove_pod_from_list rpc to_upper m p ≡ panics
  unfolding remove_pod_from_list remove_from_gpu take_off is_last
  remove_exclusive_pod rpc to_upper m p n g at found t =
      rw (at, found, t, remove_pod_from_list) refl
