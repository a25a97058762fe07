-- ===== src/Manager/RoundTrip.antt =====
-- A FastPod that is booked and then removed leaves the pods, the memory and the ports of before.
use fa_st_gshare.Common.Int.{
  ℤ, pos, negsuc, pos_part, neg_part, int64, int64_self, ◌+ℤ◌, ◌-ℤ◌, +ℤ_parts, -ℤ_parts,
  eq_of_parts, eqb_ℤ,
}
use fa_st_gshare.Common.Float.{Floats}
use fa_st_gshare.Common.Outcome.{returns, >>=-returns}
use fa_st_gshare.Common.{
  ℕ, ◌+◌, ◌≡◌, refl, ap, sym, false, none, some, List, [], ◌∷◌, ◌++◌, String, arith, inl, inr,
  subst, ◌∙◌, eq_refl,
}
use fa_st_gshare.Bitmap.{Bitmap, find_first_unset_and_set, clear_at}
use fa_st_gshare.Bitmap.Laws.{IsValid, bit, bit-clear_at}
use fa_st_gshare.Bitmap.Search.{find_first_unset_and_set_lem, find_first_unset_and_set-IsValid}
use fa_st_gshare.Proto.{Rpc}
use fa_st_gshare.Manager.State.{
  FastPodReq, GpuDevInfo, Manager, FastPodRequirements, ResourceRequest, gpu_client_port_start,
}
use fa_st_gshare.Manager.Config.{update_pods_gpu_config}
use fa_st_gshare.Manager.Queue.{find_pod}
use fa_st_gshare.Manager.Request.{placed, place_fast_pod, with_pod, pod_entry}
use fa_st_gshare.Manager.Remove.{
  TakenOff, remove_fast_pod, free_port, without_fast_pod, take_off_fast_pod,
}
use fa_st_gshare.Manager.Books.{
  IsBooked, IsAddable, booked_memory, exact_sum, place_new_fast_pod-placed, place_fast_pod-placed,
}
use fa_st_gshare.Manager.EndToEnd.{none-some}

module _ {F : Type 0} where
  -- The entry at the end is the one that a removal finds, and it alone goes.
  find_pod-snoc :
      (key : String) (l : List (FastPodReq F)) (r : FastPodReq F)
      → find_pod key l ≡ none
      → r.key ≡ key
      → find_pod key (l ++ r ∷ []) ≡ some r
  unfolding find_pod
  find_pod-snoc key [] r e k = ground (arith, eq_refl key)
  find_pod-snoc key (x ∷ l) r e k = ground (arith, find_pod-snoc key l r)

  remove_fast_pod-snoc :
      (key : String) (l : List (FastPodReq F)) (r : FastPodReq F)
      → find_pod key l ≡ none
      → r.key ≡ key
      → remove_fast_pod key (l ++ r ∷ []) ≡ l
  unfolding find_pod remove_fast_pod
  remove_fast_pod-snoc key [] r e k = ground (arith, eq_refl key)
  remove_fast_pod-snoc key (x ∷ l) r e k = ground (arith, remove_fast_pod-snoc key l r)

-- The difference of a sum that does not wrap around.
sub_added : (n : ℕ) (z : ℤ) → neg_part z ≡ 0 → pos (n + pos_part z) -ℤ z ≡ pos n
sub_added n z h = eq_of_parts _ _ (omega (arith, -ℤ_parts (pos (n + pos_part z)) z, h))

sub_start : (z : ℤ) → (z +ℤ pos gpu_client_port_start) -ℤ pos gpu_client_port_start ≡ z
sub_start z = eq_of_parts _ _ (
    omega (
      arith,
      -ℤ_parts (z +ℤ pos gpu_client_port_start) (pos gpu_client_port_start),
      +ℤ_parts z (pos gpu_client_port_start),
    ))

-- A port that is found, set and then cleared.
cleared_again :
    (ports : Bitmap) (p : ℕ)
    → IsValid ports
    → eqb_ℤ (find_first_unset_and_set ports).1 (negsuc 0) ≡ false
    → let (ports', z) = find_first_unset_and_set ports in bit (clear_at ports' z).0 p ≡ bit ports p
cleared_again ports p v e = elim (find_first_unset_and_set_lem ports v) [
  | inl (full, _) ↦ absurd (ground arith)
  | inr (q, inside, unset, z, bits) ↦ rw z (
      ground (
        arith,
        unset,
        bits p,
        bit-clear_at (find_first_unset_and_set ports).0 q p
            (find_first_unset_and_set-IsValid ports v).0
            (omega (arith, inside, (find_first_unset_and_set-IsValid ports v).1)),
      ))
]

module _ {F : Type 0} ⦃fl : Floats F⦄ where
  -- What a removal of the last entry leaves.
  without_fast_pod-with_pod :
      (req : ResourceRequest F) (r : FastPodRequirements F) (key : String) (port : ℤ)
      (g : GpuDevInfo F)
      → IsBooked g
      → IsAddable req
      → find_pod key g.fast_pod_list ≡ none
      → let g' = without_fast_pod key (pod_entry req r key port) (with_pod req r key port g) in
        (g'.fast_pod_list ≡ g.fast_pod_list) × (g'.usage_mem ≡ g.usage_mem)
  unfolding without_fast_pod with_pod
  without_fast_pod-with_pod req r key port g b a new = (
    remove_fast_pod-snoc key g.fast_pod_list (pod_entry req r key port) new refl,
    ap (λ z. int64 (z -ℤ req.memory)) (exact_sum req g b a)
        ∙ ap int64 (sub_added (booked_memory g) req.memory a.memory_nonneg)
        ∙ int64_self (pos (booked_memory g)) (omega (arith, b.limit, b.mem_bound))
        ∙ sym b.total,
  )

  take_off_found :
      (rpc : Rpc) (m : Manager F) (name key : String) (ports : Bitmap) (g : GpuDevInfo F)
      (r : FastPodReq F) {t : TakenOff F}
      → find_pod key g.fast_pod_list ≡ some r
      → take_off_fast_pod rpc m name key ports g ≡ returns t
      → (free_port r ports ≡ t.ports) × (without_fast_pod key r g ≡ t.gpu)
  unfolding take_off_fast_pod
  take_off_found rpc m name key ports g r found e =
      let (sent, _, done) =
        >>=-returns
          (update_pods_gpu_config rpc m name g.uuid (some (without_fast_pod key r g).fast_pod_list))
          _ (rw (found, take_off_fast_pod) at e) in
      (cc, cc)

  -- The bit of the port that the removed pod held.
  freed_port :
      (ports : Bitmap) (r : FastPodReq F) (p : ℕ)
      → IsValid ports
      → eqb_ℤ (find_first_unset_and_set ports).1 (negsuc 0) ≡ false
      → (find_first_unset_and_set ports).1 +ℤ pos gpu_client_port_start ≡ r.gpu_client_port
      → bit (free_port r (find_first_unset_and_set ports).0) p ≡ bit ports p
  unfolding free_port
  freed_port ports r p v free port_eq =
      let (ports', z) = find_first_unset_and_set ports in
      ap (λ w. bit (clear_at ports' (w -ℤ pos gpu_client_port_start)).0 p) (sym port_eq)
      ∙ ap (λ w. bit (clear_at ports' w).0 p) (sub_start z)
      ∙ cleared_again ports p v free

  -- A FastPod that is placed anew, under a key that its GPU does not list, is found by the removal
  -- of that key; when the removal comes back, the GPU's pods and its memory in use are those of
  -- before the placing, and so is the bit of every client port.
  pub take_off-place :
      (rpc : Rpc) (m : Manager F) (name key : String) (req : ResourceRequest F) (ports : Bitmap)
      (g : GpuDevInfo F) {ports' : Bitmap} {g' : GpuDevInfo F} {port : ℤ} {t : TakenOff F}
      → IsValid ports
      → IsBooked g
      → IsAddable req
      → find_pod key g.fast_pod_list ≡ none
      → place_fast_pod req key ports g ≡ returns (placed ports' g' port)
      → take_off_fast_pod rpc m name key ports' g' ≡ returns t
      → (t.gpu.fast_pod_list ≡ g.fast_pod_list)
        × (t.gpu.usage_mem ≡ g.usage_mem)
        × ((p : ℕ) → bit t.ports p ≡ bit ports p)
  unfolding with_pod
  take_off-place rpc m name key req ports g {ports' = ports'} {g' = g'} {port = port} {t = t} v b a
        new by off =
      elim (place_fast_pod-placed req key ports g by) [
        | inl (pod, old, _, _, _) ↦ absurd (none-some (sym new ∙ old))
        | inr (r, _, _, fresh) ↦
            let (_, _, free, taken, port_eq, added) =
              place_new_fast_pod-placed req r key ports g fresh in
            let found : find_pod key g'.fast_pod_list ≡ some (pod_entry req r key port) =
              subst
                (λ (x : GpuDevInfo F).
                  find_pod key x.fast_pod_list ≡ some (pod_entry req r key port))
                added (find_pod-snoc key g.fast_pod_list (pod_entry req r key port) new refl) in
            let (pods, memory) = without_fast_pod-with_pod req r key port g b a new in
            let (freed, left) = take_off_found rpc m name key ports' g' _ found off in
            (
              ap (λ (x : GpuDevInfo F). x.fast_pod_list) (sym left)
                  ∙ ap (λ x. (without_fast_pod key (pod_entry req r key port) x).fast_pod_list)
                      (sym added)
                  ∙ pods,
              ap (λ (x : GpuDevInfo F). x.usage_mem) (sym left)
                  ∙ ap (λ x. (without_fast_pod key (pod_entry req r key port) x).usage_mem)
                      (sym added)
                  ∙ memory,
              λ p.
                  ap (λ x. bit x p) (sym freed)
                  ∙ ap (λ x. bit (free_port (pod_entry req r key port) x) p) (sym taken)
                  ∙ freed_port ports (pod_entry req r key port) p v free port_eq,
            )
      ]
