-- ===== src/Manager/Ports.antt =====
-- The client ports of a node: at most one listed pod holds a port, and its bit is then set. What
-- follows is about one port `p`, any integer; the bitmap counts from `GPUClientPortStart`.
use fa_st_gshare.Common.Int.{ℤ, pos, negsuc, ◌+ℤ◌, eqb_ℤ}
use fa_st_gshare.Common.Dict.{Dict, lookup, insert, erase}
use fa_st_gshare.Common.Float.{Floats}
use fa_st_gshare.Common.Outcome.{returns}
use fa_st_gshare.Common.{
  ℕ, suc, ◌+◌, ◌-◌, ltb, ap, sym, ◌≤◌, ◌≡◌, ◌⊎◌, refl, false, some, List, [], ◌∷◌, ◌++◌, String,
  str_eq, arith, Bool-cases, inl, inr, subst, ◌∙◌, if◌then◌else◌, ◌==◌,
}
use fa_st_gshare.Bitmap.{Bitmap, find_first_unset_and_set}
use fa_st_gshare.Bitmap.Laws.{IsValid, bit, bit-le-one}
use fa_st_gshare.Bitmap.Search.{find_first_unset_and_set_lem, find_first_unset_and_set-IsValid}
use fa_st_gshare.Types.{AllocationType, mps, fast_pod, exclusive, none_type}
use fa_st_gshare.Manager.State.{
  FastPodReq, GpuDevInfo, Node, ResourceRequest, FastPodRequirements, gpu_client_port_start,
}
use fa_st_gshare.Manager.Request.{
  placed, place, place_fast_pod, place_exclusive, with_pod, with_mps_pod, pod_entry,
}
use fa_st_gshare.Manager.Books.{place_mps-placed, place_fast_pod-placed, place_new_fast_pod-placed}

-- 1 when the pod's port is `p`, and 0 otherwise.
abbrev pub holds : ℤ → ℤ → ℕ
holds p port = if eqb_ℤ port p then 1 else 0

-- The bit of a port; a port below `GPUClientPortStart` has none.
unfoldable pub port_bit : Bitmap → ℤ → ℕ
port_bit b (negsuc n) = 0
port_bit b (pos n) = if ltb n gpu_client_port_start then 0 else bit b (n - gpu_client_port_start)

pub port_bit-le-one : (b : Bitmap) (p : ℤ) → port_bit b p ≤ 1
unfolding port_bit
port_bit-le-one b (negsuc n) = omega arith
port_bit-le-one b (pos n) = ground (arith, bit-le-one b (n - gpu_client_port_start))

pub port_bit-at : (b : Bitmap) (q : ℕ) → port_bit b (pos (q + gpu_client_port_start)) ≡ bit b q
unfolding port_bit
port_bit-at b q =
    let same : q + gpu_client_port_start - gpu_client_port_start ≡ q = omega arith in
    rw (above q, port_bit, same) refl
  where
    above : (q : ℕ) → ltb (q + gpu_client_port_start) gpu_client_port_start ≡ false
    above q = ground arith

-- A port is one of the bitmap, or none of the bitmap's ports and without a bit.
pub port_cases :
    (p : ℤ)
    → ((q : ℕ) × (p ≡ pos (q + gpu_client_port_start)))
      ⊎ (((b : Bitmap) → port_bit b p ≡ 0)
          × ((q : ℕ) → holds p (pos (q + gpu_client_port_start)) ≡ 0))
unfolding port_bit
port_cases (negsuc n) = inr (λ b. refl, λ q. ground arith)
port_cases (pos n) = elim (Bool-cases (ltb n gpu_client_port_start)) [
  | inl low ↦ inr (λ b. rw (low, port_bit) refl, λ q. ground arith)
  | inr high ↦ inl (n - gpu_client_port_start, ap pos (ground arith))
]

module _ {F : Type 0} where
  abbrev pub holders : ℤ → List (FastPodReq F) → ℕ
  holders p [] = 0
  holders p (r ∷ rest) = holds p r.gpu_client_port + holders p rest

  -- The pods of the node that hold port `p`.
  abbrev pub node_holders : ℤ → Dict (GpuDevInfo F) → ℕ
  node_holders p [] = 0
  node_holders p ((id, g) ∷ rest) = holders p g.fast_pod_list + node_holders p rest

  holders-snoc :
      (p : ℤ) (xs : List (FastPodReq F)) (r : FastPodReq F)
      → holders p (xs ++ r ∷ []) ≡ holders p xs + holds p r.gpu_client_port
  holders-snoc p [] r = omega arith
  holders-snoc p (x ∷ xs) r = omega (arith, holders-snoc p xs r)

  -- Writing a GPU back exchanges its pods.
  pub node_holders-insert :
      (p : ℤ) (id : String) (g g' : GpuDevInfo F) (d : Dict (GpuDevInfo F))
      → lookup id d ≡ some g
      → node_holders p (insert id g' d) + holders p g.fast_pod_list
        ≡ node_holders p d + holders p g'.fast_pod_list
  node_holders-insert p id g g' [] e = cc
  node_holders-insert p id g g' ((i, h) ∷ rest) e = elim (Bool-cases (str_eq i id)) [
    | inl here ↦ ground arith
    | inr later ↦ ground (arith, node_holders-insert p id g g' rest)
  ]

  pub erase-le :
      (p : ℤ) (id : String) (d : Dict (GpuDevInfo F))
      → node_holders p (erase id d) ≤ node_holders p d
  erase-le p id [] = omega arith
  erase-le p id ((i, h) ∷ rest) = ground (arith, erase-le p id rest)

  -- Every port, of whatever number, is held at most once, and only when its bit is set.
  pub record PortsBooked (n : Node F) : Type 0 where
    pub valid : IsValid n.daemon_port_alloc
    pub held : (p : ℤ) → node_holders p n.vgpu_id2_gpu ≤ port_bit n.daemon_port_alloc p

-- What placing a pod does to the ports and to the pods of its GPU: nothing, or one pod more, on a
-- port whose bit was not set and now is.
abbrev pub TakesPort : {F : Type 0} → ℤ → Bitmap → GpuDevInfo F → Bitmap → GpuDevInfo F → Type 0
TakesPort p ports g ports' g' =
    ((port_bit ports' p ≡ port_bit ports p)
      × (holders p g'.fast_pod_list ≡ holders p g.fast_pod_list))
    ⊎ ((port_bit ports p ≡ 0)
        × (port_bit ports' p ≡ 1)
        × (holders p g'.fast_pod_list ≡ suc (holders p g.fast_pod_list)))

start_above : (q : ℕ) → pos q +ℤ pos gpu_client_port_start ≡ pos (q + gpu_client_port_start)
unfolding ◌+ℤ◌
start_above q = ground arith

-- The number of a port that `q` stands for is `q`.
holds-pos :
    (p q : ℕ)
    → holds (pos (p + gpu_client_port_start)) (pos q +ℤ pos gpu_client_port_start)
      ≡ (if q == p then 1 else 0)
unfolding ◌+ℤ◌
holds-pos p q = ground arith

-- What taking port number `q` does to port `p`, from what it does to the bits.
taken_bit :
    (p : ℤ) (q : ℕ) (ports ports' : Bitmap)
    → bit ports q ≡ 0
    → ((k : ℕ) → bit ports' k ≡ (if q == k then 1 else bit ports k))
    → let port = pos q +ℤ pos gpu_client_port_start in
      ((port_bit ports' p ≡ port_bit ports p) × (holds p port ≡ 0))
      ⊎ ((port_bit ports p ≡ 0) × (port_bit ports' p ≡ 1) × (holds p port ≡ 1))
taken_bit p q ports ports' unset bits = elim (port_cases p) [
  | inr (stray, other) ↦
      inl (stray ports' ∙ sym (stray ports), ap (holds p) (start_above q) ∙ other q)
  | inl (k, at) ↦
      rw (at, port_bit-at ports k, port_bit-at ports' k)
        (elim (Bool-cases (q == k)) [
          | inl same ↦ inr (ground arith, bits k ∙ rw same refl, holds-pos k q ∙ rw same refl)
          | inr other ↦ inl (bits k ∙ rw other refl, holds-pos k q ∙ rw other refl)
        ])
]

-- The port that a bitmap hands out, as a number.
taken-TakesPort :
    (p : ℤ) (ports : Bitmap)
    → IsValid ports
    → eqb_ℤ (find_first_unset_and_set ports).1 (negsuc 0) ≡ false
    → let (ports', z) = find_first_unset_and_set ports in
      ((port_bit ports' p ≡ port_bit ports p) × (holds p (z +ℤ pos gpu_client_port_start) ≡ 0))
      ⊎ ((port_bit ports p ≡ 0)
          × (port_bit ports' p ≡ 1)
          × (holds p (z +ℤ pos gpu_client_port_start) ≡ 1))
taken-TakesPort p ports v e = elim (find_first_unset_and_set_lem ports v) [
  | inl (full, _) ↦ absurd (ground arith)
  | inr (q, _, unset, z, bits) ↦
      rw z (taken_bit p q ports (find_first_unset_and_set ports).0 unset bits)
]

module _ {F : Type 0} ⦃fl : Floats F⦄ where
  holders-with_pod :
      (p : ℤ) (req : ResourceRequest F) (r : FastPodRequirements F) (key : String) (port : ℤ)
      (g : GpuDevInfo F)
      → holders p (with_pod req r key port g).fast_pod_list
        ≡ holders p g.fast_pod_list + holds p port
  unfolding with_pod
  holders-with_pod p req r key port g = holders-snoc p g.fast_pod_list (pod_entry req r key port)

  holders-with_mps_pod :
      (p : ℤ) (req : ResourceRequest F) (key : String) (g : GpuDevInfo F)
      → holders p (with_mps_pod req key g).fast_pod_list ≡ holders p g.fast_pod_list
  unfolding with_mps_pod
  holders-with_mps_pod p req key g = refl

  -- Placing keeps the bitmap valid, and takes at most one port, which no bit had reserved.
  abbrev pub Takes : Bitmap → GpuDevInfo F → Bitmap → GpuDevInfo F → Type 0
  Takes ports g ports' g' = IsValid ports' × ((p : ℤ) → TakesPort p ports g ports' g')

  same-Takes :
      (ports : Bitmap) (g : GpuDevInfo F) {ports' : Bitmap} (g' : GpuDevInfo F)
      → IsValid ports
      → ports ≡ ports'
      → ((p : ℤ) → holders p g'.fast_pod_list ≡ holders p g.fast_pod_list)
      → Takes ports g ports' g'
  same-Takes ports g g' v e h = rw (← e) (v, λ p. inl (refl, h p))

  new_pod-Takes :
      (req : ResourceRequest F) (r : FastPodRequirements F) (key : String) (ports : Bitmap)
      (g : GpuDevInfo F)
      → IsValid ports
      → eqb_ℤ (find_first_unset_and_set ports).1 (negsuc 0) ≡ false
      → let (ports', z) = find_first_unset_and_set ports in
        Takes ports g ports' (with_pod req r key (z +ℤ pos gpu_client_port_start) g)
  new_pod-Takes req r key ports g v found = (
    (find_first_unset_and_set-IsValid ports v).0,
    λ p.
        let port = (find_first_unset_and_set ports).1 +ℤ pos gpu_client_port_start in
        elim (taken-TakesPort p ports v found) [
          | inl (bits, free) ↦ inl (bits, omega (arith, holders-with_pod p req r key port g))
          | inr (unset, bits, held) ↦
              inr (unset, bits, omega (arith, holders-with_pod p req r key port g))
        ],
  )

  place_fast_pod-Takes :
      (req : ResourceRequest F) (key : String) (ports : Bitmap) (g : GpuDevInfo F) {ports' : Bitmap}
      {g' : GpuDevInfo F} {port : ℤ}
      → IsValid ports
      → place_fast_pod req key ports g ≡ returns (placed ports' g' port)
      → Takes ports g ports' g'
  place_fast_pod-Takes req key ports g {ports' = ports'} {g' = g'} {port = port} v e =
      elim (place_fast_pod-placed req key ports g e) [
        | inl (pod, _, same, same_gpu, _) ↦ same-Takes ports g g' v same (λ p. rw same_gpu refl)
        | inr (r, _, _, new) ↦
            let (_, _, found, ports_eq, port_eq, added) =
              place_new_fast_pod-placed req r key ports g new in
            subst (Takes ports g ports') added (
              subst (λ q. Takes ports g ports' (with_pod req r key q g)) port_eq
                (subst
                  (λ b. Takes ports g b (
                    with_pod req r key
                      ((find_first_unset_and_set ports).1 +ℤ pos gpu_client_port_start) g))
                  ports_eq (new_pod-Takes req r key ports g v found)))
      ]

  -- Placing a pod of any type.
  pub place-Takes :
      (type : AllocationType) (req : ResourceRequest F) (key : String) (ports : Bitmap)
      (g : GpuDevInfo F) {ports' : Bitmap} {g' : GpuDevInfo F} {port : ℤ}
      → IsValid ports
      → place type req key ports g ≡ returns (placed ports' g' port)
      → Takes ports g ports' g'
  unfolding place place_exclusive
  place-Takes mps req key ports g {g' = g'} v e =
      let (same, cases) = place_mps-placed req key ports g e in
      same-Takes ports g g' v same λ p. elim cases [
        | inl same_gpu ↦ rw same_gpu refl
        | inr (_, added) ↦ rw (← added) (holders-with_mps_pod p req key g)
      ]
  place-Takes exclusive req key ports g {g' = g'} v e =
      same-Takes ports g g' v (ground arith) (λ p. ground arith)
  place-Takes fast_pod req key ports g v e = place_fast_pod-Takes req key ports g v e
  place-Takes none_type req key ports g v e = place_fast_pod-Takes req key ports g v e
