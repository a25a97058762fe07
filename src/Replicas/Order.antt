-- ===== src/Replicas/Order.antt =====
-- controller_util.go: `ActivePodsWithRanks.Less`, which pod of two is deleted first.
use fa_st_gshare.Common.Text.{text_less}
use fa_st_gshare.Common.Int.{ℤ, pos, negsuc, int64, ltb_ℤ, eqb_ℤ, ◌-ℤ◌}
use fa_st_gshare.Common.{
  ℕ, ltb, ◌==◌, Bool, false, not, ◌&&◌, ◌||◌, List, [], ◌∷◌, String, str_eq, if◌then◌else◌,
}
use fa_st_gshare.Kube.{PodPhase, pending, unknown, running, succeeded, failed, Pod, Condition}
use fa_st_gshare.Replicas.Pods.{Ranked}

-- What the comparison calls: k8s.io's `IsPodReady` and the deletion cost of a pod, the feature
-- gates, `time.Time.Sub` in nanoseconds and `int64(math.Log2(float64(d)))` of a positive `d`.
pub record Cluster : Type 0 where
  pub is_pod_ready : Pod → Bool
  pub deletion_cost : Pod → ℤ
  pub pod_deletion_cost_enabled : Bool
  pub logarithmic_scale_down_enabled : Bool
  pub sub : ℤ → ℤ → ℤ
  pub log2 : ℤ → ℤ

-- `podPhaseToOrdinal[phase]`: a phase that is not in the map reads 0.
abbrev pub phase_ordinal : PodPhase → ℕ
phase_ordinal pending = 0
phase_ordinal unknown = 1
phase_ordinal running = 2
phase_ordinal succeeded = 0
phase_ordinal failed = 0

-- `t.IsZero()`: 0 is the zero time.
abbrev pub is_zero : ℤ → Bool
is_zero t = eqb_ℤ t (pos 0)

-- `afterOrZero`
unfoldable pub after_or_zero : ℤ → ℤ → Bool
after_or_zero t1 t2 = if is_zero t1 || is_zero t2 then is_zero t1 else ltb_ℤ t2 t1

-- The first condition `Ready` that is true.
unfoldable pub ready_since : List Condition → ℤ
ready_since [] = pos 0
ready_since (c ∷ rest) =
    let later = ready_since rest in
    if c.is_ready_type && c.status_true then c.last_transition else later

abbrev int_max : ℤ → ℤ → ℤ
int_max a b = if ltb_ℤ a b then b else a

abbrev restarts_from : ℤ → List ℤ → ℤ
restarts_from most [] = most
restarts_from most (n ∷ rest) = restarts_from (int_max most n) rest

-- `maxContainerRestarts`
unfoldable pub max_container_restarts : Pod → ℤ
max_container_restarts p = restarts_from (pos 0) p.restart_counts

-- `if rankDiff == 0 { return uid1 < uid2 }; return rankDiff < 0`
abbrev pub by_difference : ℤ → String → String → Bool
by_difference diff uid1 uid2 =
    if eqb_ℤ diff (pos 0) then text_less uid1 uid2 else ltb_ℤ diff (pos 0)

module _ (cl : Cluster) where
  -- `podReadyTime`
  unfoldable pub pod_ready_time : Pod → ℤ
  pod_ready_time p = if cl.is_pod_ready p then ready_since p.conditions else pos 0

  abbrev pub log_rank : ℤ → ℤ
  log_rank d = if ltb_ℤ (pos 0) d then cl.log2 d else negsuc 0

  -- `logarithmicRankDiff`
  unfoldable pub logarithmic_rank_diff : ℤ → ℤ → ℤ → ℤ
  logarithmic_rank_diff t1 t2 now = int64 (log_rank (cl.sub now t1) -ℤ log_rank (cl.sub now t2))

  -- The ranks of two times, ties by UID; rules 6 and 8 share it.
  unfoldable pub ranked : ℤ → ℤ → ℤ → String → String → Bool
  ranked now t1 t2 uid1 uid2 = by_difference (logarithmic_rank_diff t1 t2 now) uid1 uid2

  unfoldable pub younger : ℤ → ℤ → ℤ → String → String → Bool
  younger now t1 t2 uid1 uid2 =
      if not cl.logarithmic_scale_down_enabled
      then after_or_zero t1 t2
      else if is_zero now || is_zero t1 || is_zero t2
      then after_or_zero t1 t2
      else ranked now t1 t2 uid1 uid2

  -- Rule 8.
  unfoldable pub less_by_creation : ℤ → Pod → Pod → Bool
  less_by_creation now p q =
      if eqb_ℤ p.creation_timestamp q.creation_timestamp
      then false
      else younger now p.creation_timestamp q.creation_timestamp p.uid q.uid

  -- Rules 7 and 8.
  unfoldable pub less_by_restarts : ℤ → Pod → Pod → Bool
  less_by_restarts now p q =
      if eqb_ℤ (max_container_restarts p) (max_container_restarts q)
      then less_by_creation now p q
      else ltb_ℤ (max_container_restarts q) (max_container_restarts p)

  -- Rules 6 to 8.
  unfoldable pub less_by_ready_time : ℤ → Pod → Pod → Bool
  less_by_ready_time now p q =
      if cl.is_pod_ready p && cl.is_pod_ready q && not (eqb_ℤ (pod_ready_time p) (pod_ready_time q))
      then younger now (pod_ready_time p) (pod_ready_time q) p.uid q.uid
      else less_by_restarts now p q

  -- Rules 5 to 8.
  unfoldable pub less_by_rank : ℤ → Ranked → Ranked → Bool
  less_by_rank now a b =
      if a.rank == b.rank then less_by_ready_time now a.pod b.pod else ltb b.rank a.rank

  -- Rules 4 to 8.
  unfoldable pub less_by_cost : ℤ → Ranked → Ranked → Bool
  less_by_cost now a b =
      let i = cl.deletion_cost a.pod in
      let j = cl.deletion_cost b.pod in
      if cl.pod_deletion_cost_enabled && not (eqb_ℤ i j) then ltb_ℤ i j else less_by_rank now a b

  -- Rules 3 to 8.
  unfoldable pub less_by_ready : ℤ → Ranked → Ranked → Bool
  less_by_ready now a b =
      let i = cl.is_pod_ready a.pod in
      let j = cl.is_pod_ready b.pod in
      if (i && not j) || (j && not i) then not i else less_by_cost now a b

  -- Rules 2 to 8.
  unfoldable pub less_by_phase : ℤ → Ranked → Ranked → Bool
  less_by_phase now a b =
      let i = phase_ordinal a.pod.phase in
      let j = phase_ordinal b.pod.phase in if i == j then less_by_ready now a b else ltb i j

  -- `Less`
  unfoldable pub less : ℤ → Ranked → Ranked → Bool
  less now a b =
      let i = a.pod.node_name in
      let j = b.pod.node_name in
      if not (str_eq i j) && (str_eq i "" || str_eq j "")
      then str_eq i ""
      else less_by_phase now a b
