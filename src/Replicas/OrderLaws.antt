-- ===== src/Replicas/OrderLaws.antt =====
-- `Less` prefers at most one of two pods, which a sort by it needs.
use fa_st_gshare.Common.Text.{text_less-asymmetric}
use fa_st_gshare.Common.Int.{ℤ, int64_self, IsInt64, eqb_ℤ, ◌-ℤ◌, pos_part, neg_part}
use fa_st_gshare.Common.{◌≤◌, ◌≡◌, Bool, true, false, String, str_eq, arith, eq_iff, refl, sym, ◌∙◌}
use fa_st_gshare.Kube.{Pod}
use fa_st_gshare.Replicas.Pods.{Ranked}
use fa_st_gshare.Replicas.Order.{
  Cluster, after_or_zero, pod_ready_time, log_rank, logarithmic_rank_diff, by_difference, ranked,
  younger, less_by_creation, less_by_restarts, less_by_ready_time, less_by_rank, less_by_cost,
  less_by_ready, less_by_phase, less,
}

after_or_zero-asymmetric :
    (t1 t2 : ℤ) → eqb_ℤ t1 t2 ≡ false → after_or_zero t1 t2 ≡ true → after_or_zero t2 t1 ≡ false
unfolding after_or_zero
after_or_zero-asymmetric t1 t2 d e = ground arith

small_difference :
    (a b : ℤ)
    → (pos_part a ≤ 63) × (neg_part a ≤ 1)
    → (pos_part b ≤ 63) × (neg_part b ≤ 1)
    → IsInt64 (a -ℤ b)
unfolding ◌-ℤ◌
small_difference a b h k = ground arith

by_difference-asymmetric :
    (a b : ℤ) (u v : String)
    → by_difference (a -ℤ b) u v ≡ true
    → by_difference (b -ℤ a) v u ≡ false
unfolding ◌-ℤ◌
by_difference-asymmetric a b u v e = ground (arith, text_less-asymmetric u v)

same_test : (b c : Bool) → (b ≡ true → c ≡ true) → (c ≡ true → b ≡ true) → b ≡ c
same_test true c h k = sym (h refl)
same_test false true h k = k refl
same_test false false h k = refl

str_eq_sym : (a b : String) → str_eq a b ≡ str_eq b a
str_eq_sym a b =
    same_test _ _ (λ h. (eq_iff b a).1 (sym ((eq_iff a b).0 h)))
      (λ h. (eq_iff a b).1 (sym ((eq_iff b a).0 h)))

node_names :
    (a b : String)
    → (str_eq a b ≡ str_eq b a) × (str_eq a "" ≡ true → str_eq b "" ≡ true → str_eq a b ≡ true)
node_names a b =
    (str_eq_sym a b, λ h k. (eq_iff a b).1 ((eq_iff a "").0 h ∙ sym ((eq_iff b "").0 k)))

module _ (cl : Cluster)
    -- the logarithm of a duration lies between 0 and 63
    (log2_range : (d : ℤ) → (pos_part (cl.log2 d) ≤ 63) × (neg_part (cl.log2 d) ≡ 0)) where
  log_rank-bound : (d : ℤ) → (pos_part (log_rank cl d) ≤ 63) × (neg_part (log_rank cl d) ≤ 1)
  log_rank-bound d = ground (arith, log2_range d)

  -- The difference of two ranks is exact.
  rank_diff-exact :
      (t1 t2 now : ℤ)
      → logarithmic_rank_diff cl t1 t2 now
        ≡ log_rank cl (cl.sub now t1) -ℤ log_rank cl (cl.sub now t2)
  unfolding logarithmic_rank_diff
  rank_diff-exact t1 t2 now =
      let a = log_rank cl (cl.sub now t1) in
      let b = log_rank cl (cl.sub now t2) in
      int64_self (a -ℤ b) (small_difference a b (log_rank-bound _) (log_rank-bound _))

  ranked-asymmetric :
      (now t1 t2 : ℤ) (u v : String)
      → ranked cl now t1 t2 u v ≡ true
      → ranked cl now t2 t1 v u ≡ false
  unfolding ranked
  ranked-asymmetric now t1 t2 u v e =
      let a = log_rank cl (cl.sub now t1) in
      let b = log_rank cl (cl.sub now t2) in
      rw (rank_diff-exact t2 t1 now)
        (by_difference-asymmetric a b u v (rw (rank_diff-exact t1 t2 now) at e))

  younger-asymmetric :
      (now t1 t2 : ℤ) (u v : String)
      → eqb_ℤ t1 t2 ≡ false
      → younger cl now t1 t2 u v ≡ true
      → younger cl now t2 t1 v u ≡ false
  unfolding younger
  younger-asymmetric now t1 t2 u v d e =
      ground (arith, after_or_zero-asymmetric t1 t2, ranked-asymmetric now t1 t2 u v)

  less_by_creation-asymmetric :
      (now : ℤ) (p q : Pod)
      → less_by_creation cl now p q ≡ true
      → less_by_creation cl now q p ≡ false
  unfolding less_by_creation
  less_by_creation-asymmetric now p q e =
      ground (arith, younger-asymmetric now p.creation_timestamp q.creation_timestamp p.uid q.uid)

  less_by_restarts-asymmetric :
      (now : ℤ) (p q : Pod)
      → less_by_restarts cl now p q ≡ true
      → less_by_restarts cl now q p ≡ false
  unfolding less_by_restarts
  less_by_restarts-asymmetric now p q e = ground (arith, less_by_creation-asymmetric now p q)

  less_by_ready_time-asymmetric :
      (now : ℤ) (p q : Pod)
      → less_by_ready_time cl now p q ≡ true
      → less_by_ready_time cl now q p ≡ false
  unfolding less_by_ready_time
  less_by_ready_time-asymmetric now p q e = ground (
    arith,
    less_by_restarts-asymmetric now p q,
    younger-asymmetric now (pod_ready_time cl p) (pod_ready_time cl q) p.uid q.uid,
  )

  less_by_rank-asymmetric :
      (now : ℤ) (a b : Ranked) → less_by_rank cl now a b ≡ true → less_by_rank cl now b a ≡ false
  unfolding less_by_rank
  less_by_rank-asymmetric now a b e = ground (arith, less_by_ready_time-asymmetric now a.pod b.pod)

  less_by_cost-asymmetric :
      (now : ℤ) (a b : Ranked) → less_by_cost cl now a b ≡ true → less_by_cost cl now b a ≡ false
  unfolding less_by_cost
  less_by_cost-asymmetric now a b e = ground (arith, less_by_rank-asymmetric now a b)

  less_by_ready-asymmetric :
      (now : ℤ) (a b : Ranked) → less_by_ready cl now a b ≡ true → less_by_ready cl now b a ≡ false
  unfolding less_by_ready
  less_by_ready-asymmetric now a b e = ground (arith, less_by_cost-asymmetric now a b)

  less_by_phase-asymmetric :
      (now : ℤ) (a b : Ranked) → less_by_phase cl now a b ≡ true → less_by_phase cl now b a ≡ false
  unfolding less_by_phase
  less_by_phase-asymmetric now a b e = ground (arith, less_by_ready-asymmetric now a b)

  -- `Less` never prefers each of two pods to the other, when the logarithm of a duration lies
  -- between 0 and 63.
  pub less-asymmetric : (now : ℤ) (a b : Ranked) → less cl now a b ≡ true → less cl now b a ≡ false
  unfolding less
  less-asymmetric now a b e =
      ground (arith, node_names a.pod.node_name b.pod.node_name, less_by_phase-asymmetric now a b)
