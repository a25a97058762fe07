-- ===== src/Replicas/ScaleLaws.antt =====
-- How many pods are chosen and from which, which are active, and how many replicas are desired.
use fa_st_gshare.Common.Int.{ℤ, pos, ◌≤ℤ◌}
use fa_st_gshare.Common.{
  ℕ, zero, suc, ◌≤◌, ◌<◌, ltb, ◌≡◌, ◌↔◌, ◌⊎◌, length, take, Bool, true, ◌&&◌, map, sym, Option,
  none, some, List, [], ◌∷◌, String, arith, refl, ap, ◌∙◌, if◌then◌else◌, Bool-cases, inl, inr,
}
use fa_st_gshare.Kube.{Pod, FastPod}
use fa_st_gshare.Replicas.Pods.{
  Ranked, ranked_pods, rank_all, is_pod_active, filter_inactive_pods, min_replicas, get_replicas,
  choose_replicas,
}
use fa_st_gshare.Replicas.Order.{Cluster, less}
use fa_st_gshare.Replicas.Scale.{Sorter, every, get_pods_to_delete, chosen_pods}

length-take_le : (n : ℕ) (l : List Ranked) → n ≤ length l → length (take n l) ≡ n
length-take_le zero l h = refl
length-take_le (suc n) [] h = omega arith
length-take_le (suc n) (x ∷ l) h = ap suc (length-take_le n l (omega arith))

length-rank_all : (everyone l : List Pod) → length (rank_all everyone l) ≡ length l
length-rank_all everyone [] = refl
length-rank_all everyone (p ∷ l) = ap suc (length-rank_all everyone l)

-- `All p` of the pods.
abbrev pub every_pod : (Pod → Bool) → List Pod → Bool
every_pod p [] = true
every_pod p (a ∷ rest) = p a && every_pod p rest

every-take :
    (p : Ranked → Bool) (n : ℕ) (l : List Ranked) → every p l ≡ true → every p (take n l) ≡ true
every-take p zero l h = refl
every-take p (suc n) [] h = refl
every-take p (suc n) (x ∷ l) h = ground (arith, every-take p n l)

every-rank_all :
    (p : Pod → Bool) (everyone l : List Pod)
    → every_pod p l ≡ true
    → every (λ r. p r.pod) (rank_all everyone l) ≡ true
every-rank_all p everyone [] h = refl
every-rank_all p everyone (x ∷ l) h = ground (arith, every-rank_all p everyone l)

every-map :
    (p : Pod → Bool) (l : List Ranked)
    → every (λ r. p r.pod) l ≡ every_pod p (map (λ (r : Ranked). r.pod) l)
every-map p [] = refl
every-map p (x ∷ l) = ap (λ k. p x.pod && k) (every-map p l)

kept_size : (d n : ℕ) → d < n → (if ltb d n then d else 0) ≡ d
kept_size d n h = ground arith

module _ (cl : Cluster) (sorter : Sorter) (now : ℤ) where
  length-chosen :
      (existed : List Pod) (diff : ℕ)
      → length (chosen_pods (get_pods_to_delete cl sorter now existed diff))
        ≡ (if ltb diff (length existed) then diff else 0)
  unfolding get_pods_to_delete ranked_pods
  length-chosen existed diff = ground (
    arith,
    sorter.length-sort (less cl now) (rank_all existed existed),
    length-rank_all existed existed,
    length-take_le diff (sorter.sort (less cl now) (rank_all existed existed)),
  )

  -- Fewer pods than exist are chosen as many as asked, and none otherwise.
  pub length-chosen_pods :
      (existed : List Pod) (diff : ℕ)
      → diff < length existed
      → length (chosen_pods (get_pods_to_delete cl sorter now existed diff)) ≡ diff
  length-chosen_pods existed diff h = length-chosen existed diff ∙ kept_size diff (length existed) h

  -- What holds of all pods holds of the chosen ones.
  pub every-chosen_pods :
      (p : Pod → Bool) (existed : List Pod) (diff : ℕ)
      → every_pod p existed ≡ true
      → every_pod p (
          map (λ (r : Ranked). r.pod) (chosen_pods (get_pods_to_delete cl sorter now existed diff)))
        ≡ true
  unfolding get_pods_to_delete ranked_pods
  every-chosen_pods p existed diff h =
      let sorted = sorter.sort (less cl now) (rank_all existed existed) in
      let kept =
        every-take (λ r. p r.pod) diff sorted
          (sorter.every-sort (less cl now) (λ r. p r.pod) (rank_all existed existed)
            (every-rank_all p existed existed h)) in
      elim (Bool-cases (ltb diff (length existed))) [
        | inl enough ↦ rw enough (sym (every-map p (take diff sorted)) ∙ kept)
        | inr few ↦ rw few refl
      ]

-- `filterInactivePods` leaves active pods only, and all that are active: a second pass keeps the
-- list.
pub filter_inactive_pods-idempotent :
    (l : List Pod) → filter_inactive_pods (filter_inactive_pods l) ≡ filter_inactive_pods l
unfolding filter_inactive_pods
filter_inactive_pods-idempotent [] = refl
filter_inactive_pods-idempotent (p ∷ l) = elim (Bool-cases (is_pod_active p)) [
  | inl active ↦ rw (active, active) (ap (λ k. p ∷ k) (filter_inactive_pods-idempotent l))
  | inr inactive ↦ rw inactive (filter_inactive_pods-idempotent l)
]

choose_replicas_lem :
    (m s : Option ℤ)
    → ((choose_replicas m s ≡ none) ↔ ((m ≡ none) × (s ≡ none)))
      × ((r : ℤ)
          → choose_replicas m s ≡ some r
          → ((s ≡ some r) ⊎ (m ≡ some r))
            × (s ≡ some (pos 0) → r ≡ pos 0)
            × ((k : ℤ) → m ≡ some k → (k ≤ℤ r) ⊎ (s ≡ some (pos 0)))
            × ((n : ℤ) → s ≡ some n → n ≤ℤ r))
choose_replicas_lem none none = (ground arith, λ r e. cc)
choose_replicas_lem none (some n) =
    (ground arith, λ r e. (ground arith, ground arith, λ k h. cc, λ n h. ground arith))
choose_replicas_lem (some m) none =
    (ground arith, λ r e. (ground arith, ground arith, λ k h. ground arith, λ n h. cc))
choose_replicas_lem (some m) (some n) =
    (ground arith, λ r e. (ground arith, ground arith, λ k h. ground arith, λ n h. ground arith))

-- The desired number of replicas is nil exactly when neither the spec nor the label gives one;
-- otherwise it is one of the two and never below the spec's number; it is 0 when the spec says 0,
-- and else at least the label's minimum.
pub get_replicas_lem :
    (atoi : String → ℤ × Bool) (fp : FastPod)
    → ((get_replicas atoi fp ≡ none) ↔ ((min_replicas atoi fp ≡ none) × (fp.replicas ≡ none)))
      × ((r : ℤ)
          → get_replicas atoi fp ≡ some r
          → ((fp.replicas ≡ some r) ⊎ (min_replicas atoi fp ≡ some r))
            × (fp.replicas ≡ some (pos 0) → r ≡ pos 0)
            × ((k : ℤ) → min_replicas atoi fp ≡ some k → (k ≤ℤ r) ⊎ (fp.replicas ≡ some (pos 0)))
            × ((n : ℤ) → fp.replicas ≡ some n → n ≤ℤ r))
unfolding get_replicas
get_replicas_lem atoi fp = choose_replicas_lem (min_replicas atoi fp) fp.replicas
