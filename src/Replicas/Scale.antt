-- ===== src/Replicas/Scale.antt =====
-- controller_util.go: `getPodsToDelete`. `sort.Sort` is a parameter.
use fa_st_gshare.Common.Int.{ℤ}
use fa_st_gshare.Common.{
  ℕ, ltb, ◌≡◌, length, take, Bool, true, Option, none, some, List, [], ◌∷◌, ◌&&◌, if◌then◌else◌,
}
use fa_st_gshare.Kube.{Pod}
use fa_st_gshare.Replicas.Pods.{Ranked, ranked_pods}
use fa_st_gshare.Replicas.Order.{Cluster, less}

-- `All p` of the list.
abbrev pub every : (Ranked → Bool) → List Ranked → Bool
every p [] = true
every p (a ∷ rest) = p a && every p rest

-- `sort.Sort` on pods and ranks: it swaps entries only, so it keeps their number, and whatever holds
-- of each of them.
pub record Sorter : Type 0 where
  pub sort : (Ranked → Ranked → Bool) → List Ranked → List Ranked
  pub length-sort :
      (before : Ranked → Ranked → Bool) (l : List Ranked) → length (sort before l) ≡ length l
  pub every-sort :
      (before : Ranked → Ranked → Bool) (p : Ranked → Bool) (l : List Ranked)
      → every p l ≡ true
      → every p (sort before l) ≡ true

-- `getPodsToDelete`; `none` is nil.
unfoldable pub get_pods_to_delete : Cluster → Sorter → ℤ → List Pod → ℕ → Option (List Ranked)
get_pods_to_delete cl sorter now existed diff =
    let sorted = sorter.sort (less cl now) (ranked_pods existed) in
    if ltb diff (length existed) then some (take diff sorted) else none

-- The pods of the loop.
abbrev pub chosen_pods : Option (List Ranked) → List Ranked
chosen_pods none = []
chosen_pods (some pods) = pods
