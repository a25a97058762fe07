-- ===== src/Manager/Queue.antt =====
-- controller_util.go: `FindInQueue`. The values of a `*list.List` have their own types, and the
-- function asserts `*FastPodReq` of every value that it passes: another type panics.
use fa_st_gshare.Common.Outcome.{Outcome, returns, panics}
use fa_st_gshare.Common.{
  ◌≡◌, refl, Option, none, some, List, [], ◌∷◌, map, String, str_eq, arith, if◌then◌else◌,
}
use fa_st_gshare.Manager.State.{FastPodReq, MpsPodReq}

pub data ListValue (F : Type 0) : Type 0 where
  fast_pod_value : FastPodReq F → ListValue F
  mps_pod_value : MpsPodReq → ListValue F

module _ {F : Type 0} where
  -- `FindInQueue`; `none` is not found.
  unfoldable pub find_in_queue : String → List (ListValue F) → Outcome (Option (FastPodReq F))
  find_in_queue key [] = returns none
  find_in_queue key (mps_pod_value r ∷ rest) = panics
  find_in_queue key (fast_pod_value r ∷ rest) =
      let later = find_in_queue key rest in if str_eq r.key key then returns (some r) else later

  -- The pod of a key in a list of `*FastPodReq`.
  unfoldable pub find_pod : String → List (FastPodReq F) → Option (FastPodReq F)
  find_pod key [] = none
  find_pod key (r ∷ rest) = if str_eq r.key key then some r else find_pod key rest

  -- On such a list `FindInQueue` never panics.
  pub find_in_queue-find_pod :
      (key : String) (l : List (FastPodReq F))
      → find_in_queue key (map fast_pod_value l) ≡ returns (find_pod key l)
  unfolding find_in_queue find_pod
  find_in_queue-find_pod key [] = refl
  find_in_queue-find_pod key (r ∷ rest) = ground (arith, find_in_queue-find_pod key rest)
