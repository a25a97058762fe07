-- ===== src/Replicas/Example.antt =====
-- Two pods, in an order that needs no swap.
use fa_st_gshare.Common.Int.{pos}
use fa_st_gshare.Common.{refl, true, false, none, List, [], ◌∷◌, String}
use fa_st_gshare.Kube.{Pod, PodPhase, running, pending}
use fa_st_gshare.Replicas.Order.{Cluster}
use fa_st_gshare.Replicas.Scale.{Sorter}

abbrev pub pod_of : String → PodPhase → Pod
pod_of name phase = record {
  namespace = "ns";
  name = name;
  uid = name;
  node_name = "worker";
  labels = [];
  annotations = [];
  phase = phase;
  deletion_timestamp = none;
  conditions = [];
  restart_counts = [];
  creation_timestamp = pos 1;
}

abbrev pub cluster : Cluster
cluster = record {
  is_pod_ready = λ p. false;
  deletion_cost = λ p. pos 0;
  pod_deletion_cost_enabled = true;
  logarithmic_scale_down_enabled = true;
  sub = λ a b. a;
  log2 = λ d. pos 0;
}

-- The order of two pods needs no swap.
abbrev pub sorter : Sorter
sorter = record {
  sort = λ before l. l;
  length-sort = λ before l. refl;
  every-sort = λ before p l h. h;
}

abbrev pub two_pods : List Pod
two_pods = pod_of "a" pending ∷ pod_of "b" running ∷ []
