-- ===== src/Nodes/Join.antt =====
-- node_init.go: how `handleNodeConnection` enters a node. Its reading, decoding and calling are
-- the data of an arrival; the state is that of gpu_manager.go.
use Prim.Native.Char.{code}
use Prim.Native.String.{◌++◌ as str_append}
use fa_st_gshare.Common.Int.{ℤ, pos}
use fa_st_gshare.Common.Dict.{lookup, insert}
use fa_st_gshare.Common.Outcome.{Outcome, returns, panics}
use fa_st_gshare.Common.{
  ℕ, Bool, not, ◌==◌, Option, none, some, List, [], String, str_eq, if◌then◌else◌,
}
use fa_st_gshare.Bitmap.{new_bitmap}
use fa_st_gshare.Proto.{VirtualGpuMessage}
use fa_st_gshare.Manager.State.{Node, Manager, node_ready, put_node, port_range}

-- `ConfiguratorNodeHelloMessage`
pub record ConfiguratorNodeHelloMessage : Type 0 where
  pub hostname : String
  pub grpc_port : ℤ

-- What the API server answers for the daemon's pod; both are empty when it answers an error.
pub record DaemonPod : Type 0 where
  pub node_name : String
  pub host_ip : String

-- What a connection brings: `none` where the call fails.
pub record Arrival : Type 0 where
  pub remote_addr : String
  pub hello : Option ConfiguratorNodeHelloMessage
  pub ack_written : Bool
  pub connected : Bool
  pub healthy : Bool
  pub available : Option (List VirtualGpuMessage)

-- `strings.Split(addr, ":")[0]`
unfoldable pub before_colon : String → String
before_colon String.[] = ""
before_colon (String.◌∷◌ c s) =
    let rest = before_colon s in if code c == 58 then "" else String.◌∷◌ c rest

-- The node's name and address: those of the daemon's pod, if that has been bound to a node.
unfoldable pub host_of : (String → DaemonPod) → String → String → String × String
host_of daemon_pod hostname ip =
    let p = daemon_pod hostname in
    if str_eq p.node_name "" then (hostname, ip) else (p.node_name, p.host_ip)

-- `fmt.Sprintf("%s:%d", nodeIP, nodePort)`, the target of `grpc.NewClient`
unfoldable pub dial_target : (ℤ → String) → String → ℤ → String
dial_target show ip port = str_append ip (str_append ":" (show port))

module _ {F : Type 0} where
  -- `&Node{...}` for a node that is not known
  unfoldable pub new_node : String → String → String → List VirtualGpuMessage → Node F
  new_node name ip client gpus = record {
    gpu_num = pos 0;
    daemon_ip = ip;
    uuid2_sched_port = [];
    uuid2_gpu_type = [];
    vgpu_id2_gpu = [];
    daemon_port_alloc = new_bitmap port_range;
    vgpus = gpus;
    grpc_client = some client;
    host_name = name;
  }

  -- A node that comes back keeps its GPUs and their pods.
  unfoldable pub refresh_node : String → String → List VirtualGpuMessage → Node F → Node F
  refresh_node ip client gpus n = record n {
    vgpus = gpus;
    grpc_client = some client;
    daemon_ip = ip;
  }

  unfoldable pub register_node :
      Manager F → String → String → String → List VirtualGpuMessage → Manager F
  register_node m name ip client gpus = put_node m name (elim (lookup name m.nodes) [
    | none ↦ new_node name ip client gpus
    | some n ↦ refresh_node ip client gpus n
  ])

  -- The calls of the new client: without a connection it is nil inside, and the first call
  -- panics; the answer of `GetAvailableGPUs` is read although it is nil after an error.
  unfoldable pub meet_node :
      (ℤ → String)
      → Manager F
      → Arrival
      → String
      → String
      → ℤ
      → Outcome (Option (Manager F × String))
  meet_node show m a name ip port =
      if not a.connected then panics else if not a.healthy then returns none else elim a.available [
        | none ↦ panics
        | some gpus ↦ returns (some (register_node m name ip (dial_target show ip port) gpus, name))
      ]

  -- `handleNodeConnection` up to the registration: the new state and the node's name, or `none`
  -- where it returns an error.
  unfoldable pub greet :
      (ℤ → String)
      → (String → DaemonPod)
      → Manager F
      → Arrival
      → Outcome (Option (Manager F × String))
  greet show daemon_pod m a = elim a.hello [
    | none ↦ returns none
    | some hello ↦
        let (name, ip) = host_of daemon_pod hello.hostname (before_colon a.remote_addr) in
        if a.ack_written then meet_node show m a name ip hello.grpc_port else returns none
  ]

  -- The node's entry in `nodesLiveness`, new or overwritten, with the goroutine's connection.
  unfoldable pub init_liveness : ℕ → String → Manager F → Manager F
  init_liveness conn name m = record m {
    nodes_liveness =
        insert name (record { config_conn = conn; status = node_ready; last_heartbeat = 0 })
          m.nodes_liveness;
  }
