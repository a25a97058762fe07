-- ===== src/Nodes/Invariant.antt =====
-- The invariant of the controller manager: ports, host names, clients and liveness entries.
use fa_st_gshare.Common.Int.{ℤ}
use fa_st_gshare.Common.Dict.{lookup, insert, lookup-insert}
use fa_st_gshare.Common.Outcome.{returns, deref, >>=-returns}
use fa_st_gshare.Common.{
  ℕ, ◌≤◌, not, ◌≡◌, ◌≢◌, refl, eq_iff, str_eq, Bool, none, some, List, ◌∷◌, ◌++◌, String, arith,
  Bool-cases, Option-cases, inl, inr, subst, sym, ◌∙◌,
}
use fa_st_gshare.Proto.{VirtualGpuMessage}
use fa_st_gshare.Manager.State.{Node, Manager, NodeLiveness}
use fa_st_gshare.Manager.Ports.{PortsBooked}
use fa_st_gshare.Manager.PortSafety.{EachNode}
use fa_st_gshare.Nodes.Join.{
  DaemonPod, Arrival, before_colon, host_of, dial_target, new_node, refresh_node, register_node,
  meet_node, greet, init_liveness,
}
use fa_st_gshare.Nodes.Liveness.{
  HeartbeatRead, after_read, has_error, check_node_liveness, handle_heartbeat,
}
use fa_st_gshare.Nodes.Keeps.{Keeps}
use fa_st_gshare.Nodes.Ports.{register_node-PortsBooked}
use fa_st_gshare.Nodes.Cluster.{Cluster, World, Handler, greeted, waiting}
use fa_st_gshare.Nodes.Waiters.{
  waiters, waiters-append, AllLive, deref-returns, check_each-known, insert-known,
}

module _ {F : Type 0} where
  -- A node is kept under its own host name, with a client.
  pub record IsNamed (name : String) (n : Node F) : Type 0 where
    pub host : n.host_name ≡ name
    pub client : n.grpc_client ≢ none

  abbrev pub AllNamed : Manager F → Type 0
  AllNamed m = (name : String) (n : Node F) → lookup name m.nodes ≡ some n → IsNamed name n

  pub record Inv (s : Cluster F) : Type 0 where
    pub ports : EachNode PortsBooked s.manager
    pub named : AllNamed s.manager
    pub live : AllLive s.handlers s.manager.nodes_liveness

  Keeps-AllNamed : (m m' : Manager F) → AllNamed m → Keeps m m' → AllNamed m'
  Keeps-AllNamed m m' all k name n' e =
      let (n, at, same) = k.known name n' e in
      let was = all name n at in
      record { host = sym same.host ∙ was.host; client = rw (← same.client) was.client }

  pub Keeps-Inv :
      (s : Cluster F) (m' : Manager F)
      → Inv s
      → Keeps s.manager m'
      → EachNode PortsBooked m'
      → Inv (record { manager = m'; handlers = s.handlers })
  Keeps-Inv s m' i k ports = record {
    ports = ports;
    named = Keeps-AllNamed s.manager m' i.named k;
    live = rw (← k.liveness) i.live;
  }

  insert-AllNamed :
      (m : Manager F) (k : String) (v : Node F)
      → IsNamed k v
      → AllNamed m
      → (j : String) (n : Node F) → lookup j (insert k v m.nodes) ≡ some n
      → IsNamed j n
  insert-AllNamed m k v new all j n e = elim (Bool-cases (str_eq k j)) [
    | inl here ↦
        let known : v ≡ n = ground (arith, lookup-insert k j v m.nodes) in
        let same : k ≡ j = ground (arith, eq_iff k j) in
        subst (λ (x : Node F). IsNamed j x) known (subst (λ x. IsNamed x v) same new)
    | inr other ↦ all j n (ground (arith, lookup-insert k j v m.nodes))
  ]

  new_node-IsNamed :
      (name ip client : String) (gpus : List VirtualGpuMessage)
      → IsNamed name (new_node name ip client gpus)
  unfolding new_node
  new_node-IsNamed name ip client gpus = record { host = refl; client = λ e. cc }

  refresh_node-IsNamed :
      (name ip client : String) (gpus : List VirtualGpuMessage) (n : Node F)
      → IsNamed name n
      → IsNamed name (refresh_node ip client gpus n)
  unfolding refresh_node
  refresh_node-IsNamed name ip client gpus n i = record { host = i.host; client = λ e. cc }

  register_node-AllNamed :
      (m : Manager F) (name ip client : String) (gpus : List VirtualGpuMessage)
      → AllNamed m
      → AllNamed (register_node m name ip client gpus)
  unfolding register_node
  register_node-AllNamed m name ip client gpus all = elim (Option-cases (lookup name m.nodes)) [
    | inl unknown ↦ rw unknown (insert-AllNamed m name _ (new_node-IsNamed name ip client gpus) all)
    | inr (n, at) ↦
        rw at (
          insert-AllNamed m name _ (refresh_node-IsNamed name ip client gpus n (all name n at)) all)
  ]

  meet_node-registers :
      (show : ℤ → String) (m : Manager F) (a : Arrival) (name ip : String) (port : ℤ)
      {m' : Manager F} {name' : String}
      → meet_node show m a name ip port ≡ returns (some (m', name'))
      → (gpus : List VirtualGpuMessage) × (register_node m name ip (dial_target show ip port) gpus
          ≡ m')
        × (name ≡ name')
  unfolding meet_node
  meet_node-registers show m a name ip port e = elim (Option-cases a.available) [
    | inl no_answer ↦ absurd (ground arith)
    | inr (gpus, answered) ↦ (gpus, ground arith, ground arith)
  ]

  -- What a connection that came to its registration changed.
  pub greet-registers :
      (show : ℤ → String) (daemon_pod : String → DaemonPod) (m : Manager F) (a : Arrival)
      {m' : Manager F} {name : String}
      → greet show daemon_pod m a ≡ returns (some (m', name))
      → (ip client : String) × (gpus : List VirtualGpuMessage) × (register_node m name ip client
            gpus
          ≡ m')
  unfolding greet
  greet-registers show daemon_pod m a {m' = m'} {name = name} e = elim (Option-cases a.hello) [
    | inl no_hello ↦ absurd (ground arith)
    | inr (hello, heard) ↦
        let at = host_of daemon_pod hello.hostname (before_colon a.remote_addr) in
        let met : meet_node show m a at.0 at.1 hello.grpc_port ≡ returns (some (m', name)) =
          ground arith in
        let (gpus, by, same) = meet_node-registers show m a at.0 at.1 hello.grpc_port met in
        (at.1, _, gpus, rw same at by)
  ]

  -- The liveness after a join, a new entry, a heartbeat and a check.
  register_node-liveness :
      (m : Manager F) (name ip client : String) (gpus : List VirtualGpuMessage)
      → (register_node m name ip client gpus).nodes_liveness ≡ m.nodes_liveness
  unfolding register_node
  register_node-liveness m name ip client gpus = refl

  pub handle_heartbeat-writes :
      (now : ℕ) (name : String) (read : HeartbeatRead) (m : Manager F) {m' : Manager F}
      {goes_on : Bool}
      → handle_heartbeat now name read m ≡ returns (m', goes_on)
      → (l : NodeLiveness) × (lookup name m.nodes_liveness ≡ some l)
        × (record m { nodes_liveness = insert name (after_read now read l) m.nodes_liveness } ≡ m')
        × (goes_on ≡ not (has_error read))
  unfolding handle_heartbeat
  handle_heartbeat-writes now name read m e =
      let (l, found, e1) = >>=-returns (deref (lookup name m.nodes_liveness)) _ e in
      (l, deref-returns (lookup name m.nodes_liveness) found, cc, cc)

  pub join-Inv :
      (w : World) (s : Cluster F) (conn : ℕ) (a : Arrival) {m : Manager F} {name : String}
      → Inv s
      → greet w.show w.daemon_pod s.manager a ≡ returns (some (m, name))
      → Inv (record { manager = m; handlers = greeted name conn ∷ s.handlers })
  join-Inv w s conn a {m = m} {name = name} i e =
      let (at, client, gpus, same) = greet-registers w.show w.daemon_pod s.manager a e in
      record {
        ports = rw (← same) (register_node-PortsBooked s.manager name at client gpus i.ports);
        named = rw (← same) (register_node-AllNamed s.manager name at client gpus i.named);
        live = λ j waiting_j.
            rw (← same, register_node-liveness s.manager name at client gpus)
              (i.live j (omega (arith, waiting_j)));
      }

  pub enliven-Inv :
      (s : Cluster F) (front back : List Handler) (name : String) (conn : ℕ)
      → Inv s
      → s.handlers ≡ front ++ greeted name conn ∷ back
      → Inv (record {
        manager = init_liveness conn name s.manager;
        handlers = front ++ waiting name conn ∷ back;
      })
  unfolding init_liveness
  enliven-Inv s front back name conn i e = record {
    ports = i.ports;
    named = i.named;
    live = λ j waiting_j.
        insert-known name j _ s.manager.nodes_liveness (elim (Bool-cases (str_eq name j)) [
          | inl here ↦ inl here
          | inr other ↦ inr (
              i.live j (
                ground (
                  arith,
                  e,
                  waiters-append j front (greeted name conn ∷ back),
                  waiters-append j front (waiting name conn ∷ back),
                )))
        ]);
  }

  -- A heartbeat keeps the entries that there are.
  pub heartbeat-Inv :
      (s : Cluster F) (now : ℕ) (name : String) (read : HeartbeatRead) (handlers : List Handler)
      {m : Manager F} {goes_on : Bool}
      → Inv s
      → ((j : String) → waiters j handlers ≤ waiters j s.handlers)
      → handle_heartbeat now name read s.manager ≡ returns (m, goes_on)
      → Inv (record { manager = m; handlers = handlers })
  heartbeat-Inv s now name read handlers i fewer e =
      let (l, _, same, _) = handle_heartbeat-writes now name read s.manager e in
      record {
        ports = rw (← same) i.ports;
        named = rw (← same) i.named;
        live = rw (← same) (λ j waiting_j.
            insert-known name j _ s.manager.nodes_liveness
              (inr (i.live j (omega (arith, fewer j, waiting_j)))));
      }

  pub tick-Inv :
      (s : Cluster F) (now : ℕ)
      → Inv s
      → Inv (record { manager = check_node_liveness now s.manager; handlers = s.handlers })
  unfolding check_node_liveness
  tick-Inv s now i = record {
    ports = i.ports;
    named = i.named;
    live = λ j waiting_j. check_each-known now j s.manager.nodes_liveness (i.live j waiting_j);
  }
