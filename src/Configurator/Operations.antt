-- ===== src/Configurator/Operations.antt =====
-- A configurator as a machine: its handlers, in any order, with any answers of NVML and of the
-- operating system.
use fa_st_gshare.Common.Outcome.{Outcome, returns, ◌>>=◌}
use fa_st_gshare.Common.{◌≡◌, refl, List, [], String, subst, sym, ◌∙◌}
use fa_st_gshare.Configurator.Mps.{System}
use fa_st_gshare.Configurator.Resource.{Nvml}
use fa_st_gshare.Configurator.Server.{enable_mps_handler, disable_mps_handler}
use fa_st_gshare.Configurator.Devices.{Strings, Device}
use fa_st_gshare.Configurator.Handlers.{
  ResourceManager, refresh, RequestVirtualGpu, request_virtual_gpu, release_virtual_gpu,
  get_available_gpus,
}
use fa_st_gshare.Configurator.Entries.{AllEntries}
use fa_st_gshare.Configurator.ServerSafety.{enable-Runs, disable-Runs}
use fa_st_gshare.Configurator.HandlerSafety.{Runs, refresh-Runs, request-Runs, release-Runs}

pub data Operation : Type 0 where
  gets_available : Operation
  enables : String → Operation
  disables : String → Operation
  requests : RequestVirtualGpu → Operation
  releases : String → Operation

-- The state after a handler; its response is left out here.
unfoldable pub run_operation :
    Strings → List Device → Nvml → System → ResourceManager → Operation → Outcome ResourceManager
run_operation str devices nv sys rm gets_available = do
  r ← get_available_gpus str devices rm
  returns (r.0)
run_operation str devices nv sys rm (enables uuid) = do
  h ← enable_mps_handler sys rm.provisioned_gpus uuid
  returns (record rm { provisioned_gpus = h.gpus })
run_operation str devices nv sys rm (disables uuid) = do
  h ← disable_mps_handler sys rm.provisioned_gpus uuid
  returns (record rm { provisioned_gpus = h.gpus })
run_operation str devices nv sys rm (requests q) = do
  r ← request_virtual_gpu str devices nv sys rm q
  returns r.manager
run_operation str devices nv sys rm (releases uuid) = do
  r ← release_virtual_gpu str devices nv sys rm uuid
  returns (r.0)

-- The states that are reached: each operation comes with its own answers of NVML about the devices.
pub data Reach : ResourceManager → Type 0 where
  start :
      (str : Strings) (devices : List Device) {rm : ResourceManager}
      → refresh str devices (record { virtual_gpus = []; provisioned_gpus = [] }) ≡ returns rm
      → Reach rm
  step :
      {rm rm' : ResourceManager} (str : Strings) (devices : List Device) (nv : Nvml) (sys : System)
      (op : Operation)
      → Reach rm
      → run_operation str devices nv sys rm op ≡ returns rm'
      → Reach rm'

run_operation-Runs :
    (str : Strings) (devices : List Device) (nv : Nvml) (sys : System) (rm : ResourceManager)
    (op : Operation)
    → AllEntries rm.provisioned_gpus
    → Runs (run_operation str devices nv sys rm op)
unfolding run_operation get_available_gpus
run_operation-Runs str devices nv sys rm gets_available all =
    let (rm', by, after) = refresh-Runs str devices rm all in (rm', rw by refl, after)
run_operation-Runs str devices nv sys rm (enables uuid) all =
    let (h, by, after) = enable-Runs sys rm.provisioned_gpus uuid all in
    (record rm { provisioned_gpus = h.gpus }, rw by refl, after)
run_operation-Runs str devices nv sys rm (disables uuid) all =
    let (h, by, after) = disable-Runs sys rm.provisioned_gpus uuid all in
    (record rm { provisioned_gpus = h.gpus }, rw by refl, after)
run_operation-Runs str devices nv sys rm (requests q) all =
    let (r, by, after) = request-Runs str devices nv sys rm q all in (r.manager, rw by refl, after)
run_operation-Runs str devices nv sys rm (releases uuid) all =
    let (r, by, after) = release-Runs str devices nv sys rm uuid all in (r.0, rw by refl, after)

same_state :
    {a b : ResourceManager} → ◌≡◌ {A = Outcome ResourceManager} (returns a) (returns b) → a ≡ b
same_state e = cc

-- A state in which a call that comes back with entries only can end.
returned-AllEntries :
    (o : Outcome ResourceManager) {rm : ResourceManager}
    → Runs o
    → o ≡ returns rm
    → AllEntries rm.provisioned_gpus
returned-AllEntries o (rm', by, all) e =
    subst (λ (x : ResourceManager). AllEntries x.provisioned_gpus) (same_state (sym by ∙ e)) all

Reach-AllEntries : {rm : ResourceManager} → Reach rm → AllEntries rm.provisioned_gpus
Reach-AllEntries (start str devices e) =
    returned-AllEntries _ (refresh-Runs str devices _ (λ uuid v at. cc)) e
Reach-AllEntries (step str devices nv sys op r e) =
    returned-AllEntries _ (run_operation-Runs str devices nv sys _ op (Reach-AllEntries r)) e

-- In every state that a configurator reaches, each handler comes back without a panic, whatever
-- NVML and the operating system answer, the questions about the devices included, which are asked
-- anew at every refresh; and in the state that it leaves, every entry of
-- `provisionedGPUs` has its GPU, under the GPU's own UUID.
pub Reach-operation :
    {rm : ResourceManager} (str : Strings) (devices : List Device) (nv : Nvml) (sys : System)
    (op : Operation)
    → Reach rm
    → Runs (run_operation str devices nv sys rm op)
Reach-operation {rm = rm} str devices nv sys op r =
    run_operation-Runs str devices nv sys rm op (Reach-AllEntries r)
