-- ===== src/Mcp/Settled.antt =====
-- crates/epica-mcp/src/handlers/belief.rs with tasks.rs: how a spawned task ends, over the store in memory.
use epica.Prelude.{string_eq, nat_eq, list_eq, get_elem?, ℕ, ◌≡◌, ◌≢◌, some}
use epica.Quad.Platform.{Platform, SlotMap, Petgraph}
use epica.Mcp.Tasks.{InMemoryTaskStore, McpTask}
use epica.Mcp.Server.{Job, Rendering, finished, abandoned, given_up}
use epica.Mcp.Steps.{Server}
use epica.Mcp.Settling.{IsAway, Shows, task_at}

module _ ⦃p : Platform⦄ ⦃re : Rendering⦄ where
  -- A job that is over, with what it wrote of the task.
  abbrev pub HasEnded : p.Uuid → Job → McpTask → Type 0
  HasEnded task finished t = Shows task finished t
  HasEnded task given_up t = Shows task given_up t
  HasEnded task abandoned t = Shows task abandoned t
  HasEnded task j t = ⊥

module _ ⦃p : Platform⦄ ⦃sm : SlotMap p.BeliefId⦄ ⦃pg : Petgraph p.BeliefId⦄ ⦃re : Rendering⦄
    {Forget : Type 0} where
  -- The job with the number is about the task, which is in the store as the job says, and no other
  -- job is about it.
  pub record IsTracked (task : p.Uuid) (n : ℕ) (v : Server Forget InMemoryTaskStore) : Type 0 where
    pub own :
        (j : Job) × (t : McpTask) × (get_elem? v.jobs n ≡ some j)
        × (task_at v.state task ≡ some t)
        × Shows task j t
    pub others : (m : ℕ) (j : Job) → m ≢ n → get_elem? v.jobs m ≡ some j → IsAway task j
