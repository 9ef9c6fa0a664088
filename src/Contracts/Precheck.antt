-- ===== src/Contracts/Precheck.antt =====
-- crates/epica-runtime/src/contract_engine.rs, `pre_update`: the checks before an update.
use epica.Contracts.Errors.{RuntimeError, sovereignty_violation, precondition_failed}
use epica.Contracts.Defs.{BehavioralContract, check_preconditions}
use epica.Quad.Platform.{Platform, SlotMap, Petgraph}
use epica.Prelude.{
  if◌then◌else◌, string_eq, nat_eq, list_eq, Result, ◌>>=◌, map_err, String, Option, none, some,
  List, [], ◌∷◌, ok, err,
}
use epica.Quad.Checkpoint.{BeliefQuad}
use epica.Sovereignty.Checks.{ContractError, MnemonicSovereignty, check_write_auth}
use epica.Sovereignty.Emit.{AuditPolicy}
use epica.Contracts.Execution.{Shell}

module _ ⦃p : Platform⦄ ⦃sm : SlotMap p.BeliefId⦄ ⦃pg : Petgraph p.BeliefId⦄ ⦃sh : Shell⦄ where
  unfoldable pub first_failing : List (BehavioralContract BeliefQuad) → BeliefQuad → Option String
  first_failing [] quad = none
  first_failing (c ∷ cs) quad =
      if check_preconditions c quad then first_failing cs quad else some c.domain

  abbrev pub refuse : Option String → String → Result RuntimeError (Unit {0})
  refuse none belief_key = ok tt
  refuse (some domain) belief_key = err (precondition_failed domain belief_key)

  abbrev check_contracts :
      List (BehavioralContract BeliefQuad) → BeliefQuad → String → Result RuntimeError (Unit {0})
  check_contracts contracts quad belief_key = refuse (first_failing contracts quad) belief_key

  abbrev pub authorized : Result ContractError (Unit {0}) → Result RuntimeError (Unit {0})
  authorized r = map_err (λ e. sovereignty_violation (sh.show_contract_error e)) r

module _ ⦃p : Platform⦄ ⦃sm : SlotMap p.BeliefId⦄ ⦃pg : Petgraph p.BeliefId⦄ ⦃sh : Shell⦄
    {Forget : Type 0} where
  unfoldable pub pre_update :
      Option (MnemonicSovereignty BeliefQuad Forget AuditPolicy)
      → List (BehavioralContract BeliefQuad)
      → BeliefQuad
      → String
      → String
      → Result RuntimeError (Unit {0})
  pre_update none contracts quad belief_key agent_id = check_contracts contracts quad belief_key
  pre_update (some sov) contracts quad belief_key agent_id = do
    _ ← authorized (check_write_auth sov agent_id)
    check_contracts contracts quad belief_key
