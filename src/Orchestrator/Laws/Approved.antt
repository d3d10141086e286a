-- ===== src/Orchestrator/Laws/Approved.antt =====
-- lirix/core/orchestrator.py: what an approval of run_full has behind it.
use lirix.Prelude.{◌≡◌, ℕ, some, Text, Dict, Result, returned, raised}
use lirix.Status.{Status}
use lirix.Orchestrator.Types.{PipelineError, Client, Report, Simulated}
use lirix.Orchestrator.Actions.{chain_validate}

abbrev outcome_result :
    {V O X : Type 0} → Result (PipelineError V X) (Simulated O) → Result (PipelineError V X) O
outcome_result (returned s) = returned s.outcome
outcome_result (raised e) = raised e

module _ {V O P X W : Type 0} (client : Client V O P X W) where
  -- L1 to L3 accepted what they left as `draft`.
  pub record IsAccepted (intent : Text) (draft : Dict V) (after : W) : Type 0 where
    pub candidate : Dict V
    pub before : W
    pub accepted : chain_validate client intent candidate before ≡ (returned tt, draft, after)

  -- The nodes agreed on a block, and the draft was simulated at it.
  pub record IsExecuted (draft : Dict V) (before after : W) (out : O) : Type 0 where
    pub block_number : ℕ
    pub reconciled_world : W
    pub connected_world : W
    pub reconciled : client.ask_height before ≡ (returned block_number, reconciled_world)
    pub connected : client.get_web3 reconciled_world ≡ (returned tt, connected_world)
    pub simulated : client.simulate draft block_number connected_world ≡ (returned out, after)

  -- One draft that L1 to L3 accepted, then at once was simulated, with the outcome of the report,
  -- and passed the audit, with the policy decision of the report.
  pub record IsApproved (intent : Text) (report : Report O P) : Type 0 where
    pub draft : Dict V
    pub validated_world : W
    pub executed_world : W
    pub outcome : O
    pub policy : P
    pub accepted : IsAccepted intent draft validated_world
    pub executed : IsExecuted draft validated_world executed_world outcome
    pub audited : client.run_audit draft outcome ≡ returned policy
    pub reports_outcome : report.outcome ≡ some outcome
    pub reports_policy : report.policy_decision ≡ some policy
