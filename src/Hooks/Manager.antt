-- ===== src/Hooks/Manager.antt =====
-- HookManager of lirix/core/hook_manager.py: the registry and the isolated invocation of the
-- callbacks of a point. A callback is a function of a third party over a world `W` of its own; `E`
-- is the type of the LirixSecurityExceptions. Times are in milliseconds. A callback that timed out
-- goes on in its thread: what it writes after the time limit is not modelled.
use lirix.Prelude.{
  ℕ, Bool, Option, none, some, List, [], snoc, Text, Dict, elem, get, put, remove, value_or,
  if◌then◌else◌,
}
use lirix.Status.{Status}
use lirix.Hooks.Types.{ContractMode, HookReturn, Kwargs, predefined_hook_points}

-- How a callback ends: with a value, a LirixSecurityException, an asyncio.TimeoutError of its own,
-- by its message, or another Exception, by its type and message.
pub data CallEnd {ℓ κ} (V : Type ℓ) (E : Type κ) : Type (ℓ ⊔ κ) where
  value : HookReturn V → CallEnd V E
  security : E → CallEnd V E
  timeout_error : Text → CallEnd V E
  failure : Text → Text → CallEnd V E

-- `written` is what the callback leaves in the dict that it got as `payload`.
pub record Response {ℓ κ μ} (V : Type ℓ) (E : Type κ) (W : Type μ) : Type (ℓ ⊔ κ ⊔ μ) where
  pub ending : CallEnd V E
  pub elapsed : ℕ
  pub written : Dict V
  pub world : W

pub record Callback {ℓ κ μ} (V : Type ℓ) (E : Type κ) (W : Type μ) : Type (ℓ ⊔ κ ⊔ μ) where
  pub is_coroutine : Bool
  pub react : W → Kwargs V → Response V E W

-- An ExecutionEvidence of the trace, without its details.
pub record Step : Type 0 where
  pub layer : Text
  pub stage : Text
  pub status : Status

-- What a run changes: the caller's dict `payload`, none if it gave no dict, the steps of the bound
-- trace recorder, none if none is bound, the points of the time-outs that are given to the audit
-- logger, the world of the callbacks.
pub record Shared {ℓ μ} (V : Type ℓ) (W : Type μ) : Type (ℓ ⊔ μ) where
  pub payload : Option (Dict V)
  pub steps : Option (List Step)
  pub timeouts : List Text
  pub world : W

pub data HookFailure {κ} (E : Type κ) : Type κ where
  hook_unknown_point hook_async_context hook_execution : Text → HookFailure E
  of_callback : E → HookFailure E

pub record Manager {ℓ κ μ} (V : Type ℓ) (E : Type κ) (W : Type μ) : Type (ℓ ⊔ κ ⊔ μ) where
  pub registry : Dict (List (Callback V E W))
  pub contract_mode : ContractMode

module _ {ℓ κ μ} {V : Type ℓ} {E : Type κ} {W : Type μ} where
  -- The registration of a callback whose signature takes any arguments, as
  -- _assert_hook_accepts_lirix_invoke demands; none for an unknown point.
  unfoldable pub register_hook : Text → Callback V E W → Manager V E W → Option (Manager V E W)
  unfolding elem get put
  register_hook point cb m =
      if elem point predefined_hook_points
      then some (record m {
        registry = put point (snoc (value_or (get point m.registry) []) cb) m.registry;
      })
      else none

  -- clear, of one point or of all
  unfoldable pub clear : Option Text → Manager V E W → Manager V E W
  unfolding remove
  clear none m = record m { registry = [] }
  clear (some point) m = record m { registry = remove point m.registry }
