-- ===== src/Rpc/Types.antt =====
-- The data of RPCManager in lirix/layers/l4_rpc_manager.py.
use lirix.Prelude.{ℕ, Bool, ◌||◌, true, false, Option, List, [], ◌∷◌, Text, codes, Dict, ◌==◌, ◌&&◌}

-- The fields of LirixConfig that are read. The ratio is given as the count it asks for,
-- `int(math.ceil(float(ratio) * eligible_count))`, in the arithmetic of the floats.
pub record RpcConfig : Type 0 where
  pub rpc_urls : List Text
  pub strict_mode : Bool
  pub l4_min_success_count : Option ℕ
  pub l4_min_success_ratio : Option (ℕ → ℕ)

-- An exception that a fetch ended with: its text and what it is an instance of.
pub data ExceptionClass : Type 0 where
  timeout_error connection_error other_error : ExceptionClass

pub record FetchError : Type 0 where
  pub message : Text
  pub class : ExceptionClass

-- What fetching the block number from one endpoint gave.
pub data Fetched : Type 0 where
  height : ℕ → Fetched
  failed : FetchError → Fetched

pub data RpcError : Type 0 where
  rpc_urls_empty all_breakers_open quota_exhausted reconcile_failed : RpcError
  height_spread_exceeded hook_raised max_of_empty : RpcError

pub record Classified : Type 0 where
  pub quota_exhausted : List Text
  pub timeout : List Text
  pub transport : List Text
  pub other : List Text

-- _last_error
pub data LastError : Type 0 where
  reconcile_partial_failure : List Text → LastError
  spread_exceeded : Dict ℕ → ℕ → LastError
  reconcile_tolerated_partial_success : ℕ → ℕ → ℕ → Classified → LastError

-- The attributes of RPCManager that its methods write. A dict with a default is a function, times
-- are clock ticks, a Web3 is the url that it is bound to, and `_last_selected_latency`, which is
-- only ever None, is left out.
pub record Rpc : Type 0 where
  pub failures : Text → ℕ
  pub is_open : Text → Bool
  pub cooldown_until : Text → ℕ
  pub sync_web3 : Option Text
  pub async_web3 : Option Text
  pub last_url : Option Text
  pub last_error : Option LastError

abbrev starts_with : Text → Text → Bool
starts_with [] s = true
starts_with (p ∷ ps) [] = false
starts_with (p ∷ ps) (c ∷ cs) = (p == c) && starts_with ps cs

-- `needle in s`
abbrev contains : Text → Text → Bool
contains needle [] = starts_with needle []
contains needle (c ∷ cs) = starts_with needle (c ∷ cs) || contains needle cs

-- _is_quota_exhausted
unfoldable pub is_quota_exhausted : FetchError → Bool
is_quota_exhausted exc =
    contains (codes "429") exc.message || contains (codes "Too Many Requests") exc.message
