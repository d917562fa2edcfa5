-- ===== src/Errors.antt =====
-- aws_advanced_python_wrapper/errors.py: the exceptions that the modelled code raises, handles or
-- passes on. What a driver raises is `driver_error` with a number for the exception object;
-- `attribute_error` is what Python raises for an attribute or an item of None, and `type_error` what it
-- raises for a comparison of unlike types.
use Prim.Native.Nat.{ℕ}
use mathlib.Core.Bool.{Bool, true, false}

pub data Exc : Type 0 where
  aws_wrapper_error failover_failed_error failover_success_error : Exc
  transaction_resolution_unknown_error read_write_splitting_error query_timeout_error : Exc
  attribute_error type_error unsupported_operation_error : Exc
  driver_error : ℕ → Exc

-- `isinstance(error, FailoverError)`
abbrev pub is_failover_error : Exc → Bool
is_failover_error failover_failed_error = true
is_failover_error failover_success_error = true
is_failover_error transaction_resolution_unknown_error = true
is_failover_error _ = false

-- `isinstance(error, UnsupportedOperationError)`
abbrev pub is_unsupported_operation_error : Exc → Bool
is_unsupported_operation_error unsupported_operation_error = true
is_unsupported_operation_error _ = false
