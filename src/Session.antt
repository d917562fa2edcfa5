-- ===== src/Session.antt =====
-- aws_advanced_python_wrapper/states: `SessionStateField` and `SessionState`.
pub mod Service
pub mod Connection
pub mod Transfer
pub mod Switching
mod Tests
use aws_advanced_python_wrap.Prelude.{Bool, true, false, not, Option, none, some}

pub record SessionStateField : Type 0 where
  pub value : Option Bool
  pub pristine_value : Option Bool

abbrev pub blank : SessionStateField
blank = record { value = none; pristine_value = none }

abbrev bool_eq : Bool → Bool → Bool
bool_eq true b = b
bool_eq false b = not b

-- `copy` starts from a blank field and sets what is not `None`.
unfoldable pub copy_field : SessionStateField → SessionStateField
copy_field f = record {
  value = elim f.value [ none ↦ blank.value | some v ↦ some v ];
  pristine_value = elim f.pristine_value [ none ↦ blank.pristine_value | some v ↦ some v ];
}

unfoldable pub reset_value : SessionStateField → SessionStateField
reset_value f = record f { value = none }

unfoldable pub reset_pristine_value : SessionStateField → SessionStateField
reset_pristine_value f = record f { pristine_value = none }

unfoldable pub reset : SessionStateField → SessionStateField
unfolding reset_value reset_pristine_value
reset f = reset_pristine_value (reset_value f)

unfoldable pub is_pristine : SessionStateField → Bool
is_pristine f = elim f.value [
  | none ↦ true
  | some v ↦ elim f.pristine_value [ none ↦ false | some p ↦ bool_eq p v ]
]

unfoldable pub can_restore_pristine : SessionStateField → Bool
can_restore_pristine f = elim f.pristine_value [
  | none ↦ false
  | some p ↦ elim f.value [ none ↦ true | some v ↦ not (bool_eq v p) ]
]

pub record SessionState : Type 0 where
  pub auto_commit : SessionStateField
  pub readonly : SessionStateField

unfoldable pub copy : SessionState → SessionState
unfolding copy_field
copy s = record { auto_commit = copy_field s.auto_commit; readonly = copy_field s.readonly }
