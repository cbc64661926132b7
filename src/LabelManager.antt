-- ===== src/LabelManager.antt =====
-- LabelManager.cpp: fresh label names, and the addresses of the labels that are defined.
pub mod Fresh
use bcpl.Prelude.{
  ℕ, ◌+◌, ◌%◌, ◌^◌, ◌≡◌, arith, Bool, true, false, [], ◌++◌, Option, none, some, Text, codes,
  if◌then◌else◌, Result, ok, err, runtime_error,
}
use bcpl.Prelude.Decimal.{to_string_nat}
use bcpl.Prelude.Dict.{Dict, lookup, insert, contains}
use bcpl.RuntimeManager.{RuntimeManager, is_function_registered}

pub record LabelManager : Type 0 where
  pub defined_labels : Dict ℕ
  pub next_label_id : ℕ

-- The counter is a `size_t`.
unfoldable pub create_label : LabelManager → Text × LabelManager
create_label m = (
  codes ".L" ++ to_string_nat m.next_label_id,
  record m { next_label_id = (m.next_label_id + 1) % 2 ^ 64 },
)

unfoldable pub create_global_label : Text → Text
create_global_label name = codes "global_" ++ name

unfoldable pub create_static_label : Text → Text
create_static_label name = codes "static_" ++ name

-- The runtime manager is the singleton that the source reads.
unfoldable pub is_runtime_label : RuntimeManager → Text → Bool
is_runtime_label runtime label_name = is_function_registered runtime label_name

unfoldable pub is_label_defined : LabelManager → Text → Bool
is_label_defined m label_name = contains label_name m.defined_labels

unfoldable pub define_label : LabelManager → Text → ℕ → Result LabelManager
unfolding is_label_defined
define_label m label_name address =
    if is_label_defined m label_name
    then err runtime_error
    else ok (record m { defined_labels = insert label_name address m.defined_labels })

abbrev pub found : Option ℕ → Result ℕ
found none = err runtime_error
found (some a) = ok a

unfoldable pub get_label_address : LabelManager → Text → Result ℕ
get_label_address m label_name = found (lookup label_name m.defined_labels)

unfoldable pub reset : LabelManager → LabelManager
reset m = record { defined_labels = []; next_label_id = 0 }
