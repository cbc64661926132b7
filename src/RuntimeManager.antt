-- ===== src/RuntimeManager.antt =====
-- RuntimeManager.cpp: the registered runtime functions, by upper-cased name.
-- An address is a number. The number of arguments, the kind of a function and the printing are left
-- out, as is the table in the data segment.
use bcpl.Prelude.{
  ℕ, ◌+◌, ◌-◌, ◌/◌, ◌%◌, ◌^◌, Bool, ◌&&◌, Option, none, some, Text, map, leb, if◌then◌else◌, Result,
  ok, err, runtime_error,
}
use bcpl.Prelude.Dict.{Dict, lookup, insert, contains}

pub record RuntimeFunction : Type 0 where
  pub address : ℕ
  pub table_offset : ℕ

pub record RuntimeManager : Type 0 where
  pub functions : Dict RuntimeFunction
  pub next_table_offset : ℕ

-- `::toupper` in the C locale.
unfoldable pub upper : ℕ → ℕ
upper c = if leb b'a' c && leb c b'z' then c - 32 else c

unfoldable pub to_upper : Text → Text
unfolding upper
to_upper = map upper

unfoldable pub is_function_registered : RuntimeManager → Text → Bool
is_function_registered m name = contains (to_upper name) m.functions

-- The manager changes also where a full table makes the call throw, so it is returned beside the error.
unfoldable pub register_function : RuntimeManager → Text → ℕ → Result (Unit {0}) × RuntimeManager
register_function m name address =
    let offset = m.next_table_offset in
    if contains (to_upper name) m.functions
    then (err runtime_error, m)
    else (if leb 256 (offset / 8)
        then (err runtime_error, record m { next_table_offset = (offset + 8) % 2 ^ 64 })
        else (
          ok tt,
          record m {
            functions =
                insert (to_upper name) (record { address = address; table_offset = offset })
                  m.functions;
            next_table_offset = (offset + 8) % 2 ^ 64;
          },
        ))

abbrev found : Option RuntimeFunction → Result RuntimeFunction
found none = err runtime_error
found (some f) = ok f

unfoldable pub get_function : RuntimeManager → Text → Result RuntimeFunction
get_function m name = found (lookup (to_upper name) m.functions)
