-- ===== src/SymbolTable.antt =====
-- Symbol.h, SymbolTable.h and SymbolTable.cpp: symbols, and the stack of scopes that holds them.
-- The stack is a list with the innermost scope first; the level of a scope is the number of those
-- below it. A level is never negative, so it is a number, and a `VarType` is its number.
pub mod Levels
pub mod Invariant
pub mod Laws
pub mod Blocks
use bcpl.Prelude.{
  ℕ, zero, suc, ◌+◌, ◌-◌, ◌<◌, Bool, true, false, ◌||◌, Option, none, some, List, [], ◌∷◌, ◌++◌,
  Text, length, ltb, ◌==◌, if◌then◌else◌,
}
use bcpl.Prelude.Int.{ℤ}
use bcpl.Prelude.Dict as Dict
use bcpl.Prelude.Dict.{Dict, is_some, contains}

pub data SymbolKind : Type 0 where
  local_var static_var global_var parameter function float_function routine label : SymbolKind
  manifest runtime_function runtime_float_function runtime_routine : SymbolKind
  runtime_float_routine : SymbolKind

pub data SymbolLocation : Type 0 where
  stack : (stack_offset : ℤ) → SymbolLocation
  data_segment : (data_offset : ℕ) → SymbolLocation
  absolute : (absolute_value : ℤ) → SymbolLocation
  label_address : SymbolLocation
  unknown : SymbolLocation

pub record ParameterInfo : Type 0 where
  pub parameter_type : ℕ
  pub is_optional : Bool

pub record Symbol : Type 0 where
  pub name : Text
  pub kind : SymbolKind
  pub type : ℕ
  pub scope_level : ℕ
  pub location : SymbolLocation
  pub size : ℕ
  pub has_size : Bool
  pub parameters : List ParameterInfo

abbrev pub new_symbol : Text → SymbolKind → ℕ → ℕ → Symbol
new_symbol n k t l = record {
  name = n;
  kind = k;
  type = t;
  scope_level = l;
  location = unknown;
  size = 0;
  has_size = false;
  parameters = [];
}

abbrev pub Scope : Type 0
Scope = Dict Symbol

pub record SymbolTable : Type 0 where
  pub scope_stack : List Scope
  pub current_scope_level : ℕ
  pub current_function : Text
  pub function_parameters : Dict (List Text)

abbrev pub symbol_table : SymbolTable
symbol_table = record {
  scope_stack = [] ∷ [];
  current_scope_level = 0;
  current_function = [];
  function_parameters = [];
}

-- `scope_stack_[level]`. Every level up to the current one has a scope.
unfoldable pub scope_at : ℕ → List Scope → Scope
scope_at level [] = []
scope_at level (s ∷ below) = if length below == level then s else scope_at level below

unfoldable pub set_scope_at : ℕ → Scope → List Scope → List Scope
set_scope_at level scope [] = []
set_scope_at level scope (s ∷ below) =
    if length below == level then scope ∷ below else s ∷ set_scope_at level scope below

unfoldable pub enter_scope : SymbolTable → SymbolTable
enter_scope t = record t {
  scope_stack = [] ∷ t.scope_stack;
  current_scope_level = t.current_scope_level + 1;
}

abbrev pub pop_back : List Scope → List Scope
pop_back [] = []
pop_back (s ∷ below) = below

-- The global scope stays, with a warning.
unfoldable pub exit_scope : SymbolTable → SymbolTable
exit_scope t =
    if ltb 0 t.current_scope_level
    then record t {
      scope_stack = pop_back t.scope_stack;
      current_scope_level = t.current_scope_level - 1;
    }
    else t

-- Whether the symbol was added, and the table.
unfoldable pub add_symbol : Symbol → SymbolTable → Bool × SymbolTable
unfolding scope_at set_scope_at
add_symbol symbol t =
    let current_scope = scope_at t.current_scope_level t.scope_stack in
    if contains symbol.name current_scope then (false, t) else (
      true,
      record t {
        scope_stack =
            set_scope_at t.current_scope_level (Dict.insert symbol.name symbol current_scope)
              t.scope_stack;
      },
    )

abbrev pub add_new_symbol : Text → SymbolKind → ℕ → SymbolTable → Bool × SymbolTable
add_new_symbol name kind type t = add_symbol (new_symbol name kind type t.current_scope_level) t

abbrev pub or_else : Option Symbol → Option Symbol → Option Symbol
or_else (some s) other = some s
or_else none other = other

-- The loop of lookup from a level down to 0.
unfoldable pub lookup_from : Text → ℕ → List Scope → Option Symbol
unfolding scope_at
lookup_from name zero scopes = Dict.lookup name (scope_at 0 scopes)
lookup_from name (suc level) scopes =
    or_else (Dict.lookup name (scope_at (suc level) scopes)) (lookup_from name level scopes)

unfoldable pub lookup : Text → SymbolTable → Option Symbol
unfolding lookup_from
lookup name t = lookup_from name t.current_scope_level t.scope_stack

unfoldable pub lookup_in_current_scope : Text → SymbolTable → Option Symbol
unfolding scope_at
lookup_in_current_scope name t = Dict.lookup name (scope_at t.current_scope_level t.scope_stack)

-- The symbol that is found at a level is changed there; else the levels below are changed.
abbrev pub changed :
    (name : Text) (change : Symbol → Symbol) (level : ℕ) (scopes : List Scope)
    → Option Symbol
    → (others : List Scope) → List Scope
changed name change level scopes (some s) others =
    set_scope_at level (Dict.insert name (change s) (scope_at level scopes)) scopes
changed name change level scopes none others = others

unfoldable pub change_from : Text → (Symbol → Symbol) → ℕ → List Scope → List Scope
unfolding scope_at set_scope_at
change_from name change zero scopes =
    changed name change 0 scopes (Dict.lookup name (scope_at 0 scopes)) scopes
change_from name change (suc level) scopes =
    changed name change (suc level) scopes (Dict.lookup name (scope_at (suc level) scopes))
      (change_from name change level scopes)

-- The common part of the four setters.
unfoldable pub change_symbol : Text → (Symbol → Symbol) → SymbolTable → SymbolTable
unfolding lookup change_from
change_symbol name change t =
    if is_some (lookup name t)
    then record t { scope_stack = change_from name change t.current_scope_level t.scope_stack }
    else t

abbrev pub set_symbol_type : Text → ℕ → SymbolTable → SymbolTable
set_symbol_type name ty = change_symbol name (λ s. record s { type = ty })

abbrev pub set_symbol_stack_location : Text → ℤ → SymbolTable → SymbolTable
set_symbol_stack_location name offset =
    change_symbol name (λ s. record s { location = stack offset })

abbrev pub set_symbol_data_location : Text → ℕ → SymbolTable → SymbolTable
set_symbol_data_location name offset =
    change_symbol name (λ s. record s { location = data_segment offset })

abbrev pub set_symbol_absolute_value : Text → ℤ → SymbolTable → SymbolTable
set_symbol_absolute_value name value =
    change_symbol name (λ s. record s { location = absolute value })

abbrev pub or_no_parameters : Option (List Text) → List Text
or_no_parameters none = []
or_no_parameters (some ps) = ps

abbrev pub get_function_parameters : Text → SymbolTable → List Text
get_function_parameters function_name t =
    or_no_parameters (Dict.lookup function_name t.function_parameters)

unfoldable pub add_parameter : Text → Text → ℕ → SymbolTable → SymbolTable
add_parameter function_name param_name type t =
    let ps = get_function_parameters function_name t ++ param_name ∷ [] in
    let t' = record t {
      function_parameters = Dict.insert function_name ps t.function_parameters;
    } in
    (add_new_symbol param_name SymbolKind.parameter type t').1

abbrev pub set_current_function : Text → SymbolTable → SymbolTable
set_current_function function_name t = record t { current_function = function_name }
