-- ===== src/Tests/Symbols.antt =====
-- Runs of the symbol table.
use bcpl.Prelude.{true, ◌≡◌, ◌&&◌, not, refl, some, Text, codes, text_eq, if◌then◌else◌}
use bcpl.Prelude.Int.{pos}
use bcpl.Prelude.Dict as Dict
use bcpl.Prelude.Dict.{is_some}
use bcpl.SymbolTable.{
  Symbol, SymbolKind, SymbolTable, symbol_table, new_symbol, enter_scope, exit_scope, add_symbol,
  lookup, lookup_in_current_scope, change_symbol, stack, add_parameter,
}
use bcpl.SymbolTable.Levels.{innermost, change_innermost}
use bcpl.SymbolTable.Invariant.{Step, Reachable}
use bcpl.SymbolTable.Laws.{lookup-innermost, lookup-add_symbol, lookup-change_symbol, change_found}
use bcpl.SymbolTable.Blocks.{Declares, exit_scope-enter_scope}

abbrev x : Text
x = codes "X"

abbrev global_x : Symbol
global_x = new_symbol x SymbolKind.global_var 1 0

abbrev local_x : Symbol
local_x = new_symbol x SymbolKind.local_var 2 1

abbrev globals : SymbolTable
globals = (add_symbol global_x symbol_table).1

globals-Reachable : Reachable globals
globals-Reachable = Reachable.then_step Reachable.start (Step.add global_x symbol_table)

abbrev inner : SymbolTable
inner = enter_scope globals

inner-Reachable : Reachable inner
inner-Reachable = Reachable.then_step globals-Reachable (Step.enter globals)

lookup-innermost_example : lookup x inner ≡ innermost x inner.scope_stack
lookup-innermost_example = lookup-innermost x inner inner-Reachable

lookup-add_symbol_example :
    ((add_symbol local_x inner).0 ≡ not (is_some (lookup_in_current_scope x inner)))
    × (lookup x (add_symbol local_x inner).1 ≡ (
        if not (is_some (lookup_in_current_scope x inner)) && text_eq x x
        then some local_x
        else lookup x inner))
lookup-add_symbol_example = lookup-add_symbol local_x inner x inner-Reachable

abbrev at_frame : Symbol → Symbol
at_frame s = record s { location = stack (pos 16) }

lookup-change_symbol_example :
    (change_symbol x at_frame inner
      ≡ record inner { scope_stack = change_innermost x at_frame inner.scope_stack })
    × (lookup x (change_symbol x at_frame inner)
        ≡ (if text_eq x x then change_found at_frame (lookup x inner) else lookup x inner))
lookup-change_symbol_example = lookup-change_symbol x at_frame inner x inner-Reachable

-- A function with a parameter and a local variable, whose place is set.
abbrev in_function : SymbolTable
in_function =
    change_symbol x at_frame (add_symbol local_x (add_parameter (codes "F") (codes "P") 1 inner)).1

x_here :
    is_some (
      lookup_in_current_scope x
        (add_symbol local_x (add_parameter (codes "F") (codes "P") 1 inner)).1)
    ≡ true
unfolding lookup_in_current_scope add_symbol add_parameter enter_scope Dict.lookup Dict.insert
    text_eq
x_here = refl

exit_scope-enter_scope_example :
    exit_scope in_function
    ≡ record globals { function_parameters = in_function.function_parameters }
exit_scope-enter_scope_example = exit_scope-enter_scope globals in_function globals-Reachable (
    Declares.change x at_frame x_here (
      Declares.declare local_x
        (Declares.parameter (codes "F") (codes "P") 1 (Declares.nothing inner))))

-- The local symbol hides the global one, which is found again behind the scope.
local_found : lookup x (add_symbol local_x inner).1 ≡ some local_x
unfolding lookup add_symbol enter_scope Dict.lookup Dict.insert text_eq
local_found = refl

global_found : lookup x (exit_scope (add_symbol local_x inner).1) ≡ some global_x
unfolding lookup add_symbol enter_scope exit_scope Dict.lookup Dict.insert text_eq
global_found = refl
