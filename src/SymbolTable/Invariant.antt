-- ===== src/SymbolTable/Invariant.antt =====
-- The calls of the symbol table keep a scope for every level.
use bcpl.Prelude.{
  ℕ, zero, suc, ◌+◌, ◌-◌, ◌≡◌, refl, Option, none, some, List, [], ◌∷◌, Text, length, arith,
}
use bcpl.Prelude.Dict as Dict
use bcpl.Prelude.Dict.{Dict, lookup-insert, is_some, contains}
use bcpl.SymbolTable.{
  Symbol, Scope, SymbolTable, symbol_table, scope_at, set_scope_at, enter_scope, exit_scope,
  pop_back, add_symbol, add_parameter, change_symbol, change_from, changed,
}

-- There is a scope for every level up to the current one, and none above.
abbrev pub IsValid : SymbolTable → Type 0
IsValid t = length t.scope_stack ≡ t.current_scope_level + 1

-- The calls that change a table.
pub data Step : SymbolTable → SymbolTable → Type 0 where
  enter : (t : SymbolTable) → Step t (enter_scope t)
  exit : (t : SymbolTable) → Step t (exit_scope t)
  add : (s : Symbol) (t : SymbolTable) → Step t (add_symbol s t).1
  parameter :
      (function_name param_name : Text) (type : ℕ) (t : SymbolTable)
      → Step t (add_parameter function_name param_name type t)
  change : (name : Text) (f : Symbol → Symbol) (t : SymbolTable) → Step t (change_symbol name f t)

pub data Reachable : SymbolTable → Type 0 where
  start : Reachable symbol_table
  then_step : {t u : SymbolTable} → Reachable t → Step t u → Reachable u

pub length-set_scope_at :
    (level : ℕ) (s : Scope) (scopes : List Scope)
    → length (set_scope_at level s scopes) ≡ length scopes
unfolding set_scope_at
length-set_scope_at level s [] = refl
length-set_scope_at level s (r ∷ below) = ground (arith, length-set_scope_at level s below)

length-changed :
    (name : Text) (f : Symbol → Symbol) (level : ℕ) (scopes : List Scope) (found : Option Symbol)
    (others : List Scope)
    → length others ≡ length scopes
    → length (changed name f level scopes found others) ≡ length scopes
length-changed name f level scopes none others h = h
length-changed name f level scopes (some s) others h = length-set_scope_at level _ scopes

length-pop_back : (scopes : List Scope) → length (pop_back scopes) ≡ length scopes - 1
length-pop_back [] = refl
length-pop_back (s ∷ below) = omega arith

pub length-change_from :
    (name : Text) (f : Symbol → Symbol) (level : ℕ) (scopes : List Scope)
    → length (change_from name f level scopes) ≡ length scopes
unfolding change_from
length-change_from name f zero scopes = length-changed name f 0 scopes _ scopes refl
length-change_from name f (suc level) scopes =
    length-changed name f (suc level) scopes _ (change_from name f level scopes)
      (length-change_from name f level scopes)

pub change_symbol-IsValid :
    (name : Text) (f : Symbol → Symbol) (t : SymbolTable)
    → IsValid t
    → IsValid (change_symbol name f t)
unfolding change_symbol
change_symbol-IsValid name f t h =
    ground (arith, length-change_from name f t.current_scope_level t.scope_stack)

pub add_symbol-IsValid : (s : Symbol) (t : SymbolTable) → IsValid t → IsValid (add_symbol s t).1
unfolding add_symbol
add_symbol-IsValid s t h =
    let l =
      length-set_scope_at t.current_scope_level
        (Dict.insert s.name s (scope_at t.current_scope_level t.scope_stack)) t.scope_stack in
    ground arith

pub exit_scope-IsValid : (t : SymbolTable) → IsValid t → IsValid (exit_scope t)
unfolding exit_scope
exit_scope-IsValid t h = let l = length-pop_back t.scope_stack in ground arith

Step-IsValid : {t u : SymbolTable} → Step t u → IsValid t → IsValid u
unfolding enter_scope add_parameter
Step-IsValid (enter t) h = omega arith
Step-IsValid (exit t) h = exit_scope-IsValid t h
Step-IsValid (add s t) h = add_symbol-IsValid s t h
Step-IsValid (parameter g p ty t) h = add_symbol-IsValid _ _ h
Step-IsValid (change name f t) h = change_symbol-IsValid name f t h

-- Each call of the symbol table keeps a scope for every level.
pub Reachable-IsValid : (t : SymbolTable) → Reachable t → IsValid t
Reachable-IsValid _ start = refl
Reachable-IsValid _ (then_step r m) = Step-IsValid m (Reachable-IsValid _ r)
