-- ===== src/SymbolTable/Blocks.antt =====
-- A scope that is left takes its symbols with it.
use bcpl.Prelude.{
  ℕ, zero, suc, ◌+◌, ◌-◌, ◌≡◌, ◌∙◌, refl, sym, ap, Option, none, some, Text, true, Bool-cases, inl,
  inr, List, [], ◌∷◌, length, arith, subst, ltb,
}
use bcpl.Prelude.Dict as Dict
use bcpl.Prelude.Dict.{contains, is_some}
use bcpl.SymbolTable.{
  Symbol, Scope, SymbolTable, scope_at, set_scope_at, enter_scope, exit_scope, pop_back, add_symbol,
  add_parameter, change_symbol, change_from, changed, lookup, lookup_in_current_scope,
}
use bcpl.SymbolTable.Invariant.{
  IsValid, Reachable, Reachable-IsValid, length-set_scope_at, length-change_from,
}

-- What a block or the body of a function does: it declares symbols and parameters, sets properties
-- of symbols that its own scope has, and has blocks inside.
pub data Declares : SymbolTable → SymbolTable → Type 0 where
  nothing : (t : SymbolTable) → Declares t t
  declare : {t u : SymbolTable} (s : Symbol) → Declares t u → Declares t (add_symbol s u).1
  parameter :
      {t u : SymbolTable} (function_name param_name : Text) (type : ℕ)
      → Declares t u
      → Declares t (add_parameter function_name param_name type u)
  change :
      {t u : SymbolTable} (name : Text) (f : Symbol → Symbol)
      → is_some (lookup_in_current_scope name u) ≡ true
      → Declares t u
      → Declares t (change_symbol name f u)
  block :
      {t u v : SymbolTable} → Declares t u → Declares (enter_scope u) v → Declares t (exit_scope v)

-- All but the innermost scope and the lists of parameters is the same.
record SameBelow (t u : SymbolTable) : Type 0 where
  below : pop_back u.scope_stack ≡ pop_back t.scope_stack
  level : u.current_scope_level ≡ t.current_scope_level
  function : u.current_function ≡ t.current_function
  valid : IsValid u

pop_back-set_scope_at :
    (level : ℕ) (s : Scope) (scopes : List Scope)
    → length scopes ≡ level + 1
    → pop_back (set_scope_at level s scopes) ≡ pop_back scopes
unfolding set_scope_at
pop_back-set_scope_at level s [] h = refl
pop_back-set_scope_at level s (c ∷ below) h = ground arith

add_symbol-SameBelow :
    (s : Symbol) (t u : SymbolTable) → SameBelow t u → SameBelow t (add_symbol s u).1
unfolding add_symbol
add_symbol-SameBelow s t u h =
    elim (Bool-cases (contains s.name (scope_at u.current_scope_level u.scope_stack))) [
      | inl old ↦ rw old h
      | inr new ↦ rw new (record {
        below = pop_back-set_scope_at u.current_scope_level _ u.scope_stack h.valid ∙ h.below;
        level = h.level;
        function = h.function;
        valid = length-set_scope_at u.current_scope_level _ u.scope_stack ∙ h.valid;
      })
    ]

changed-here :
    (name : Text) (f : Symbol → Symbol) (level : ℕ) (scopes : List Scope) (o : Option Symbol)
    (others : List Scope)
    → is_some o ≡ true
    → (s : Scope) × (changed name f level scopes o others ≡ set_scope_at level s scopes)
changed-here name f level scopes none others h = absurd (cc)
changed-here name f level scopes (some x) others h = (_, refl)

change_from-here :
    (name : Text) (f : Symbol → Symbol) (level : ℕ) (scopes : List Scope)
    → is_some (Dict.lookup name (scope_at level scopes)) ≡ true
    → (s : Scope) × (change_from name f level scopes ≡ set_scope_at level s scopes)
unfolding change_from
change_from-here name f zero scopes h = changed-here name f 0 scopes _ scopes h
change_from-here name f (suc level) scopes h = changed-here name f (suc level) scopes _ _ h

change_symbol-SameBelow :
    (name : Text) (f : Symbol → Symbol) (t u : SymbolTable)
    → is_some (lookup_in_current_scope name u) ≡ true
    → SameBelow t u
    → SameBelow t (change_symbol name f u)
unfolding change_symbol lookup_in_current_scope
change_symbol-SameBelow name f t u here h =
    let (s, e) = change_from-here name f u.current_scope_level u.scope_stack here in
    elim (Bool-cases (is_some (lookup name u))) [
      | inl found ↦ rw found (record {
        below =
            ap pop_back e
            ∙ pop_back-set_scope_at u.current_scope_level s u.scope_stack h.valid
            ∙ h.below;
        level = h.level;
        function = h.function;
        valid = length-change_from name f u.current_scope_level u.scope_stack ∙ h.valid;
      })
      | inr missing ↦ rw missing h
    ]

enter_scope-IsValid : (t : SymbolTable) → IsValid t → IsValid (enter_scope t)
unfolding enter_scope
enter_scope-IsValid t h = omega arith

exit_scope-enter :
    (u v : SymbolTable)
    → IsValid u
    → SameBelow (enter_scope u) v
    → exit_scope v ≡ record u { function_parameters = v.function_parameters }
unfolding exit_scope enter_scope
exit_scope-enter u v h s =
    let level : v.current_scope_level - 1 ≡ u.current_scope_level = omega (arith, s.level) in
    let inner : ltb 0 v.current_scope_level ≡ true = ground (arith, s.level) in
    rw inner (λ i. record {
      scope_stack = s.below i;
      current_scope_level = level i;
      current_function = s.function i;
      function_parameters = v.function_parameters;
    })

Declares-SameBelow : {t u : SymbolTable} → Declares t u → IsValid t → SameBelow t u
unfolding enter_scope add_parameter
Declares-SameBelow {t} (nothing t') h = record {
  below = refl;
  level = refl;
  function = refl;
  valid = h;
}
Declares-SameBelow {t} (declare s d) h = add_symbol-SameBelow s t _ (Declares-SameBelow d h)
Declares-SameBelow {t} (block {u = u} {v} d e) h =
    let outer = Declares-SameBelow d h in
    let inner = Declares-SameBelow e (enter_scope-IsValid u outer.valid) in
    subst (SameBelow t) (sym (exit_scope-enter u v outer.valid inner)) (record {
      below = outer.below;
      level = outer.level;
      function = outer.function;
      valid = outer.valid;
    })
Declares-SameBelow {t} (parameter {u = u} g p type d) h =
    let s = Declares-SameBelow d h in
    add_symbol-SameBelow _ t _
      (record { below = s.below; level = s.level; function = s.function; valid = s.valid })
Declares-SameBelow {t} (change {u = u} name f here d) h =
    change_symbol-SameBelow name f t u here (Declares-SameBelow d h)

-- In a reachable table, the table behind a block is the table before it but for the parameters of
-- functions that were recorded inside, whatever symbols and parameters the block and the blocks in it
-- declare, and however each sets the properties of symbols of its own scope.
pub exit_scope-enter_scope :
    (t u : SymbolTable)
    → Reachable t
    → Declares (enter_scope t) u
    → exit_scope u ≡ record t { function_parameters = u.function_parameters }
exit_scope-enter_scope t u r d =
    let h = Reachable-IsValid t r in
    exit_scope-enter t u h (Declares-SameBelow d (enter_scope-IsValid t h))
