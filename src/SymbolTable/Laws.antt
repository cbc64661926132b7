-- ===== src/SymbolTable/Laws.antt =====
-- What a look-up finds after each operation of the symbol table.
use bcpl.Prelude.{
  ℕ, ◌+◌, ◌≡◌, ◌∙◌, refl, sym, ap, Bool, true, false, not, ◌&&◌, Bool-cases, inl, inr, Option, none,
  some, List, [], ◌∷◌, Text, text_eq, text_eq_iff, length, arith, if◌then◌else◌,
}
use bcpl.Prelude.Dict as Dict
use bcpl.Prelude.Dict.{Dict, lookup-insert, is_some, contains}
use bcpl.SymbolTable.{
  Symbol, Scope, SymbolTable, scope_at, set_scope_at, add_symbol, or_else, lookup,
  lookup_in_current_scope, lookup_from, change_symbol, change_from,
}
use bcpl.SymbolTable.Levels.{
  innermost, change_in, change_innermost, scope_at-top, set_scope_at-top, lookup_from-innermost,
  change_from-innermost,
}
use bcpl.SymbolTable.Invariant.{
  IsValid, Reachable, Reachable-IsValid, length-set_scope_at, length-change_from,
}

lookup_from-top :
    (name : Text) (level : ℕ) (scopes : List Scope)
    → length scopes ≡ level + 1
    → lookup_from name level scopes ≡ innermost name scopes
lookup_from-top name level [] h = absurd (omega arith)
lookup_from-top name level (s ∷ below) h =
    let e : level ≡ length below = omega arith in rw e (lookup_from-innermost name s below)

-- The level by level search is that for the innermost scope.
pub lookup-innermost :
    (name : Text) (t : SymbolTable) → Reachable t → lookup name t ≡ innermost name t.scope_stack
unfolding lookup
lookup-innermost name t r =
    lookup_from-top name t.current_scope_level t.scope_stack (Reachable-IsValid t r)

lookup-innermost_valid :
    (name : Text) (t : SymbolTable) → IsValid t → lookup name t ≡ innermost name t.scope_stack
unfolding lookup
lookup-innermost_valid name t h = lookup_from-top name t.current_scope_level t.scope_stack h

or_else-if :
    (b : Bool) (s : Symbol) (o m : Option Symbol)
    → or_else (if b then some s else o) m ≡ (if b then some s else or_else o m)
or_else-if true s o m = refl
or_else-if false s o m = refl

innermost-insert :
    (s : Symbol) (name : Text) (level : ℕ) (scopes : List Scope)
    → length scopes ≡ level + 1
    → innermost name (set_scope_at level (Dict.insert s.name s (scope_at level scopes)) scopes)
      ≡ (if text_eq s.name name then some s else innermost name scopes)
unfolding innermost
innermost-insert s name level [] h = absurd (omega arith)
innermost-insert s name level (c ∷ below) h =
    let e : level ≡ length below = omega arith in
    rw
      (
        e,
        scope_at-top c below,
        set_scope_at-top (Dict.insert s.name s c) c below,
        lookup-insert s.name name s c,
      )
      (or_else-if (text_eq s.name name) s (Dict.lookup name c) (innermost name below))

new-IsValid :
    (s : Symbol) (t : SymbolTable)
    → IsValid t
    → IsValid (record t {
      scope_stack =
          set_scope_at t.current_scope_level
            (Dict.insert s.name s (scope_at t.current_scope_level t.scope_stack))
            t.scope_stack;
    })
new-IsValid s t h =
    length-set_scope_at t.current_scope_level
      (Dict.insert s.name s (scope_at t.current_scope_level t.scope_stack)) t.scope_stack
    ∙ h

-- A symbol is added to the innermost scope where that has none of its name, and hides those of the
-- outer scopes; what other names mean does not change.
pub lookup-add_symbol :
    (s : Symbol) (t : SymbolTable) (name : Text)
    → Reachable t
    → let added = not (is_some (lookup_in_current_scope s.name t)) in
      ((add_symbol s t).0 ≡ added)
      × (lookup name (add_symbol s t).1
          ≡ (if added && text_eq s.name name then some s else lookup name t))
unfolding lookup_in_current_scope add_symbol
lookup-add_symbol s t name r =
    let h = Reachable-IsValid t r in
    elim (Bool-cases (contains s.name (scope_at t.current_scope_level t.scope_stack))) [
      | inl old ↦ rw old (refl, refl)
      | inr new ↦ rw new (
        refl,
        lookup-innermost_valid name _ (new-IsValid s t h)
            ∙ innermost-insert s name t.current_scope_level t.scope_stack h
            ∙ ap (λ (o : Option Symbol). if text_eq s.name name then some s else o)
                (sym (lookup-innermost_valid name t h)),
      )
    ]

abbrev pub change_found : (Symbol → Symbol) → Option Symbol → Option Symbol
change_found f none = none
change_found f (some s) = some (f s)

innermost-change_in :
    (name j : Text) (f : Symbol → Symbol) (s : Scope) (below : List Scope) (found : Option Symbol)
    (others : List Scope)
    → Dict.lookup name s ≡ found
    → innermost j others
      ≡ (if text_eq name j then change_found f (innermost j below) else innermost j below)
    → innermost j (change_in name f s below found others) ≡ (
        if text_eq name j
        then change_found f (or_else (Dict.lookup j s) (innermost j below))
        else or_else (Dict.lookup j s) (innermost j below))
unfolding innermost
innermost-change_in name j f s below none others e ih = ground (arith, text_eq_iff name j)
innermost-change_in name j f s below (some x) others e ih =
    ground (arith, text_eq_iff name j, lookup-insert name j (f x) s)

innermost-change_innermost :
    (name j : Text) (f : Symbol → Symbol) (scopes : List Scope)
    → innermost j (change_innermost name f scopes)
      ≡ (if text_eq name j then change_found f (innermost j scopes) else innermost j scopes)
unfolding innermost change_innermost
innermost-change_innermost name j f [] = ground arith
innermost-change_innermost name j f (s ∷ below) =
    innermost-change_in name j f s below (Dict.lookup name s) (change_innermost name f below) refl
      (innermost-change_innermost name j f below)

change_from-top :
    (name : Text) (f : Symbol → Symbol) (level : ℕ) (scopes : List Scope)
    → length scopes ≡ level + 1
    → change_from name f level scopes ≡ change_innermost name f scopes
change_from-top name f level [] h = absurd (omega arith)
change_from-top name f level (s ∷ below) h =
    let e : level ≡ length below = omega arith in rw e (change_from-innermost name f s below)

unfound :
    (name j : Text) (f : Symbol → Symbol) (t : SymbolTable)
    → is_some (lookup name t) ≡ false
    → lookup j t ≡ (if text_eq name j then change_found f (lookup j t) else lookup j t)
unfound name j f t h = ground (arith, text_eq_iff name j)

change_in-unfound :
    (name : Text) (f : Symbol → Symbol) (s : Scope) (below : List Scope) (found : Option Symbol)
    {others : List Scope}
    → is_some (or_else found (innermost name below)) ≡ false
    → (is_some (innermost name below) ≡ false → others ≡ below)
    → change_in name f s below found others ≡ s ∷ below
change_in-unfound name f s below none h k = ap (λ (b : List Scope). s ∷ b) (k h)
change_in-unfound name f s below (some x) h k = absurd (cc)

change_innermost-unfound :
    (name : Text) (f : Symbol → Symbol) (scopes : List Scope)
    → is_some (innermost name scopes) ≡ false
    → change_innermost name f scopes ≡ scopes
unfolding innermost change_innermost
change_innermost-unfound name f [] h = refl
change_innermost-unfound name f (s ∷ below) h =
    change_in-unfound name f s below (Dict.lookup name s) h
      (λ k. change_innermost-unfound name f below k)

-- Of the whole table, only the innermost scope that has the name is changed.
change_symbol-innermost :
    (name : Text) (f : Symbol → Symbol) (t : SymbolTable)
    → IsValid t
    → change_symbol name f t ≡ record t { scope_stack = change_innermost name f t.scope_stack }
unfolding change_symbol
change_symbol-innermost name f t h = elim (Bool-cases (is_some (lookup name t))) [
  | inl found ↦ rw found (λ i. record t {
    scope_stack = change_from-top name f t.current_scope_level t.scope_stack h i;
  })
  | inr missing ↦
      let none_there = ap is_some (sym (lookup-innermost_valid name t h)) ∙ missing in
      rw missing (λ i. record t {
        scope_stack = sym (change_innermost-unfound name f t.scope_stack none_there) i;
      })
]

lookup-change_symbol_valid :
    (name : Text) (f : Symbol → Symbol) (t : SymbolTable) (j : Text)
    → IsValid t
    → lookup j (change_symbol name f t)
      ≡ (if text_eq name j then change_found f (lookup j t) else lookup j t)
unfolding change_symbol
lookup-change_symbol_valid name f t j h = elim (Bool-cases (is_some (lookup name t))) [
  | inl found ↦ rw found (
      lookup_from-top j t.current_scope_level
        (change_from name f t.current_scope_level t.scope_stack)
        (length-change_from name f t.current_scope_level t.scope_stack ∙ h)
      ∙ ap (innermost j) (change_from-top name f t.current_scope_level t.scope_stack h)
      ∙ innermost-change_innermost name j f t.scope_stack
      ∙ ap (λ (o : Option Symbol). if text_eq name j then change_found f o else o)
          (sym (lookup-innermost_valid j t h)))
  | inr missing ↦ rw missing (unfound name j f t missing)
]

-- In a reachable table a setter changes the symbol of the name in the innermost scope that has one,
-- and nothing else of the table: neither the other scopes, which may have hidden symbols of the name,
-- nor what is beside them. So a look-up of the name finds the changed symbol, where there is one, and
-- a look-up of another name finds what it found.
pub lookup-change_symbol :
    (name : Text) (f : Symbol → Symbol) (t : SymbolTable) (j : Text)
    → Reachable t
    → (change_symbol name f t ≡ record t { scope_stack = change_innermost name f t.scope_stack })
      × (lookup j (change_symbol name f t)
          ≡ (if text_eq name j then change_found f (lookup j t) else lookup j t))
lookup-change_symbol name f t j r =
    let h = Reachable-IsValid t r in
    (change_symbol-innermost name f t h, lookup-change_symbol_valid name f t j h)
