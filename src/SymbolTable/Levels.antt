-- ===== src/SymbolTable/Levels.antt =====
-- The loops over levels find what a search through the list of scopes finds.
use bcpl.Prelude.{
  ℕ, zero, suc, ◌<◌, ◌≡◌, ◌∙◌, refl, ap, Option, none, some, List, [], ◌∷◌, Text, length, arith,
}
use bcpl.Prelude.Dict as Dict
use bcpl.Prelude.Dict.{Dict, lookup-insert}
use bcpl.SymbolTable.{
  Symbol, Scope, scope_at, set_scope_at, or_else, lookup_from, changed, change_from,
}

-- The specification: the first scope that has the name.
unfoldable pub innermost : Text → List Scope → Option Symbol
innermost name [] = none
innermost name (s ∷ below) = or_else (Dict.lookup name s) (innermost name below)

abbrev pub change_in :
    (name : Text) (change : Symbol → Symbol) (s : Scope) (below : List Scope)
    → Option Symbol
    → (others : List Scope) → List Scope
change_in name change s below (some symbol) others = Dict.insert name (change symbol) s ∷ below
change_in name change s below none others = s ∷ others

unfoldable pub change_innermost : Text → (Symbol → Symbol) → List Scope → List Scope
change_innermost name change [] = []
change_innermost name change (s ∷ below) =
    change_in name change s below (Dict.lookup name s) (change_innermost name change below)

pub scope_at-top : (s : Scope) (below : List Scope) → scope_at (length below) (s ∷ below) ≡ s
unfolding scope_at
scope_at-top s below = ground arith

pub set_scope_at-top :
    (new s : Scope) (below : List Scope) → set_scope_at (length below) new (s ∷ below) ≡ new ∷ below
unfolding set_scope_at
set_scope_at-top new s below = ground arith

scope_at-below :
    (level : ℕ) (s : Scope) (below : List Scope)
    → level < length below
    → scope_at level (s ∷ below) ≡ scope_at level below
unfolding scope_at
scope_at-below level s below h = ground arith

set_scope_at-below :
    (level : ℕ) (new s : Scope) (below : List Scope)
    → level < length below
    → set_scope_at level new (s ∷ below) ≡ s ∷ set_scope_at level new below
unfolding set_scope_at
set_scope_at-below level new s below h = ground arith

lookup_from-below :
    (name : Text) (level : ℕ) (s : Scope) (below : List Scope)
    → level < length below
    → lookup_from name level (s ∷ below) ≡ lookup_from name level below
unfolding lookup_from
lookup_from-below name zero s below h = rw (scope_at-below 0 s below h) refl
lookup_from-below name (suc level) s below h =
    rw (scope_at-below (suc level) s below h, lookup_from-below name level s below (omega arith))
      refl

or_else-none : (o : Option Symbol) → o ≡ or_else o none
or_else-none none = refl
or_else-none (some s) = refl

pub lookup_from-innermost :
    (name : Text) (s : Scope) (below : List Scope)
    → lookup_from name (length below) (s ∷ below) ≡ innermost name (s ∷ below)
unfolding lookup_from innermost
lookup_from-innermost name s [] = or_else-none (Dict.lookup name s)
lookup_from-innermost name s (r ∷ below) =
    ap
      (λ (c : Scope).
        or_else (Dict.lookup name c) (lookup_from name (length below) (s ∷ r ∷ below)))
      (scope_at-top s (r ∷ below))
    ∙ ap (λ (o : Option Symbol). or_else (Dict.lookup name s) o)
        (lookup_from-below name (length below) s (r ∷ below) (omega arith)
          ∙ lookup_from-innermost name r below)

changed-below :
    (name : Text) (change : Symbol → Symbol) (level : ℕ) (s : Scope) (below : List Scope)
    (found : Option Symbol) (others : List Scope)
    → level < length below
    → changed name change level (s ∷ below) found (s ∷ others)
      ≡ s ∷ changed name change level below found others
changed-below name change level s below none others h = refl
changed-below name change level s below (some symbol) others h =
    rw (scope_at-below level s below h) (set_scope_at-below level _ s below h)

change_from-below :
    (name : Text) (change : Symbol → Symbol) (level : ℕ) (s : Scope) (below : List Scope)
    → level < length below
    → change_from name change level (s ∷ below) ≡ s ∷ change_from name change level below
unfolding change_from
change_from-below name change zero s below h =
    rw (scope_at-below 0 s below h)
      (changed-below name change 0 s below (Dict.lookup name (scope_at 0 below)) below h)
change_from-below name change (suc level) s below h =
    rw
      (
        scope_at-below (suc level) s below h,
        change_from-below name change level s below (omega arith),
      )
      (changed-below name change (suc level) s below (Dict.lookup name (scope_at (suc level) below))
        _ h)

changed-top :
    (name : Text) (change : Symbol → Symbol) (s : Scope) (below : List Scope)
    (found : Option Symbol) (others : List Scope)
    → changed name change (length below) (s ∷ below) found (s ∷ others)
      ≡ change_in name change s below found others
changed-top name change s below none others = refl
changed-top name change s below (some symbol) others =
    rw (scope_at-top s below) (set_scope_at-top _ s below)

pub change_from-innermost :
    (name : Text) (change : Symbol → Symbol) (s : Scope) (below : List Scope)
    → change_from name change (length below) (s ∷ below) ≡ change_innermost name change (s ∷ below)
unfolding change_from change_innermost
change_from-innermost name change s [] = changed-top name change s [] (Dict.lookup name s) []
change_from-innermost name change s (r ∷ below) =
    let level = suc (length below) in
    let scopes : List Scope = s ∷ r ∷ below in
    ap
      (λ (c : Scope).
        changed name change level scopes (Dict.lookup name c)
          (change_from name change (length below) scopes))
      (scope_at-top s (r ∷ below))
    ∙ ap (λ (o : List Scope). changed name change level scopes (Dict.lookup name s) o)
        (change_from-below name change (length below) s (r ∷ below) (omega arith)
          ∙ ap (λ (o : List Scope). s ∷ o) (change_from-innermost name change r below))
    ∙ changed-top name change s (r ∷ below) (Dict.lookup name s) _
