-- ===== src/LabelManager/Fresh.antt =====
-- Names that `create_label` makes are not made twice before its counter wraps.
use bcpl.Prelude.{ℕ, zero, suc, ◌∷◌, Text}
use bcpl.LabelManager.{LabelManager, create_label}

-- The manager after `k` labels.
pub after : ℕ → LabelManager → LabelManager
after zero m = m
after (suc k) m = after k (create_label m).1

-- What stands behind `.L`.
abbrev behind_prefix : Text → Text
behind_prefix (c ∷ d ∷ t) = t
behind_prefix t = t
