-- ===== src/Tests/Data.antt =====
-- What the runs share: the instruction in a result.
use bcpl.Prelude.{Bool, true, false, ◌≡◌, refl, List, [], Result, ok, err}
use bcpl.Instruction.{Instruction, instruction}
use bcpl.LabelManager.{LabelManager}

abbrev pub succeeds {ℓ} : {A : Type ℓ} → Result A → Bool
succeeds (ok a) = true
succeeds (err e) = false

abbrev pub value : Result Instruction → Instruction
value (ok i) = i
value (err e) = instruction 0 []

pub ok-value : (r : Result Instruction) → succeeds r ≡ true → r ≡ ok (value r)
ok-value (ok i) h = refl
ok-value (err e) h = cc

abbrev pub values : Result (List Instruction) → List Instruction
values (ok is) = is
values (err e) = []

pub ok-values : (r : Result (List Instruction)) → succeeds r ≡ true → r ≡ ok (values r)
ok-values (ok is) h = refl
ok-values (err e) h = cc

abbrev pub outcome : Result (List Instruction × LabelManager) → List Instruction × LabelManager
outcome (ok r) = r
outcome (err e) = ([], record { defined_labels = []; next_label_id = 0 })

pub ok-outcome :
    (r : Result (List Instruction × LabelManager))
    → succeeds r ≡ true
    → r ≡ ok ((outcome r).0, (outcome r).1)
ok-outcome (ok r) h = refl
ok-outcome (err e) h = cc
