-- ===== src/Resources/Tasks.antt =====
-- Families indexed by a task.
use fast_api_scaff.Prelude.{ℕ, ◌==◌, if◌then◌else◌}

abbrev pub update {ℓ} : {A : Type ℓ} → (ℕ → A) → ℕ → A → ℕ → A
update f i a j = if i == j then a else f j
