-- ===== src/Admin/Answers.antt =====
-- cmd/admin-rest/main.go: what a handler answers, a code with a payload or with the text of an error.
use compute_backend.Prelude.{ℕ}
use compute_backend.Strings.{Text}

pub data Answer (P : Type 0) : Type 0 where
  answers : ℕ → P → Answer P
  refuses : ℕ → Text → Answer P
