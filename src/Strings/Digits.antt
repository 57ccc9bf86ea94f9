-- ===== src/Strings/Digits.antt =====
-- The verbs `%o` and `%d` of package fmt.
use compute_backend.Prelude.{ℕ, zero, suc, ◌+◌, ◌/◌, ◌%◌, ◌∷◌, ltb, if◌then◌else◌, []}
use compute_backend.Strings.Base.{Text}

-- The verbs `%o` and `%d`: the digits of a number below `base ^ fuel`.
unfoldable pub digits : ℕ → ℕ → ℕ → Text → Text
digits base zero n tail = tail
digits base (suc fuel) n tail =
    let more = digits base fuel (n / base) ((48 + n % base) ∷ tail) in
    if ltb n base then (48 + n) ∷ tail else more

-- An int of 64 bits has at most twenty decimal digits.
unfoldable pub itoa : ℕ → Text
unfolding digits
itoa n = digits 10 20 n []
