-- ===== src/Auth/Tests.antt =====
-- The cases of pkg/auth/auth_test.go, and the theorems of `Auth` at concrete headers.
use compute_backend.Prelude.{◌≡◌, refl, ◌≢◌, ◌↔◌, ◌⊎◌, false, [], ◌++◌, ok, err}
use compute_backend.Strings.{codes}
use compute_backend.Strings.Affix.{has_prefix}
use compute_backend.Auth.{missing_key, invalid_prefix, extract_key, key_prefix, extract_key_lem}

accepts_key : extract_key (codes "Key test-token") ≡ ok (codes "test-token")
unfolding extract_key
accepts_key = refl

refuses_others :
    (extract_key [] ≡ err missing_key)
    × (extract_key (codes "Bearer abc") ≡ err invalid_prefix)
    × (extract_key (codes "Key ") ≡ err missing_key)
unfolding extract_key
refuses_others = (refl, refl, refl)

extract_key_lem_example :
    ((extract_key (codes "Key k") ≡ ok (codes "k"))
      ↔ ((codes "Key k" ≡ key_prefix ++ codes "k") × (codes "k" ≢ [])))
    × ((extract_key (codes "Key k") ≡ err missing_key)
        ↔ ((codes "Key k" ≡ []) ⊎ (codes "Key k" ≡ key_prefix)))
    × ((extract_key (codes "Key k") ≡ err invalid_prefix)
        ↔ ((codes "Key k" ≢ []) × (has_prefix (codes "Key k") key_prefix ≡ false)))
extract_key_lem_example = extract_key_lem (codes "Key k") (codes "k")
