-- ===== src/Strings/Tests.antt =====
-- Letter case beyond ASCII.
use compute_backend.Prelude.{◌≡◌, refl, true, false}
use compute_backend.Strings.Base.{codes, text_eq}
use compute_backend.Strings.CaseFolding.{fold_by, case_ranges}
use compute_backend.Strings.Fold.{equal_fold, to_lower}

folds :
    (equal_fold (codes "QWEN-Kſ") (codes "qwen-ks") ≡ true)
    × (equal_fold (codes "ÄΣЖ") (codes "äςж") ≡ true)
    × (equal_fold (codes "İ") (codes "i") ≡ false)
unfolding equal_fold text_eq fold_by case_ranges
folds = (refl, refl, refl)

lowers : to_lower (codes "A.BİN") ≡ codes "a.bin"
unfolding to_lower
lowers = refl
