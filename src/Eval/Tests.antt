-- ===== src/Eval/Tests.antt =====
-- Runs of the wrapping of a path.
use cartographer.Prelude.{◌≡◌, refl}
use cartographer.Eval.{ensure_valid_wrapping, has_suffix}

bare : ensure_valid_wrapping "spec.url" ≡ "{.spec.url}"
unfolding ensure_valid_wrapping has_suffix
bare = refl

dotted : ensure_valid_wrapping ".spec.url" ≡ "{.spec.url}"
unfolding ensure_valid_wrapping has_suffix
dotted = refl
