-- ===== src/Conditions/Tests.antt =====
-- A run of the manager, with one condition that holds and one that is unknown.
use cartographer.Prelude.{ℕ, ◌≡◌, refl, String, false, [], ◌∷◌}
use cartographer.Conditions.{Status, status_true, status_unknown, Addition, positive, finalize}
use cartographer.Conditions.Summary.{gathered, IsSummed, finalize-IsSummed}
use cartographer.Conditions.Stable.{retime}
use cartographer.Conditions.Stable.Repeat.{finalize_again}

abbrev addition : String → Status → ℕ → Addition
addition type status now = record {
  now = now;
  condition = record {
    type = type;
    status = status;
    observed_generation = 0;
    last_transition_time = 0;
    reason = "Reason";
    message = "";
  };
  polarity = positive;
}

abbrev submitted : Addition
submitted = addition "ResourcesSubmitted" status_true 3

abbrev healthy : Addition
healthy = addition "ResourcesHealthy" status_unknown 4

finalize-IsSummed_example :
    IsSummed "Ready"
      (submitted ∷ healthy ∷ [])
      (finalize 5 (gathered "Ready" [] (submitted ∷ healthy ∷ []))).conditions
finalize-IsSummed_example = finalize-IsSummed "Ready" [] submitted (healthy ∷ []) 5

finalize_again_example :
    ((finalize 9 (
        gathered "Ready"
          (finalize 5 (gathered "Ready" [] (submitted ∷ healthy ∷ []))).conditions
          (retime (7 ∷ 8 ∷ []) (submitted ∷ healthy ∷ [])))).conditions
      ≡ (finalize 5 (gathered "Ready" [] (submitted ∷ healthy ∷ []))).conditions)
    × ((finalize 9 (
          gathered "Ready"
            (finalize 5 (gathered "Ready" [] (submitted ∷ healthy ∷ []))).conditions
            (retime (7 ∷ 8 ∷ []) (submitted ∷ healthy ∷ [])))).changed
        ≡ false)
finalize_again_example =
    finalize_again "Ready" [] submitted (healthy ∷ []) 5 ((refl, tt), (tt, tt)) (refl, (refl, tt))
      (7 ∷ 8 ∷ []) 9
