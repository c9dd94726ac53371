-- ===== src/Runnable/Taken.antt =====
-- Where the outputs of a realized runnable come from.
use cartographer.Prelude.{
  ℕ, ◌≤◌, String, ◌≡◌, refl, sym, subst, ap, ◌∙◌, ◌⊎◌, inl, inr, Bool, true, false, Option, none,
  some, List, [], ◌∷◌, map, All, IsAmong, arith, if◌then◌else◌,
}
use cartographer.Prelude.Dict.{lookup, IsMap}
use cartographer.Prelude.Json.{Json, text, equals_text, equals_text_lem}
use cartographer.Prelude.Result.{Result, ok, Result-cases}
use cartographer.Eval.{evaluate_json_path}
use cartographer.Conditions.{is_true, status_true, status_false}
use cartographer.Repository.Cache.{Unstructured}
use cartographer.Runnable.{
  ExaminedObject, latest_loop, get_latest_successful_obj_from_examined_object,
}
use cartographer.Runnable.Latest.{IsSuccess, AreUpTo, time_of, get_latest_successful_obj_lem}
use cartographer.Runnable.Outputs.{
  RunTemplate, RunOutputs, success_status_path, is_successful, latest_successful,
  get_latest_successful_object, get_outputs_of_single_object, output_of_latest,
  get_latest_successful_output,
}
use cartographer.Runnable.Realize.{Runnable, outputs_or_status}
use cartographer.Runnable.Read.{AllRead, value_or, get_outputs_of_single_object-IsRead}

-- The outputs of a run, or those of the status where the run has none.
unfoldable pub IsKeptOr : Option RunOutputs → RunOutputs → Option RunOutputs → Type 0
IsKeptOr status [] outputs = outputs ≡ status
IsKeptOr status (o ∷ os) outputs = outputs ≡ some (o ∷ os)

outputs_or_status-IsKeptOr :
    (runnable : Runnable) (found : RunOutputs)
    → IsKeptOr runnable.status_outputs found (outputs_or_status runnable found)
unfolding IsKeptOr outputs_or_status
outputs_or_status-IsKeptOr runnable [] = refl
outputs_or_status-IsKeptOr runnable (o ∷ os) = refl

module _ (evaluate : String → Unstructured → Result String (List Json)) where
  -- The status of the condition Succeeded is the text True.
  abbrev pub HasSucceeded : Unstructured → Type 0
  HasSucceeded o = evaluate_json_path evaluate success_status_path o ≡ ok (text "True")

  -- No run that has succeeded is newer.
  abbrev pub AreNotNewer : ℕ → List Unstructured → Type 0
  AreNotNewer t = All (λ o. (¬ HasSucceeded o) ⊎ (o.creation_timestamp ≤ t))

  module _ (marshal : Json → Result String String) where
    success : Unstructured → Bool
    success o = is_successful evaluate marshal o

    is_successful_true : (o : Unstructured) → success o ≡ true → HasSucceeded o
    unfolding is_successful success
    is_successful_true o h =
        elim (Result-cases (evaluate_json_path evaluate success_status_path o)) [
          | inl (v, e) ↦ e ∙ ap ok (equals_text_lem v "True" (ground (arith, h, e)))
          | inr (x, e) ↦ absurd (ground (arith, h, e))
        ]

    is_successful_false : (o : Unstructured) → success o ≡ false → ¬ HasSucceeded o
    unfolding is_successful success
    is_successful_false o h e =
        let same : equals_text (text "True") "True" ≡ true = unfold equals_text in refl in
        ground (arith, h, e, same)

    -- A run as the other loop sees it.
    examined : Unstructured → ExaminedObject
    examined o = record {
      stamped_object = o;
      health = if success o then status_true else status_false;
    }

    examined-health : (o : Unstructured) → is_true (examined o).health ≡ success o
    unfolding examined
    examined-health o = ground arith

    latest_successful-loop :
        (os : List Unstructured) (t : ℕ) (found : Option Unstructured)
        → latest_successful evaluate marshal os t found ≡ latest_loop (map examined os) t found
    unfolding latest_successful latest_loop success examined
    latest_successful-loop [] t found = refl
    latest_successful-loop (o ∷ os) t found = ground (
      arith,
      examined-health o,
      latest_successful-loop os t found,
      latest_successful-loop os o.creation_timestamp (some o),
    )

    not_newer : (t : ℕ) (os : List Unstructured) → AreUpTo t (map examined os) → AreNotNewer t os
    unfolding examined
    not_newer t [] h = tt
    not_newer t (o ∷ os) h = (
      elim (h.0) [
        | inl f ↦ inl (is_successful_false o (sym (examined-health o) ∙ f))
        | inr le ↦ inr le
      ],
      not_newer t os h.1,
    )

    taken :
        (o : Unstructured) (os : List Unstructured)
        → IsSuccess o (map examined os)
        → IsAmong o os × HasSucceeded o
    unfolding examined
    taken o [] h = elim h [ ]
    taken o (x ∷ xs) (inl (same, s)) =
        (inl same, subst HasSucceeded same (is_successful_true x (sym (examined-health x) ∙ s)))
    taken o (x ∷ xs) (inr later) = let rest = taken o xs later in (inr rest.0, rest.1)

    module _ (runnable : Runnable) (template : RunTemplate) (all : List Unstructured) where
      -- The outputs are the status's where no run has succeeded since the zero time. Else they are
      -- the values at all paths of the template, in a run that has succeeded and than which none
      -- that has is newer, or the status's where the template has no paths.
      pub data AreOutputs (outputs : Option RunOutputs) : Type 0 where
        from_status : AreNotNewer 0 all → outputs ≡ runnable.status_outputs → AreOutputs outputs
        from_run :
            (run : Unstructured) (found : RunOutputs)
            → IsAmong run all
            → HasSucceeded run
            → AreNotNewer run.creation_timestamp all
            → AllRead evaluate marshal run template.outputs
            → ((k : String)
                → lookup k found ≡ value_or evaluate marshal run none k (lookup k template.outputs))
            → IsKeptOr runnable.status_outputs found outputs
            → AreOutputs outputs

      latest-AreOutputs :
          (x : Option Unstructured)
          → get_latest_successful_object evaluate marshal all ≡ x
          → IsMap template.outputs
          → (output_of_latest evaluate marshal template x).error ≡ none
          → AreOutputs
              (outputs_or_status runnable (output_of_latest evaluate marshal template x).outputs)
      unfolding output_of_latest get_latest_successful_object
          get_latest_successful_obj_from_examined_object
      latest-AreOutputs none h m e =
          let same = sym (latest_successful-loop all 0 none) ∙ h in
          let up = (get_latest_successful_obj_lem (map examined all)).0 in
          from_status
            (not_newer 0 all (subst (λ o. AreUpTo (time_of o) (map examined all)) same up))
            (unfold outputs_or_status in refl)
      latest-AreOutputs (some run) h m e =
          let same = sym (latest_successful-loop all 0 none) ∙ h in
          let latest = get_latest_successful_obj_lem (map examined all) in
          let read = get_outputs_of_single_object-IsRead evaluate marshal run template m in
          let chosen = taken run all (latest.1 run same) in
          from_run run (get_outputs_of_single_object evaluate marshal template run).1 chosen.0
            chosen.1
            (not_newer run.creation_timestamp all
              (subst (λ o. AreUpTo (time_of o) (map examined all)) same latest.0))
            (read.complete e) read.values (outputs_or_status-IsKeptOr runnable _)

      pub get_latest_successful_output-AreOutputs :
          IsMap template.outputs
          → (get_latest_successful_output evaluate marshal template all).error ≡ none
          → AreOutputs (
              outputs_or_status runnable
                (get_latest_successful_output evaluate marshal template all).outputs)
      unfolding get_latest_successful_output
      get_latest_successful_output-AreOutputs m e = latest-AreOutputs _ refl m e
