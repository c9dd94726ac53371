-- ===== src/Runnable/Written.antt =====
-- What a realized runnable leaves on the cluster.
use cartographer.Prelude.{
  ◌≡◌, refl, ◌⊎◌, inl, inr, true, false, Option, none, some, List, [], ◌∷◌, arith, is_some, map,
  All, String,
}
use cartographer.Prelude.Result.{Result, ok, err}
use cartographer.Healthcheck.{single_condition_type_condition, determine_stamped_object_health}
use cartographer.Repository.Cache.{Unstructured}
use cartographer.Repository.{
  ApiError, State, RepoError, list_unstructured, ensure_immutable_object_exists_on_cluster,
}
use cartographer.Templates.Stamper.{TemplateError, stamp}
use cartographer.Runnable.{ExaminedObject, cleanup_runnable_stamped_objects}
use cartographer.Runnable.Cleanup.{
  delete_all, newest_first, IsRetained, cleanup_runnable_stamped_objects-IsRetained,
}
use cartographer.Prelude.Dict.{Dict, IsMap}
use cartographer.Runnable.Taken.{AreOutputs, get_latest_successful_output-AreOutputs}
use cartographer.Runnable.Outputs.{
  RunTemplate, RunOutputError, LatestOutput, get_resource_template, get_latest_successful_output,
}
use cartographer.Runnable.Realize.{
  Runnable, Realization, Realizer, RunnableError, SelectorFailure, resolve_selector,
  stamper_builder, examine_runs, latest_realized, cleaned_up, runs_listed, stopped, run_applied,
  run_stamped, run_labels, run_selected, run_with, realize_runnable,
}

module _ {World : Type 0} (r : Realizer World) where
  -- The loop examines every object, by its Succeeded condition.
  pub record AreExamined (all : List Unstructured) : Type 0 where
    pub runs : List ExaminedObject
    pub examined : examine_runs r all ≡ some runs
    pub covers : map (λ (e : ExaminedObject). e.stamped_object) runs ≡ all
    pub healths :
        All
          (λ (e : ExaminedObject).
            e.health
            ≡ (single_condition_type_condition r.selectable r.reading "Succeeded"
                e.stamped_object).status)
          runs

  examine_runs_total : (all : List Unstructured) → AreExamined all
  unfolding examine_runs determine_stamped_object_health
  examine_runs_total [] = record { runs = []; examined = refl; covers = refl; healths = tt }
  examine_runs_total (obj ∷ objs) =
      let rest = examine_runs_total objs in
      let health =
        (single_condition_type_condition r.selectable r.reading "Succeeded" obj).status in
      record {
        runs = record { stamped_object = obj; health = health } ∷ rest.runs;
        examined = rw (rest.examined) refl;
        covers = rw (rest.covers) refl;
        healths = (refl, rest.healths);
      }

  module _ (runnable : Runnable) (before : State World) where
    abbrev pub labels_of : RunTemplate → Dict String
    labels_of template =
        ("carto.run/runnable-name", runnable.object.name)
        ∷ ("carto.run/run-template-name", template.name)
        ∷ []

    -- The object of the run is on the cluster, and the runs that the policy does not retain are
    -- deleted.
    pub record IsWritten (o : Realization) (after : State World) : Type 0 where
      pub template : RunTemplate
      pub read : r.system_repo runnable.run_template_name before.world ≡ ok template
      pub selected : Option Unstructured
      pub resolved :
          resolve_selector r runnable.selector runnable.object.namespace before ≡ ok selected
      pub submitted : Unstructured
      pub stamped :
          stamp
            (stamper_builder r runnable
              (record { runnable = runnable; selected = selected })
              (labels_of template))
            (get_resource_template template)
          ≡ ok submitted
      pub object : Unstructured
      pub written : State World
      pub ensured :
          ensure_immutable_object_exists_on_cluster r.runnable_repo submitted
            (("carto.run/runnable-name", runnable.object.name) ∷ [])
            before
          ≡ (ok object, written)
      pub returned : o.stamped_object ≡ some object
      pub all : List Unstructured
      pub listed : list_unstructured r.runnable_repo object (labels_of template) written ≡ ok all
      pub examined : AreExamined all
      pub gone : List ExaminedObject
      pub cleaned : after ≡ delete_all r.runnable_repo gone written
      pub retained : IsRetained runnable.retention_policy (r.sort newest_first examined.runs) gone
      pub outputs : AreOutputs r.evaluate r.stamper.marshal runnable template all o.outputs

    -- The output paths of the template that is read are a map.
    abbrev pub HaveDistinctKeys : Type 0
    HaveDistinctKeys =
        (template : RunTemplate)
        → r.system_repo runnable.run_template_name before.world ≡ ok template
        → IsMap template.outputs

    -- A write that is refused.
    abbrev pub IsRefused : State World → Type 0
    IsRefused after =
        (submitted : Unstructured) × (e : RepoError) × (ensure_immutable_object_exists_on_cluster
            r.runnable_repo submitted (("carto.run/runnable-name", runnable.object.name) ∷ [])
            before
          ≡ (err e, after))

    -- An attempt without outputs: where it has no object, nothing has changed, or the write of the
    -- object was refused.
    pub record IsFailed (o : Realization) (after : State World) : Type 0 where
      pub error : is_some o.error ≡ true
      pub outputs : o.outputs ≡ none
      pub event : o.new_output_in ≡ none
      pub unchanged : o.stamped_object ≡ none → (after ≡ before) ⊎ IsRefused after

    unfoldable pub IsRealized : Option (Realization × State World) → Type 0
    IsRealized none = ⊥
    IsRealized (some (o, after)) = IsFailed o after ⊎ (is_some o.error ≡ false) × IsWritten o after

    unchanged-IsRealized : (e : RunnableError) → IsRealized (some (stopped none e, before))
    unfolding IsRealized
    unchanged-IsRealized e =
        inl (record { error = refl; outputs = refl; event = refl; unchanged = λ h. inl refl })

    stopped-IsRealized :
        (object : Unstructured) (e : RunnableError) (after : State World)
        → IsRealized (some (stopped (some object) e, after))
    unfolding IsRealized
    stopped-IsRealized object e after = inl (record {
      error = refl;
      outputs = refl;
      event = refl;
      unchanged = λ h. absurd (ground (arith, h));
    })

    module _ (template : RunTemplate)
        (read : r.system_repo runnable.run_template_name before.world ≡ ok template)
        (distinct : IsMap template.outputs) (selected : Option Unstructured)
        (resolved : resolve_selector r runnable.selector runnable.object.namespace before
          ≡ ok selected)
        (submitted : Unstructured)
        (made : stamp
            (stamper_builder r runnable
              (record { runnable = runnable; selected = selected })
              (run_labels r runnable template))
            (get_resource_template template)
          ≡ ok submitted) where
      module _ (object : Unstructured) (written : State World)
          (ensured : ensure_immutable_object_exists_on_cluster r.runnable_repo submitted
              (("carto.run/runnable-name", runnable.object.name) ∷ [])
              before
            ≡ (ok object, written)) where
        module _ (all : List Unstructured)
            (listed : list_unstructured r.runnable_repo object
                (run_labels r runnable template)
                written
              ≡ ok all) where
          abbrev latest : LatestOutput
          latest = get_latest_successful_output r.evaluate r.stamper.marshal template all

          latest_realized-IsRealized :
              (e : Option RunOutputError) (x : AreExamined all)
              → latest.error ≡ e
              → IsRealized (
                  some (
                    latest_realized r runnable object (record latest { error = e }),
                    cleanup_runnable_stamped_objects r.runnable_repo r.sort x.runs
                        runnable.retention_policy written,
                  ))
          unfolding latest_realized IsRealized run_labels
          latest_realized-IsRealized (some e) x h = stopped-IsRealized object _ _
          latest_realized-IsRealized none x h =
              let c =
                cleanup_runnable_stamped_objects-IsRetained r.runnable_repo r.sort x.runs
                  runnable.retention_policy written in
              inr (
                refl,
                record {
                  template = template;
                  read = read;
                  selected = selected;
                  resolved = resolved;
                  submitted = submitted;
                  stamped = made;
                  object = object;
                  written = written;
                  ensured = ensured;
                  returned = refl;
                  all = all;
                  listed = listed;
                  examined = x;
                  gone = c.0;
                  cleaned = c.1;
                  retained = c.2;
                  outputs =
                      get_latest_successful_output-AreOutputs r.evaluate r.stamper.marshal runnable
                        template all distinct h;
                },
              )

        runs_listed-IsRealized :
            (l : Result RepoError (List Unstructured))
            → list_unstructured r.runnable_repo object (run_labels r runnable template) written ≡ l
            → IsRealized
                (runs_listed r runnable template (run_labels r runnable template) object written l)
        unfolding runs_listed cleaned_up
        runs_listed-IsRealized (err e) listed = stopped-IsRealized object _ written
        runs_listed-IsRealized (ok all) listed =
            let x = examine_runs_total all in
            rw (x.examined) (latest_realized-IsRealized all listed (latest all listed).error x refl)

      run_applied-IsRealized :
          (w : Result RepoError Unstructured × State World)
          → ensure_immutable_object_exists_on_cluster r.runnable_repo submitted
              (("carto.run/runnable-name", runnable.object.name) ∷ [])
              before
            ≡ w
          → IsRealized
              (run_applied r runnable template (run_labels r runnable template) submitted w)
      unfolding run_applied IsRealized
      run_applied-IsRealized (err e, after) h = inl (record {
        error = refl;
        outputs = refl;
        event = refl;
        unchanged = λ none_there. inr (submitted, e, h);
      })
      run_applied-IsRealized (ok object, written) h = runs_listed-IsRealized object written h _ refl

    run_stamped-IsRealized :
        (template : RunTemplate)
        → r.system_repo runnable.run_template_name before.world ≡ ok template
        → IsMap template.outputs
        → (selected : Option Unstructured)
        → resolve_selector r runnable.selector runnable.object.namespace before ≡ ok selected
        → (x : Result TemplateError Unstructured)
        → stamp
            (stamper_builder r runnable
              (record { runnable = runnable; selected = selected })
              (run_labels r runnable template))
            (get_resource_template template)
          ≡ x
        → IsRealized (run_stamped r runnable template (run_labels r runnable template) x before)
    unfolding run_stamped
    run_stamped-IsRealized template read distinct selected resolved (err e) h =
        unchanged-IsRealized _
    run_stamped-IsRealized template read distinct selected resolved (ok obj) h =
        run_applied-IsRealized template read distinct selected resolved obj h _ refl

    run_selected-IsRealized :
        (template : RunTemplate)
        → r.system_repo runnable.run_template_name before.world ≡ ok template
        → IsMap template.outputs
        → (x : Result SelectorFailure (Option Unstructured))
        → resolve_selector r runnable.selector runnable.object.namespace before ≡ x
        → IsRealized (run_selected r runnable template x before)
    unfolding run_selected
    run_selected-IsRealized template read distinct (err e) h = unchanged-IsRealized _
    run_selected-IsRealized template read distinct (ok selected) h =
        run_stamped-IsRealized template read distinct selected h _ refl

    run_with-IsRealized :
        HaveDistinctKeys
        → (x : Result ApiError RunTemplate)
        → r.system_repo runnable.run_template_name before.world ≡ x
        → IsRealized (run_with r runnable x before)
    unfolding run_with
    run_with-IsRealized keys (err e) h = unchanged-IsRealized _
    run_with-IsRealized keys (ok template) h =
        run_selected-IsRealized template h (keys template h) _ refl

  -- A runnable, with its template's kind set, is always realized where the template's output paths
  -- have distinct keys, as those of a map do: there is a result, and no panic.
  -- Where it has an error, it has no outputs, and where it also has no object, nothing has changed
  -- unless the server refused the write of the stamped object. Where it has no error, the object that
  -- is returned is the one stamped from the template and ensured on the cluster; every listed run is
  -- examined by its Succeeded condition, and the runs that the retention policy does not keep are deleted and no others. Its
  -- outputs are then the values at all the paths of the template, in a listed run that has succeeded
  -- and than which none that has is newer; they are the status's where no run has succeeded since the
  -- zero time, or the template has no paths.
  pub realize_runnable-IsRealized :
      (runnable : Runnable) (before : State World)
      → HaveDistinctKeys runnable before
      → IsRealized
          (record runnable { run_template_kind = "ClusterRunTemplate" })
          before
          (realize_runnable r runnable before)
  unfolding realize_runnable
  realize_runnable-IsRealized runnable before keys = run_with-IsRealized _ before keys _ refl
