-- ===== src/Lib.antt =====
-- Cartographer: a controller for Kubernetes that realizes the blueprints of supply chains and
-- deliveries. A workload or deliverable selects a blueprint by its labels and fields; the realizer
-- stamps the template of each of the blueprint's resources, writes the object to the API server,
-- and reports conditions. This library models the parts of pkg/ that decide:
--
--   Prelude      what the parts share: lists, Go maps as association lists, decoded JSON with Go's
--                comparisons, results with an error
--   Eval         pkg/eval/jsonpath.go: a path on an object
--   Selector     pkg/selector (matcher.go, selector.go): requirements and the most specific selector;
--                Selector.Choice is pkg/repository/selector_matcher.go
--   Params       pkg/realizer/params.go, and BlueprintParam.validate of pkg/apis/v1alpha1/common.go
--   Conditions   pkg/conditions/condition_manager.go: Add and Finalize
--   Statuses     pkg/realizer/statuses/resource_statuses.go, on top of Conditions
--   Healthcheck  pkg/realizer/healthcheck/healthcheck.go, pkg/utils/unstructured.go and
--                pkg/conditions/resource_conditions.go, on top of Selector, Conditions and Statuses
--   Tracker      pkg/tracker/dependency/tracker.go and pkg/enqueuer/enqueuer.go
--   Repository   pkg/repository/repository.go; Repository.Cache is pkg/repository/cache.go
--   Validation   pkg/apis/v1alpha1/common_validations.go; Validation.SupplyChain and
--                Validation.Delivery are the webhooks cluster_supply_chain_webhook.go and
--                cluster_delivery_webhook.go; Validation.Template is the part on templates
--   Runnable     pkg/realizer/runnable/gc/gc.go, and GetLatestSuccessfulObjFromExaminedObject of
--                pkg/stamp/reader.go, on top of Repository; Runnable.Outputs is
--                pkg/templates/cluster_run_template.go, and Runnable.Realize is
--                pkg/realizer/runnable/realizer.go, on top of these, Templates and Healthcheck
--   Realizer     pkg/realizer/inputs.go, outputs.go, and of component.go the choice of a template, on
--                top of Selector
--   Templates    pkg/templates/reader.go and the readers of the five kinds of template;
--                Templates.Interpolator and Templates.Stamper are interpolator.go and stamper.go
--   Stamp        pkg/stamp (reader.go, errors.go): the output of a stamped object or of an input
--   Errors       pkg/errors (errors.go, unhandled.go)
--   Submitted    pkg/conditions: owner_conditions.go, workload_conditions.go and
--                deliverable_conditions.go, what an error says in the conditions;
--                Submitted.Runs is runnable_conditions.go and blueprint_conditions.go, with the errors
--                of pkg/controllers/runnable_reconciler.go
--   Component    the rest of pkg/realizer/component.go: Component.Do is Do, and Component.Apply its
--                mutable and immutable branches, on top of Repository, Healthcheck, Runnable and Stamp
--   Realize      pkg/realizer/realizer.go; Realize.Loop is the loop over the resources, over any
--                realizer of one resource, on top of Statuses and Realizer
--   Mapper       pkg/mapper/map_functions.go, on top of Tracker
--
-- The parts interact by calls: admission (Validation) checks what the merge (Params), the health check
-- and the choice of a blueprint (Selector) then rely on; the statuses collect the conditions of every
-- resource through a condition manager and hand them back as the previous ones of the next
-- reconciliation.
--
-- A function keeps its name in the source, in snake case. State is passed explicitly; an error is
-- a result, and a nil dereference or an index out of range is `none` of an option. A mutex makes
-- each method one step, and the tracker's methods in any order are the relation Step. Each call of
-- time.Now is an argument, or a clock that gives the time of each. Counters and times are natural
-- numbers. A Go map is the list of its entries: reading it does not depend on their order, but
-- where the cache compares whole objects (Repository.Cache) the maps that are equal are taken to
-- be listed in one order. Every loop of the source runs over a slice or a map, so it is structural
-- recursion on a list: no fuel and no bound is used.
--
-- Parameters stand for what is not in the repository: the jsonpath library, Kubernetes' label
-- selectors, the API server (Repository.Client, over a state of its own), the REST mapping, the
-- decoding of raw templates and of conditions, the printing of values and of keys, YAML with its
-- digest, and sort.Sort. So are functions that the source itself takes as arguments or interfaces:
-- the function that adds the conditions of an error, the evaluator of a health condition, the
-- labels of a resource and the realizer of one resource. The stamping of a template in its context
-- is a field of Component.ResourceRealizer; the discovery of API resources is one of
-- Runnable.Realize; in Templates.Stamper the context, the run of ytt, fasttemplate and the methods
-- of unstructured.Unstructured are fields. Logging is left out, and so is the text of an error
-- where it only formats what the value holds.
--
-- Not modelled: the context of a template (pkg/realizer/context.go), the controllers but for the
-- errors of a runnable, and the repository's typed getters but GetTemplate. The clients, tokens,
-- events and commands are I/O or glue.
pub mod Prelude
pub mod Eval
pub mod Selector
pub mod Params
pub mod Conditions
pub mod Statuses
pub mod Healthcheck
pub mod Tracker
pub mod Repository
pub mod Validation
pub mod Runnable
pub mod Realizer
pub mod Templates
pub mod Stamp
pub mod Errors
pub mod Submitted
pub mod Component
pub mod Realize
pub mod Mapper
