-- ===== src/Realize/Kept.antt =====
-- What a resource that is realized again keeps.
use cartographer.Prelude.{
  ℕ, String, ◌≡◌, refl, Bool, true, false, not, Option, none, some, List, [], arith, eq_refl, ◌==◌,
  ◌⊎◌, inl, inr, is_some, subst, if◌then◌else◌,
}
use cartographer.Prelude.Json.{Json, is_null}
use cartographer.Prelude.Result.{Result, ok, err}
use cartographer.Statuses.{RealizedResource, ResourceStatus}
use cartographer.Repository.Cache.{Unstructured}
use cartographer.Realizer.{Output, Outputs, Source, OwnerResource}
use cartographer.Templates.{Reader}
use cartographer.Repository.{State}
use cartographer.Component.{Attempt, ResourceRealizer}
use cartographer.Component.Do.{do_resource}
use cartographer.Component.Branches.{IsDone, IsAttempt, do_resource-IsDone}
use cartographer.Realize.{
  Rendering, StatusOutput, output_of_bytes, build_one_output, one_output, two_outputs, outputs_of,
  generate_resource_output, transition_time, or_empty, set_times, outputs_or_previous, get_outputs,
  previous_outputs, generate_realized_resource,
}
use cartographer.Realize.Loop.{Realizing, realized_resource}

-- Two outputs whose first does not have the name of the second.
NamesDiffer : (x y : Result String StatusOutput) → Type 0
NamesDiffer (ok o) (ok p) = (o.name == p.name) ≡ false
NamesDiffer _ _ = Unit {0}

names_differ :
    (r : Rendering) (a b : Result String String)
    → NamesDiffer (output_of_bytes r "url" a) (output_of_bytes r "revision" b)
unfolding NamesDiffer output_of_bytes
names_differ r (err e) b = tt
names_differ r (ok a) (err e) = tt
names_differ r (ok a) (ok b) = refl

module _ (now now' : ℕ) (previous : Option (List StatusOutput)) where
  AgainSame : Result String (Option (List StatusOutput)) → Type 0
  AgainSame g =
      outputs_or_previous now' (outputs_or_previous now previous g) g
      ≡ outputs_or_previous now previous g

  one_again : (x : Result String StatusOutput) → AgainSame (one_output x)
  unfolding AgainSame one_output outputs_or_previous set_times transition_time or_empty
  one_again (err e) = refl
  one_again (ok o) = ground (arith, eq_refl o.name, eq_refl o.digest)

  two_again : (x y : Result String StatusOutput) → NamesDiffer x y → AgainSame (two_outputs x y)
  unfolding AgainSame NamesDiffer two_outputs outputs_or_previous set_times transition_time or_empty
  two_again (err e) y h = refl
  two_again (ok o) (err e) h = refl
  two_again (ok o) (ok p) h =
      ground (arith, h, eq_refl o.name, eq_refl o.digest, eq_refl p.name, eq_refl p.digest)

  nil_again : AgainSame (ok none)
  unfolding AgainSame outputs_or_previous
  nil_again = refl

  if_again :
      (b : Bool) (x y : Result String (Option (List StatusOutput)))
      → AgainSame x
      → AgainSame y
      → AgainSame (if b then x else y)
  if_again true x y h k = h
  if_again false x y h k = k

  outputs_again :
      (r : Rendering) (source : Option Source) (image config : Json)
      → AgainSame (outputs_of r source image config)
  unfolding outputs_of build_one_output
  outputs_again r (some source) image config =
      two_again _ _ (names_differ r (r.marshal source.url) (r.marshal source.revision))
  outputs_again r none image config =
      if_again (not (is_null image)) _ _ (one_again (build_one_output r "image" image)) (
        if_again (not (is_null config)) _ _ (one_again (build_one_output r "config" config))
          nil_again)

  get_outputs_again :
      (r : Rendering) (o : Option Output)
      → get_outputs r now' (get_outputs r now previous o) o ≡ get_outputs r now previous o
  unfolding AgainSame get_outputs generate_resource_output
  get_outputs_again r none = nil_again
  get_outputs_again r (some o) = outputs_again r o.source o.image o.config

-- A resource that is realized again from the same parts is recorded as it was, at whatever times:
-- its outputs keep their transition times, and the record settles after one round.
pub generate_again :
    (r : Rendering) (qualified : Unstructured → Option String) (now now' : ℕ)
    (resource : OwnerResource) (template : Option Reader) (stamped : Option Unstructured)
    (o : Option Output) (previous : Option RealizedResource) (pass : Bool) (name : String)
    → generate_realized_resource r qualified now' resource template stamped o
        (some (
          generate_realized_resource r qualified now resource template stamped o previous pass
            name))
        pass
        name
      ≡ generate_realized_resource r qualified now resource template stamped o previous pass name
unfolding generate_realized_resource previous_outputs
generate_again r qualified now now' resource (some t) stamped o previous pass name =
    rw (get_outputs_again now now' (previous_outputs previous) r o)
generate_again r qualified now now' resource none stamped o previous true name =
    rw (get_outputs_again now now' (previous_outputs previous) r o)
generate_again r qualified now now' resource none stamped o previous false name = refl

-- Where Do passes an input through, or returns no stamped object, a resource with a status keeps the
-- record that it has: neither its outputs nor its inputs are those of the attempt, and no event says
-- that they have changed.
pub realized_resource-pass_through :
    {World Owner S : Type 0} (realizer : ResourceRealizer World Owner) (blueprint_name : String)
    (outputs : Outputs) (s s' : State World) (r : Realizing S) (now : ℕ) (resource : OwnerResource)
    (a : Attempt) (previous : ResourceStatus)
    → do_resource realizer resource blueprint_name outputs s ≡ some (a, s')
    → (a.is_pass_through ≡ true) ⊎ (is_some a.stamped_object ≡ false)
    → ((realized_resource r now resource a (some previous)).resource ≡ previous.realized_resource)
      × ((realized_resource r now resource a (some previous)).events ≡ [])
unfolding realized_resource IsDone IsAttempt
realized_resource-pass_through realizer blueprint_name outputs s s' r now resource a previous h
      why =
    let done = subst (IsDone s) h (do_resource-IsDone s realizer resource blueprint_name outputs) in
    let bare : is_some a.stamped_object ≡ false = elim why [ inl p ↦ (done.0.2 p).0 | inr n ↦ n ] in
    (ground (arith, bare), ground (arith, bare))
