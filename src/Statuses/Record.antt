-- ===== src/Statuses/Record.antt =====
-- What `Add` records.
use cartographer.Prelude.{
  ℕ, ◌≡◌, Bool, Option, none, some, List, [], ◌∷◌, ◌==◌, String, eq_iff, arith, if◌then◌else◌,
}
use cartographer.Conditions.{Condition, Manager}
use cartographer.Statuses.{
  RealizedResource, ResourceStatus, StatusEntry, get_previous_resource_status, create_conditions,
  complete, add,
}

-- The current status of the first entry of a name.
unfoldable pub current_of : String → List StatusEntry → Option ResourceStatus
current_of name [] = none
current_of name (s ∷ rest) = if s.name == name then s.current else current_of name rest

module _ {Error : Type 0} (add_conditions_func : Bool → Error → Manager → Manager) (clock : ℕ → ℕ)
    (resource : RealizedResource) (error : Option Error) (is_pass_through : Bool)
    (further : List Condition) where
  -- Adding a resource sets its current status, with the conditions made from its previous status,
  -- and touches no other resource's; no previous status changes.
  pub current_of-add :
      (ss : List StatusEntry) (k : String)
      → (current_of k (add add_conditions_func clock resource error is_pass_through further ss) ≡ (
          if resource.name == k
          then some (record {
            realized_resource = resource;
            conditions =
                (create_conditions add_conditions_func clock
                  (get_previous_resource_status resource.name ss)
                  error
                  is_pass_through
                  further).conditions;
          })
          else current_of k ss))
        × (get_previous_resource_status k
              (add add_conditions_func clock resource error is_pass_through further ss)
            ≡ get_previous_resource_status k ss)
  unfolding current_of add complete get_previous_resource_status
  current_of-add [] k = (ground arith, ground arith)
  current_of-add (s ∷ rest) k =
      let ih = current_of-add rest k in
      (
        ground (arith, ih.0, eq_iff s.name resource.name, eq_iff s.name k, eq_iff resource.name k),
        ground (arith, ih.1, eq_iff s.name resource.name, eq_iff s.name k, eq_iff resource.name k),
      )
