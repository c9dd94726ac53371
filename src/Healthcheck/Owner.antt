-- ===== src/Healthcheck/Owner.antt =====
-- The health of an owner from the healths of its resources.
use cartographer.Prelude.{
  ℕ, suc, Bool, true, false, not, ◌==◌, ◌≡◌, refl, ap, ◌∙◌, ◌||◌, Option, none, some, List, [], ◌∷◌,
  ◌++◌, any, is_nil, is_some, arith, if◌then◌else◌, length,
}
use cartographer.Conditions.{
  Status, status_true, status_false, status_unknown, Condition, is_false, is_unknown, Addition,
  positive, finalize, add_all, new_condition_manager,
}
use cartographer.Conditions.Summary.{
  verdict, last_failing, first_unknown, gathered, finalize-IsSummed,
}
use cartographer.Statuses.{ResourceStatus, additions}
use cartographer.Healthcheck.{
  resource_healths, last, owner_health_condition, condition_with_type, with_rule_reason,
  one_or_none,
}

-- False where one health is; else Unknown where one is, or there is none; else True.
unfoldable pub overall : List Condition → Status
overall healths =
    if is_nil healths
    then status_unknown
    else if any (λ c. is_false c.status) healths
    then status_false
    else if any (λ c. is_unknown c.status) healths
    then status_unknown
    else status_true

last_failing-any :
    (clock : ℕ → ℕ) (i : ℕ) (hs : List Condition) (b : Option Condition)
    → is_some (last_failing (additions clock i hs) b)
      ≡ (any (λ c. is_false c.status) hs || is_some b)
unfolding last_failing additions
last_failing-any clock i [] b = ground arith
last_failing-any clock i (h ∷ hs) b = ground (
  arith,
  last_failing-any clock (suc i) hs b,
  last_failing-any clock (suc i) hs (some (record h { last_transition_time = clock i })),
  last_failing-any clock (suc i) hs (some h),
)

first_unknown-any :
    (clock : ℕ → ℕ) (i : ℕ) (hs : List Condition)
    → is_some (first_unknown (additions clock i hs)) ≡ any (λ c. is_unknown c.status) hs
unfolding first_unknown additions
first_unknown-any clock i [] = refl
first_unknown-any clock i (h ∷ hs) = ground (arith, first_unknown-any clock (suc i) hs)

verdict-overall :
    (clock : ℕ → ℕ) (h : Condition) (hs : List Condition)
    → (verdict (additions clock 0 (h ∷ hs))).status ≡ overall (h ∷ hs)
unfolding verdict overall
verdict-overall clock h hs =
    ground (arith, last_failing-any clock 0 (h ∷ hs) none, first_unknown-any clock 0 (h ∷ hs))

last-append : (xs : List Condition) (x : Condition) → last (xs ++ x ∷ []) ≡ some x
unfolding last
last-append [] x = refl
last-append (c ∷ []) x = refl
last-append (c ∷ d ∷ cs) x = last-append (d ∷ cs) x

-- Whether the first condition of the type Healthy passes a test.
unfoldable pub health_in : (Status → Bool) → List Condition → Bool
health_in test [] = false
health_in test (c ∷ cs) =
    let rest = health_in test cs in if c.type == "Healthy" then test c.status else rest

-- Whether the health of some resource passes a test.
abbrev pub some_health : (Status → Bool) → List ResourceStatus → Bool
some_health test statuses = any (λ (s : ResourceStatus). health_in test s.conditions) statuses

-- The health that the resources have together.
unfoldable pub health_of_all : List ResourceStatus → Status
health_of_all statuses =
    if some_health is_false statuses
    then status_false
    else if some_health is_unknown statuses
    then status_unknown
    else if some_health (λ s. true) statuses
    then status_true
    else status_unknown

tested : (Status → Bool) → Option Condition → Bool
tested test none = false
tested test (some c) = test c.status

condition_with_type-health_in :
    (test : Status → Bool) (cs : List Condition)
    → tested test (condition_with_type "Healthy" cs) ≡ health_in test cs
unfolding condition_with_type health_in tested
condition_with_type-health_in test [] = refl
condition_with_type-health_in test (c ∷ cs) = ground (arith, condition_with_type-health_in test cs)

resource_healths-some_health :
    (test : Status → Bool) (statuses : List ResourceStatus)
    → any (λ c. test c.status) (resource_healths statuses) ≡ some_health test statuses
unfolding resource_healths tested
resource_healths-some_health test [] = refl
resource_healths-some_health test (s ∷ rest) =
    ground (
      arith,
      resource_healths-some_health test rest,
      condition_with_type-health_in test s.conditions,
    )

any-not_nil : (hs : List Condition) → any (λ c. true) hs ≡ not (is_nil hs)
any-not_nil [] = refl
any-not_nil (h ∷ hs) = refl

overall-health_of_all :
    (statuses : List ResourceStatus) → overall (resource_healths statuses) ≡ health_of_all statuses
unfolding overall health_of_all
overall-health_of_all statuses = ground (
  arith,
  resource_healths-some_health is_false statuses,
  resource_healths-some_health is_unknown statuses,
  resource_healths-some_health (λ s. true) statuses,
  any-not_nil (resource_healths statuses),
)

-- What the owner's condition says.
pub record IsOwnerHealth (statuses : List ResourceStatus) (c : Condition) : Type 0 where
  pub type : c.type ≡ "ResourcesHealthy"
  pub reason : c.reason ≡ "HealthyConditionRule"
  pub status : c.status ≡ health_of_all statuses

summed-nil :
    (now : ℕ) (known : List Condition)
    → (c : Condition) × (last (finalize now (gathered "ResourcesHealthy" known [])).conditions
        ≡ some c)
      × (c.type ≡ "ResourcesHealthy")
      × (c.status ≡ overall [])
unfolding finalize add_all new_condition_manager last overall
summed-nil now known = (_, refl, refl, refl)

summed :
    (clock : ℕ → ℕ) (now : ℕ) (known : List Condition) (hs : List Condition)
    → (c : Condition) × (last
          (finalize now (gathered "ResourcesHealthy" known (additions clock 0 hs))).conditions
        ≡ some c)
      × (c.type ≡ "ResourcesHealthy")
      × (c.status ≡ overall hs)
unfolding additions
summed clock now known [] = summed-nil now known
summed clock now known (h ∷ hs) =
    let first : Addition = record { now = clock 0; condition = h; polarity = positive } in
    let s = finalize-IsSummed "ResourcesHealthy" known first (additions clock 1 hs) now in
    (
      s.summary,
      ap last s.split ∙ last-append s.items s.summary,
      s.top_type,
      s.status ∙ verdict-overall clock h hs,
    )

-- An owner's health is always found: it is False where the first Healthy condition of some resource
-- is, else Unknown where one is or no resource has a Healthy condition, else True.
pub owner_health_condition_total :
    (clock : ℕ → ℕ) (statuses : List ResourceStatus) (previous : List Condition)
    → (c : Condition) × (owner_health_condition clock statuses previous ≡ some c)
      × IsOwnerHealth statuses c
unfolding owner_health_condition with_rule_reason
owner_health_condition_total clock statuses previous =
    let hs = resource_healths statuses in
    let (c, e, t, s) =
      summed clock (clock (length hs)) (one_or_none (condition_with_type "Healthy" previous)) hs in
    (
      record c { reason = "HealthyConditionRule" },
      ap with_rule_reason e,
      record { type = t; reason = refl; status = s ∙ overall-health_of_all statuses },
    )
