-- ===== src/Conditions/Summary.antt =====
-- How the top-level condition sums up the others.
use cartographer.Prelude.{
  ℕ, suc, ◌≡◌, refl, ap, ◌∙◌, String, ◌&&◌, Option, none, some, List, [], ◌∷◌, ◌++◌, length, arith,
  if◌then◌else◌,
}
use cartographer.Conditions.Carry.{
  add_all-Kept, top_of, stamped, stored, stored-content, finalize-conditions, kept,
}
use cartographer.Conditions.{
  Status, status_true, status_false, status_unknown, Condition, is_failing, is_unknown, is_true,
  Manager, new_condition_manager, sum_up, add, Addition, add_all, finalize, top_level,
}

-- The last failing addition, and the first unknown one.
unfoldable pub last_failing : List Addition → Option Condition → Option Condition
last_failing [] c = c
last_failing (a ∷ rest) c =
    last_failing rest (if is_failing a.condition.status a.polarity then some a.condition else c)

unfoldable pub first_unknown : List Addition → Option Condition
first_unknown [] = none
first_unknown (a ∷ rest) =
    let later = first_unknown rest in
    if is_unknown a.condition.status then some a.condition else later

pub record Verdict : Type 0 where
  pub status : Status
  pub reason : String
  pub message : String

-- False with the reason and message of the last failing addition; without one, Unknown with those
-- of the first unknown one; and True otherwise.
unfoldable pub verdict : List Addition → Verdict
verdict adds = elim (last_failing adds none) [
  | some c ↦ record { status = status_false; reason = c.reason; message = c.message }
  | none ↦ elim (first_unknown adds) [
    | some c ↦ record { status = status_unknown; reason = c.reason; message = c.message }
    | none ↦ record { status = status_true; reason = "Ready"; message = "" }
  ]
]

verdict_of : Manager → Verdict
verdict_of m = record { status = m.status; reason = m.reason; message = m.message }

-- What an addition makes of the verdict so far.
weigh : Addition → Verdict → Verdict
weigh a v =
    if is_failing a.condition.status a.polarity
    then record {
      status = status_false;
      reason = a.condition.reason;
      message = a.condition.message;
    }
    else if is_unknown a.condition.status && is_true v.status
    then record {
      status = status_unknown;
      reason = a.condition.reason;
      message = a.condition.message;
    }
    else v

weigh_all : List Addition → Verdict → Verdict
weigh_all [] v = v
weigh_all (a ∷ rest) v = weigh_all rest (weigh a v)

verdict_of-add :
    (a : Addition) (m : Manager)
    → verdict_of (add a.now a.condition a.polarity m) ≡ weigh a (verdict_of m)
unfolding add sum_up weigh verdict_of
verdict_of-add a m = ground arith

verdict_of-add_all :
    (adds : List Addition) (m : Manager)
    → verdict_of (add_all adds m) ≡ weigh_all adds (verdict_of m)
unfolding add_all weigh_all
verdict_of-add_all [] m = refl
verdict_of-add_all (a ∷ rest) m =
    verdict_of-add_all rest (add a.now a.condition a.polarity m)
    ∙ ap (weigh_all rest) (verdict_of-add a m)

last_failing-or :
    (adds : List Addition) (c : Condition)
    → last_failing adds (some c) ≡ elim (last_failing adds none) [ some d ↦ some d | none ↦ some c ]
unfolding last_failing
last_failing-or [] c = refl
last_failing-or (a ∷ rest) c =
    ground (arith, last_failing-or rest c, last_failing-or rest a.condition)

-- The verdict of additions that follow on a verdict.
from_verdict : List Addition → Verdict → Verdict
from_verdict adds v = elim (last_failing adds none) [
  | some c ↦ record { status = status_false; reason = c.reason; message = c.message }
  | none ↦
      if is_true v.status
      then elim (first_unknown adds) [
        | some c ↦ record { status = status_unknown; reason = c.reason; message = c.message }
        | none ↦ v
      ]
      else v
]

weigh_all-from_verdict :
    (adds : List Addition) (v : Verdict) → weigh_all adds v ≡ from_verdict adds v
unfolding weigh_all weigh from_verdict last_failing first_unknown
weigh_all-from_verdict [] v = ground arith
weigh_all-from_verdict (a ∷ rest) v =
    ground (arith, weigh_all-from_verdict rest (weigh a v), last_failing-or rest a.condition)

abbrev pub start : String → List Condition → Manager
start top previous = new_condition_manager top previous

module _ (top : String) (previous : List Condition) (adds : List Addition) where
  abbrev pub gathered : Manager
  gathered = add_all adds (start top previous)

  gathered-verdict :
      verdict_of gathered
      ≡ from_verdict adds (record { status = status_true; reason = ""; message = "" })
  unfolding verdict_of new_condition_manager
  gathered-verdict =
      verdict_of-add_all adds (start top previous)
      ∙ weigh_all-from_verdict adds (verdict_of (start top previous))

  top_of-verdict :
      (now : ℕ)
      → ((top_of now gathered).status ≡ (verdict adds).status)
        × ((top_of now gathered).reason ≡ (verdict adds).reason)
        × ((top_of now gathered).message ≡ (verdict adds).message)
  unfolding top_of top_level verdict from_verdict verdict_of
  top_of-verdict now = ground (arith, gathered-verdict)

  -- The top-level condition, written out.
  pub top_of-eq :
      (now : ℕ)
      → top_of now gathered ≡ record {
        type = top;
        status = (verdict adds).status;
        observed_generation = 0;
        last_transition_time = now;
        reason = (verdict adds).reason;
        message = (verdict adds).message;
      }
  unfolding top_of top_level new_condition_manager verdict from_verdict verdict_of
  top_of-eq now = ground (arith, gathered-verdict, (add_all-Kept adds (start top previous)).top)

  top_of-type : (now : ℕ) → (top_of now gathered).type ≡ top
  unfolding top_of top_level new_condition_manager
  top_of-type now = ground (arith, (add_all-Kept adds (start top previous)).top)

pub kept-cons :
    (previous : List Condition) (a : Addition) (rest : List Addition)
    → kept previous (a ∷ rest) ≡ stored previous (stamped a.now a.condition) ∷ kept previous rest
unfolding kept
kept-cons previous a rest = refl

length-kept : (ps : List Condition) (adds : List Addition) → length (kept ps adds) ≡ length adds
unfolding kept
length-kept ps [] = refl
length-kept ps (a ∷ rest) = ap suc (length-kept ps rest)

-- What `Finalize` returns after additions: a condition for each of them, then the top-level one.
pub record IsSummed (top : String) (adds : List Addition) (result : List Condition) : Type 0 where
  pub items : List Condition
  pub summary : Condition
  pub split : result ≡ items ++ summary ∷ []
  pub one_each : length items ≡ length adds
  pub top_type : summary.type ≡ top
  pub status : summary.status ≡ (verdict adds).status
  pub reason : summary.reason ≡ (verdict adds).reason
  pub message : summary.message ≡ (verdict adds).message

-- After at least one addition, the last condition that `Finalize` returns has the top-level type:
-- it is False, with the reason and message of the last failing addition, if one fails; else it is
-- Unknown, with those of the first unknown addition, if one is; else it is True and "Ready".
pub finalize-IsSummed :
    (top : String) (previous : List Condition) (a : Addition) (rest : List Addition) (now : ℕ)
    → IsSummed top (a ∷ rest) (finalize now (gathered top previous (a ∷ rest))).conditions
finalize-IsSummed top previous a rest now =
    let m = gathered top previous (a ∷ rest) in
    let k = add_all-Kept (a ∷ rest) (start top previous) in
    let filled = all_kept k.conditions in
    let t = top_of now m in
    let same = stored-content m.previous_conditions t in
    let v = top_of-verdict top previous (a ∷ rest) now in
    record {
      items = m.conditions;
      summary = stored m.previous_conditions t;
      split = finalize-conditions now m (filled ∙ kept-cons previous a rest);
      one_each = ap length filled ∙ length-kept previous (a ∷ rest);
      top_type = ap (λ c. c.type) same ∙ top_of-type top previous (a ∷ rest) now;
      status = ap (λ c. c.status) same ∙ v.0;
      reason = ap (λ c. c.reason) same ∙ v.1;
      message = ap (λ c. c.message) same ∙ v.2;
    }
  where
    all_kept :
        (gathered top previous (a ∷ rest)).conditions
          ≡ (start top previous).conditions
            ++ kept (start top previous).previous_conditions (a ∷ rest)
        → (gathered top previous (a ∷ rest)).conditions ≡ kept previous (a ∷ rest)
    all_kept e = unfold new_condition_manager in e
