-- ===== src/Statuses/Changes.antt =====
-- When the statuses count as changed.
use cartographer.Prelude.{
  ◌≡◌, refl, ◌↔◌, false, some, List, [], ◌∷◌, All, arith, Option-cases, inl, inr,
}
use cartographer.Prelude.Json.{deep_equal_iff}
use cartographer.Statuses.{
  RealizedResource-discrete, ResourceStatus, StatusEntry, is_changed, same_resource,
}

-- An entry that was realized before and is again, with the same conditions and resource.
pub record IsSettled (s : StatusEntry) : Type 0 where
  pub before : ResourceStatus
  pub now : ResourceStatus
  pub previous : s.previous ≡ some before
  pub current : s.current ≡ some now
  pub quiet : s.conditions_changed ≡ false
  pub same : now.realized_resource ≡ before.realized_resource

is_changed-cons :
    (s : StatusEntry) (rest : List StatusEntry) → is_changed (s ∷ rest) ≡ false → IsSettled s
unfolding is_changed same_resource
is_changed-cons s rest h = elim (Option-cases s.previous) [
  | inl p ↦ absurd (ground arith)
  | inr (before, p) ↦ elim (Option-cases s.current) [
    | inl c ↦ absurd (ground arith)
    | inr (now, c) ↦ record {
      before = before;
      now = now;
      previous = p;
      current = c;
      quiet = ground arith;
      same =
          (deep_equal_iff RealizedResource-discrete now.realized_resource
              before.realized_resource).0
            (ground arith);
    }
  ]
]

-- No change is reported exactly where every resource was realized in the reconciliation before and
-- in this one, with unchanged conditions and as the same resource.
pub is_changed-IsSettled : (ss : List StatusEntry) → (is_changed ss ≡ false) ↔ All IsSettled ss
unfolding is_changed same_resource
is_changed-IsSettled [] = (λ h. tt, λ h. refl)
is_changed-IsSettled (s ∷ rest) =
    let ih = is_changed-IsSettled rest in
    (
      λ h. (is_changed-cons s rest h, ih.0 (ground arith)),
      λ (h, hs). ground (
        arith,
        h.previous,
        h.current,
        h.quiet,
        ih.1 hs,
        (deep_equal_iff RealizedResource-discrete h.now.realized_resource
              h.before.realized_resource).1
            h.same,
      ),
    )
