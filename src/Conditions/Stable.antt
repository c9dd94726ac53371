-- ===== src/Conditions/Stable.antt =====
-- A second reconciliation that adds the same conditions leaves the status as it is.
pub mod Repeat
use cartographer.Prelude.{
  ℕ, ◌≡◌, refl, sym, ap, subst, ◌∙◌, ◌⊎◌, inl, inr, String, Bool, true, false, not, ◌||◌, ◌&&◌, ◌≢◌,
  List, [], ◌∷◌, ◌++◌, append_assoc, append-nil, any, All, arith, ◌==◌, eq_iff, eq_refl,
  if◌then◌else◌, Bool-cases,
}
use cartographer.Prelude.Json.{deep_equal, deep_equal_iff}
use cartographer.Conditions.{
  Condition, Condition-discrete, Polarity, Manager, Addition, add_all, same_content, finalize,
  new_condition_manager,
}
use cartographer.Conditions.Carry.{
  stored, contradicts, is_type_of, is_moved, stamped, kept, moves, add_all-Kept, stored-content,
  top_of, finalize-conditions, finalize-changed,
}

-- No condition of a type.
abbrev IsFree : String → List Condition → Type 0
IsFree t ps = All (λ p. (p.type == t) ≡ false) ps

stored-free :
    (ps qs : List Condition) (c : Condition) → IsFree c.type ps → stored (ps ++ qs) c ≡ stored qs c
unfolding stored
stored-free [] qs c h = refl
stored-free (p ∷ ps) qs c h = ground (arith, stored-free ps qs c h.1)

contradicts-free :
    (ps qs : List Condition) (c : Condition)
    → IsFree c.type ps
    → any (contradicts c) (ps ++ qs) ≡ any (contradicts c) qs
contradicts-free [] qs c h = refl
contradicts-free (p ∷ ps) qs c h = ground (arith, contradicts-free ps qs c h.1)

is_type_of-found :
    (ps qs : List Condition) (p c : Condition)
    → (p.type == c.type) ≡ true
    → any (is_type_of c) (ps ++ p ∷ qs) ≡ true
is_type_of-found [] qs p c h = ground arith
is_type_of-found (q ∷ ps) qs p c h = ground (arith, is_type_of-found ps qs p c h)

-- Where exactly one previous condition has the type and it has the content, it is kept as it is.
module _ (before after : List Condition) (p c : Condition) (free_before : IsFree c.type before)
    (free_after : IsFree c.type after)
    (same : p ≡ record c { last_transition_time = p.last_transition_time }) where
  same_type : (p.type == c.type) ≡ true
  same_type = rw (ap (λ d. d.type) same) (eq_refl c.type)

  content : same_content p c ≡ true
  content =
      (deep_equal_iff Condition-discrete p
          (record c { last_transition_time = p.last_transition_time })).1
        same

  stored-previous : stored (before ++ p ∷ after) c ≡ p
  unfolding stored
  stored-previous =
      stored-free before (p ∷ after) c free_before
      ∙ ground (
        arith,
        same_type,
        content,
        stored-free after [] (record c { last_transition_time = p.last_transition_time }),
        append-nil after,
      )

  not-is_moved : is_moved (before ++ p ∷ after) c ≡ false
  not-is_moved = ground (
    arith,
    same_type,
    content,
    contradicts-free before (p ∷ after) c free_before,
    contradicts-free after [] c free_after,
    append-nil after,
    is_type_of-found before after p c,
  )

-- The same additions, made at other times.
unfoldable pub retime : List ℕ → List Addition → List Addition
retime [] adds = adds
retime (t ∷ ts) [] = []
retime (t ∷ ts) (a ∷ adds) = record a { now = t } ∷ retime ts adds

-- Each condition is the one of its addition, but for the time.
abbrev Matches : List Condition → List Addition → Type 0
Matches [] [] = Unit
Matches (p ∷ ps) [] = ⊥
Matches [] (a ∷ adds) = ⊥
Matches (p ∷ ps) (a ∷ adds) =
    (p ≡ record a.condition { last_transition_time = p.last_transition_time }) × Matches ps adds

kept-Matches : (ps : List Condition) (adds : List Addition) → Matches (kept ps adds) adds
unfolding kept
kept-Matches ps [] = tt
kept-Matches ps (a ∷ adds) = (stored-content ps (stamped a.now a.condition), kept-Matches ps adds)

Matches-retime :
    (ts : List ℕ) (ps : List Condition) (adds : List Addition)
    → Matches ps adds
    → Matches ps (retime ts adds)
unfolding retime
Matches-retime [] ps adds h = h
Matches-retime (t ∷ ts) [] [] h = tt
Matches-retime (t ∷ ts) (p ∷ ps) [] h = h
Matches-retime (t ∷ ts) [] (a ∷ adds) h = h
Matches-retime (t ∷ ts) (p ∷ ps) (a ∷ adds) h = (h.0, Matches-retime ts ps adds h.1)

-- No two additions have one type.
abbrev pub IsDistinct : List Addition → Type 0
IsDistinct [] = Unit
IsDistinct (a ∷ adds) =
    All (λ b. (b.condition.type == a.condition.type) ≡ false) adds × IsDistinct adds

IsFree-append :
    (t : String) (ps qs : List Condition) → IsFree t ps → IsFree t qs → IsFree t (ps ++ qs)
IsFree-append t [] qs h k = k
IsFree-append t (p ∷ ps) qs h k = (h.0, IsFree-append t ps qs h.1 k)

Matches-IsFree :
    (t : String) (ps : List Condition) (adds : List Addition)
    → Matches ps adds
    → All (λ b. (b.condition.type == t) ≡ false) adds
    → IsFree t ps
Matches-IsFree t [] [] m h = tt
Matches-IsFree t [] (a ∷ adds) m h = tt
Matches-IsFree t (p ∷ ps) [] m h = absurd m
Matches-IsFree t (p ∷ ps) (a ∷ adds) m h =
    (rw (ap (λ c. c.type) m.0) h.0, Matches-IsFree t ps adds m.1 h.1)

not_eq_symm : (s t : String) → (s == t) ≡ false → (t == s) ≡ false
not_eq_symm s t h = ground (arith, eq_iff s t, eq_iff t s)

-- No addition has a type of the conditions.
abbrev AllFree : List Addition → List Condition → Type 0
AllFree adds ps = All (λ a. IsFree a.condition.type ps) adds

AllFree-snoc :
    (adds : List Addition) (ps : List Condition) (p : Condition) (t : String)
    → p.type ≡ t
    → All (λ b. (b.condition.type == t) ≡ false) adds
    → AllFree adds ps
    → AllFree adds (ps ++ p ∷ [])
AllFree-snoc [] ps p t e h k = tt
AllFree-snoc (a ∷ adds) ps p t e h k = (
  IsFree-append a.condition.type ps (p ∷ []) k.0 (rw e (not_eq_symm a.condition.type t h.0), tt),
  AllFree-snoc adds ps p t e h.1 k.1,
)

kept-stable :
    (adds : List Addition) (before ps tail : List Condition)
    → Matches ps adds
    → IsDistinct adds
    → AllFree adds before
    → AllFree adds tail
    → (kept (before ++ (ps ++ tail)) adds ≡ ps) × (moves (before ++ (ps ++ tail)) adds ≡ false)
unfolding kept moves
kept-stable [] before [] tail m d f g = (refl, refl)
kept-stable [] before (p ∷ ps) tail m d f g = absurd m
kept-stable (a ∷ adds) before [] tail m d f g = absurd m
kept-stable (a ∷ adds) before (p ∷ ps) tail m d f g =
    let c = stamped a.now a.condition in
    let own_type = ap (λ (q : Condition). q.type) m.0 in
    let free_after =
      IsFree-append a.condition.type ps tail (Matches-IsFree a.condition.type ps adds m.1 d.0)
        g.0 in
    let ih =
      kept-stable adds (before ++ p ∷ []) ps tail m.1 d.1
        (AllFree-snoc adds before p a.condition.type own_type d.0 f.1) g.1 in
    let regroup = append_assoc before (p ∷ []) (ps ++ tail) in
    (
      ground
          (arith, stored-previous before (ps ++ tail) p c f.0 free_after m.0, rw regroup at ih.0),
      ground (arith, not-is_moved before (ps ++ tail) p c f.0 free_after m.0, rw regroup at ih.1),
    )
