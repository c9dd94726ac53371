-- ===== src/Runnable/Read.antt =====
-- What the outputs of a run hold.
use cartographer.Prelude.{
  String, ◌≡◌, refl, ◌⊎◌, inl, inr, true, false, Option, none, some, List, [], ◌∷◌, arith, ◌==◌,
  eq_iff, Bool-cases, subst, ap, ◌∙◌, is_some,
}
use cartographer.Prelude.Dict.{Dict, lookup, insert, lookup-insert, IsMap}
use cartographer.Prelude.Json.{Json}
use cartographer.Prelude.Result.{Result, ok, err, is_ok, Result-cases}
use cartographer.Repository.Cache.{Unstructured}
use cartographer.Runnable.Outputs.{
  RunTemplate, RunOutputError, RunOutputs, output_at, outputs_of_object,
  get_outputs_of_single_object,
}

module _ (evaluate : String → Unstructured → Result String (List Json))
    (marshal : Json → Result String String) (obj : Unstructured) where
  abbrev at : String → String → Result RunOutputError String
  at key path = output_at evaluate marshal key path obj

  -- The raw value of a key with a path, and `before` where it has none.
  abbrev pub value_or : Option String → String → Option String → Option String
  value_or before key none = before
  value_or before key (some path) = elim (at key path) [ ok raw ↦ some raw | err e ↦ before ]

  unfoldable pub AllRead : Dict String → Type 0
  AllRead [] = Unit {0}
  AllRead ((key, path) ∷ rest) = (is_ok (at key path) ≡ true) × AllRead rest

  unfoldable pub Fails : RunOutputError → Dict String → Type 0
  Fails e [] = ⊥
  Fails e ((key, path) ∷ rest) = (at key path ≡ err e) ⊎ Fails e rest

  outputs_of_object-ok :
      (key path raw : String) (ps : Dict String) (e : Option RunOutputError) (outputs : RunOutputs)
      → at key path ≡ ok raw
      → outputs_of_object evaluate marshal ((key, path) ∷ ps) obj e outputs
        ≡ outputs_of_object evaluate marshal ps obj e (insert key raw outputs)
  unfolding outputs_of_object
  outputs_of_object-ok key path raw ps e outputs a = ground (arith, a)

  outputs_of_object-err :
      (key path : String) (e' : RunOutputError) (ps : Dict String) (e : Option RunOutputError)
      (outputs : RunOutputs)
      → at key path ≡ err e'
      → outputs_of_object evaluate marshal ((key, path) ∷ ps) obj e outputs
        ≡ outputs_of_object evaluate marshal ps obj (some e') outputs
  unfolding outputs_of_object
  outputs_of_object-err key path e' ps e outputs a = ground (arith, a)

  -- The first entry decides the value of its key.
  value_or-ok :
      (k key path raw : String) (ps : Dict String) (outputs : RunOutputs)
      → is_some (lookup key ps) ≡ false
      → at key path ≡ ok raw
      → value_or (lookup k (insert key raw outputs)) k (lookup k ps)
        ≡ value_or (lookup k outputs) k (lookup k ((key, path) ∷ ps))
  unfolding lookup
  value_or-ok k key path raw ps outputs h a = elim (Bool-cases (key == k)) [
    | inl same ↦
        let at_k = subst (λ j. at j path ≡ ok raw) ((eq_iff key k).0 same) a in
        let gone = subst (λ j. is_some (lookup j ps) ≡ false) ((eq_iff key k).0 same) h in
        ground (arith, at_k, gone, same, lookup-insert key k raw outputs)
    | inr other ↦ rw (lookup-insert key k raw outputs, other) refl
  ]

  value_or-err :
      (k key path : String) (e : RunOutputError) (ps : Dict String) (outputs : RunOutputs)
      → is_some (lookup key ps) ≡ false
      → at key path ≡ err e
      → value_or (lookup k outputs) k (lookup k ps)
        ≡ value_or (lookup k outputs) k (lookup k ((key, path) ∷ ps))
  unfolding lookup
  value_or-err k key path e ps outputs h a = elim (Bool-cases (key == k)) [
    | inl same ↦
        let at_k = subst (λ j. at j path ≡ err e) ((eq_iff key k).0 same) a in
        let gone = subst (λ j. is_some (lookup j ps) ≡ false) ((eq_iff key k).0 same) h in
        ground (arith, at_k, gone, same)
    | inr other ↦ rw (other) refl
  ]

  outputs_of_object-value :
      (k : String) (ps : Dict String) (e : Option RunOutputError) (outputs : RunOutputs)
      → IsMap ps
      → lookup k (outputs_of_object evaluate marshal ps obj e outputs).1
        ≡ value_or (lookup k outputs) k (lookup k ps)
  unfolding outputs_of_object
  outputs_of_object-value k [] e outputs h = unfold lookup in refl
  outputs_of_object-value k ((key, path) ∷ ps) e outputs h = elim (Result-cases (at key path)) [
    | inl (raw, a) ↦
        ap (λ found. lookup k found.1) (outputs_of_object-ok key path raw ps e outputs a)
        ∙ outputs_of_object-value k ps e (insert key raw outputs) h.1
        ∙ value_or-ok k key path raw ps outputs h.0 a
    | inr (e', a) ↦
        ap (λ found. lookup k found.1) (outputs_of_object-err key path e' ps e outputs a)
        ∙ outputs_of_object-value k ps (some e') outputs h.1
        ∙ value_or-err k key path e' ps outputs h.0 a
  ]

  outputs_of_object_complete :
      (ps : Dict String) (e : Option RunOutputError) (outputs : RunOutputs)
      → (outputs_of_object evaluate marshal ps obj e outputs).0 ≡ none
      → (e ≡ none) × AllRead ps
  unfolding outputs_of_object AllRead
  outputs_of_object_complete [] e outputs h = (h, tt)
  outputs_of_object_complete ((key, path) ∷ ps) e outputs h = elim (Result-cases (at key path)) [
    | inl (raw, a) ↦
        let rest =
          outputs_of_object_complete ps e (insert key raw outputs) (ground (arith, a, h)) in
        (rest.0, (ground (arith, a), rest.1))
    | inr (e', a) ↦
        let rest = outputs_of_object_complete ps (some e') outputs (ground (arith, a, h)) in
        absurd (ground (arith, rest.0))
  ]

  outputs_of_object-Fails :
      (ps : Dict String) (e : Option RunOutputError) (outputs : RunOutputs) (e' : RunOutputError)
      → (outputs_of_object evaluate marshal ps obj e outputs).0 ≡ some e'
      → (e ≡ some e') ⊎ Fails e' ps
  unfolding outputs_of_object Fails
  outputs_of_object-Fails [] e outputs e' h = inl h
  outputs_of_object-Fails ((key, path) ∷ ps) e outputs e' h = elim (Result-cases (at key path)) [
    | inl (raw, a) ↦
        elim (outputs_of_object-Fails ps e (insert key raw outputs) e' (ground (arith, a, h))) [
          | inl same ↦ inl same
          | inr later ↦ inr (inr later)
        ]
    | inr (e'', a) ↦
        elim (outputs_of_object-Fails ps (some e'') outputs e' (ground (arith, a, h))) [
          | inl same ↦ inr (inl (ground (arith, a, same)))
          | inr later ↦ inr (inr later)
        ]
  ]

  pub record IsRead (paths : Dict String) (found : Option RunOutputError × RunOutputs)
      : Type 0 where
    pub values : (k : String) → lookup k found.1 ≡ value_or none k (lookup k paths)
    pub complete : found.0 ≡ none → AllRead paths
    pub failed : (e : RunOutputError) → found.0 ≡ some e → Fails e paths

  -- The outputs of a template whose paths have distinct keys: at each key they hold the marshalled
  -- value of its path, and nothing where the key has no path or its path has no value. There is no
  -- error only where every path has a value, and an error is that of one of the paths.
  pub get_outputs_of_single_object-IsRead :
      (t : RunTemplate)
      → IsMap t.outputs
      → IsRead t.outputs (get_outputs_of_single_object evaluate marshal t obj)
  unfolding get_outputs_of_single_object
  get_outputs_of_single_object-IsRead t h = record {
    values = λ k. outputs_of_object-value k t.outputs none [] h ∙ unfold lookup in refl;
    complete = λ done. (outputs_of_object_complete t.outputs none [] done).1;
    failed = λ e found. elim (outputs_of_object-Fails t.outputs none [] e found) [
      | inl same ↦ absurd (ground (arith, same))
      | inr there ↦ there
    ];
  }
