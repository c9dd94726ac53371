-- ===== src/Prelude/Json.antt =====
-- A decoded JSON document, Go's `interface{}` as encoding/json fills it, and Go's comparisons.
-- A number is its literal with its dynamic type, so that an int64 and a float64 are told apart.
use Prim.Native.String.{String}
use mathlib.Core.Path.{◌≡◌, refl}
use mathlib.Core.Logic.{◌↔◌}
use mathlib.Core.Bool.{Bool, true, false, decide, decide_iff}
use mathlib.Core.Option.{Option, none, some}
use native.Mathlib.Omega.{arith}
use package.text.Mathlib.Text.{◌==◌}
use package.text.Mathlib.TextEquality.{eq_iff}

mutual
  pub data Json : Type 0 where
    null : Json
    boolean : Bool → Json
    number : String → Json
    text : String → Json
    array : Items → Json
    object : Fields → Json

  pub data Items : Type 0 where
    nil : Items
    cons : Json → Items → Items

  pub data Fields : Type 0 where
    end : Fields
    field : String → Json → Fields → Fields

dec_text : (s t : String) (b : Bool) → ((b ≡ true) ↔ (s ≡ t)) → Dec (s ≡ t)
dec_text s t true h = yes (h.0 refl)
dec_text s t false h = no (λ p. ground (arith, h.1 p))

unfoldable pub String-discrete : Discrete String
unfolding dec_text
String-discrete s t = dec_text s t (s == t) (eq_iff s t)

unfoldable pub Json-discrete : Discrete Json
Json-discrete = hlevel String-discrete

-- reflect.DeepEqual on values of a type with decidable equality.
unfoldable pub deep_equal {ℓ} : {A : Type ℓ} → Discrete A → A → A → Bool
unfolding decide
deep_equal d a b = decide (d a b)

pub deep_equal_iff {ℓ} :
    {A : Type ℓ} (d : Discrete A) (a b : A) → (deep_equal d a b ≡ true) ↔ (a ≡ b)
unfolding deep_equal
deep_equal_iff d a b = decide_iff (d a b)

-- Go's `==` on two `interface{}` values. It panics (`none`) where both hold a map or both a slice.
unfoldable pub interface_eq : Json → Json → Option Bool
interface_eq null null = some true
interface_eq (boolean a) (boolean b) = elim a [
  | true ↦ some b
  | false ↦ elim b [ true ↦ some false | false ↦ some true ]
]
interface_eq (number a) (number b) = some (a == b)
interface_eq (text a) (text b) = some (a == b)
interface_eq (array a) (array b) = none
interface_eq (object a) (object b) = none
interface_eq a b = some false

-- `v == s`, of an `interface{}` and a string.
unfoldable pub equals_text : Json → String → Bool
equals_text (text a) s = a == s
equals_text _ s = false

unfoldable pub is_null : Json → Bool
is_null null = true
is_null _ = false

pub interface_eq_lem : (a b : Json) → interface_eq a b ≡ some true → a ≡ b
unfolding interface_eq
interface_eq_lem null null h = refl
interface_eq_lem (boolean a) (boolean b) h = ground arith
interface_eq_lem (number a) (number b) h = ground (arith, eq_iff a b)
interface_eq_lem (text a) (text b) h = ground (arith, eq_iff a b)
interface_eq_lem _ _ h = ground arith

pub equals_text_lem : (a : Json) (s : String) → equals_text a s ≡ true → a ≡ text s
unfolding equals_text
equals_text_lem (text a) s h = ground (arith, eq_iff a s)
equals_text_lem _ s h = ground arith
