-- ===== src/Base/Dict.antt =====
-- A Python dict: an association list in insertion order, over keys that have a Boolean equality.
use mathlib.Core.Path.{◌≡◌, refl}
use mathlib.Core.Logic.{◌↔◌}
use mathlib.Core.Bool.{Bool, true}
use mathlib.Core.Option.{Option, none, some}
use mathlib.Core.List.{List, [], ◌∷◌}
use Prim.Native.Nat.{ℕ}
use Prim.Native.String.{String}
use native.Mathlib.Omega.{arith}
use text.Mathlib.Text.{◌==◌ as str_eq}
use text.Mathlib.TextEquality.{eq_iff}
use control_ok_a_v.Base.Tests.{if◌then◌else◌, ◌==◌ as nat_beq, ==_iff}

-- Python's `==` on the type of the keys.
pub record Eq {ℓ} (K : Type ℓ) : Type ℓ where
  pub beq : K → K → Bool
  pub beq_iff : (j k : K) → (beq j k ≡ true) ↔ (j ≡ k)

instance abbrev pub string_eq : Eq String
string_eq = record { beq_iff = eq_iff; beq = str_eq }

instance abbrev pub nat_eq : Eq ℕ
nat_eq = record { beq_iff = ==_iff; beq = nat_beq }

abbrev pub Dict {ℓ} : Type ℓ → Type ℓ → Type ℓ
Dict K V = List (K × V)

module _ {ℓ} {K V : Type ℓ} ⦃e : Eq K⦄ where
  abbrev pub lookup : K → Dict K V → Option V
  lookup k [] = none
  lookup k ((j, v) ∷ d) = if e.beq j k then some v else lookup k d

  -- `d[k] = v`: a key that is there keeps its place.
  abbrev pub insert : K → V → Dict K V → Dict K V
  insert k v [] = (k, v) ∷ []
  insert k v ((j, w) ∷ d) = if e.beq j k then (j, v) ∷ d else (j, w) ∷ insert k v d

  -- `d.pop(k, None)`
  abbrev pub erase : K → Dict K V → Dict K V
  erase k [] = []
  erase k ((j, w) ∷ d) = if e.beq j k then d else (j, w) ∷ erase k d

  -- No key stands twice.
  abbrev pub HasDistinctKeys : Dict K V → Type ℓ
  HasDistinctKeys [] = Unit
  HasDistinctKeys ((j, w) ∷ d) = (lookup j d ≡ none) × HasDistinctKeys d

  pub lookup-insert :
      (k j : K) (v : V) (d : Dict K V)
      → lookup j (insert k v d) ≡ (if e.beq k j then some v else lookup j d)
  lookup-insert k j v [] = refl
  lookup-insert k j v ((i, w) ∷ d) =
      ground (arith, e.beq_iff k j, e.beq_iff i k, e.beq_iff i j, lookup-insert k j v d)

  pub insert-HasDistinctKeys :
      (k : K) (v : V) (d : Dict K V) → HasDistinctKeys d → HasDistinctKeys (insert k v d)
  insert-HasDistinctKeys k v [] h = (refl, tt)
  insert-HasDistinctKeys k v ((j, w) ∷ d) h =
      ground (
        arith,
        e.beq_iff j k,
        e.beq_iff k j,
        insert-HasDistinctKeys k v d h.1,
        lookup-insert k j v d,
      )

  pub lookup-erase :
      (k j : K) (d : Dict K V)
      → HasDistinctKeys d
      → lookup j (erase k d) ≡ (if e.beq k j then none else lookup j d)
  lookup-erase k j [] h = ground arith
  lookup-erase k j ((i, w) ∷ d) h =
      ground (arith, e.beq_iff k j, e.beq_iff i k, e.beq_iff i j, lookup-erase k j d h.1)

  pub erase-HasDistinctKeys :
      (k : K) (d : Dict K V) → HasDistinctKeys d → HasDistinctKeys (erase k d)
  erase-HasDistinctKeys k [] h = tt
  erase-HasDistinctKeys k ((j, w) ∷ d) h =
      ground
        (arith, e.beq_iff j k, e.beq_iff k j, erase-HasDistinctKeys k d h.1, lookup-erase k j d h.1)
