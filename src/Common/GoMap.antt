-- ===== src/Common/GoMap.antt =====
-- Go's maps with string keys: nil or made. A read of a nil map finds nothing, a write panics.
-- A `range` loop goes over the entries; the programs' loops have results that do not depend on
-- their order, or the theorem says so.
use semvi_btp.Common.Tests.{if◌then◌else◌, Bool-cases}
use semvi_btp.Common.Lists.{All}
use semvi_btp.Common.Outcome.{Run, returns, panics, Ensures}
use Prim.Native.String.{String}
use mathlib.Core.Path.{◌≡◌, refl, subst}
use mathlib.Core.Logic.{inl, inr}
use mathlib.Core.Bool.{Bool, true, false}
use mathlib.Core.Option.{Option, none, some}
use mathlib.Core.List.{List, [], ◌∷◌, ◌++◌}
use native.Mathlib.Omega.{arith}
use text.Mathlib.Text.{◌==◌}
use text.Mathlib.TextEquality.{eq_iff}

pub data GoMap {ℓ} (V : Type ℓ) : Type ℓ where
  nil_map : GoMap V
  made : List (String × V) → GoMap V

module _ {ℓ} {V : Type ℓ} where
  unfoldable pub lookup : String → List (String × V) → Option V
  lookup key [] = none
  lookup key ((found, value) ∷ rest) =
      let later = lookup key rest in if found == key then some value else later

  unfoldable pub insert : String → V → List (String × V) → List (String × V)
  insert key value [] = (key, value) ∷ []
  insert key value ((found, held) ∷ rest) =
      let later = insert key value rest in
      if found == key then (key, value) ∷ rest else (found, held) ∷ later

  unfoldable pub without : String → List (String × V) → List (String × V)
  without k [] = []
  without k ((j, v) ∷ m) = let rest = without k m in if j == k then rest else (j, v) ∷ rest

  -- The entries that a `range` loop visits.
  abbrev pub entries : GoMap V → List (String × V)
  entries nil_map = []
  entries (made m) = m

  -- v, ok := m[k]
  abbrev pub get : GoMap V → String → Option V
  get m k = lookup k (entries m)

  abbrev pub is_some : Option V → Bool
  is_some none = false
  is_some (some v) = true

  abbrev pub has : GoMap V → String → Bool
  has m k = is_some (get m k)

  -- m == nil
  abbrev pub is_nil : GoMap V → Bool
  is_nil nil_map = true
  is_nil (made m) = false

  -- m[k] = v
  abbrev pub put : GoMap V → String → V → Run (GoMap V)
  put nil_map k v = panics
  put (made m) k v = returns (made (insert k v m))

  -- delete(m, k)
  abbrev pub delete : GoMap V → String → GoMap V
  delete nil_map k = nil_map
  delete (made m) k = made (without k m)

  pub lookup-insert :
      (key other : String) (value : V) (rest : List (String × V))
      → lookup other (insert key value rest)
        ≡ (if key == other then some value else lookup other rest)
  unfolding lookup insert
  lookup-insert key other value [] = refl
  lookup-insert key other value ((found, held) ∷ rest) = ground (
    arith,
    eq_iff key other,
    eq_iff found key,
    eq_iff found other,
    lookup-insert key other value rest,
  )

  pub lookup-without :
      (k j : String) (m : List (String × V))
      → lookup j (without k m) ≡ (if k == j then none else lookup j m)
  unfolding lookup without
  lookup-without k j [] = ground arith
  lookup-without k j ((i, w) ∷ m) =
      ground (arith, eq_iff k j, eq_iff i k, eq_iff i j, lookup-without k j m)

  pub lookup-append :
      (k : String) (l m : List (String × V))
      → lookup k (l ++ m) ≡ (elim (lookup k l) [ none ↦ lookup k m | some v ↦ some v ])
  unfolding lookup
  lookup-append k [] m = refl
  lookup-append k ((j, v) ∷ l) m = ground (arith, lookup-append k l m)

-- Every value of the entries has the property.
abbrev pub Values {ℓ κ} : {V : Type ℓ} → (V → Type κ) → List (String × V) → Type κ
Values P m = All (λ e. P e.1) m

module _ {ℓ} {V : Type ℓ} (P : V → Type 0) where
  pub Values-insert :
      (k : String) (v : V) (m : List (String × V)) → P v → Values P m → Values P (insert k v m)
  unfolding insert
  Values-insert k v [] p h = (p, tt)
  Values-insert k v ((j, w) ∷ m) p h = elim (Bool-cases (j == k)) [
    | inl e ↦ rw e (p, h.1)
    | inr e ↦ rw e (h.0, Values-insert k v m p h.1)
  ]

  pub Values-without : (k : String) (m : List (String × V)) → Values P m → Values P (without k m)
  unfolding without
  Values-without k [] h = tt
  Values-without k ((j, w) ∷ m) h = elim (Bool-cases (j == k)) [
    | inl e ↦ rw e (Values-without k m h.1)
    | inr e ↦ rw e (h.0, Values-without k m h.1)
  ]

  pub Values-lookup :
      (k : String) (m : List (String × V)) {v : V} → Values P m → lookup k m ≡ some v → P v
  unfolding lookup
  Values-lookup k [] h e = cc
  Values-lookup k ((j, w) ∷ m) {v} h e = elim (Bool-cases (j == k)) [
    | inl t ↦ let same : w ≡ v = ground arith in subst P same h.0
    | inr t ↦ Values-lookup k m h.1 (rw t at e)
  ]

  -- The map is not nil, and every value in it has the property.
  abbrev pub MadeOf : GoMap V → Type 0
  MadeOf nil_map = ⊥
  MadeOf (made m) = Values P m

  -- A write to such a map does not panic, and keeps it so.
  pub put-MadeOf : (m : GoMap V) (k : String) (v : V) → MadeOf m → P v → Ensures MadeOf (put m k v)
  put-MadeOf nil_map k v h p = h
  put-MadeOf (made m) k v h p = Values-insert k v m p h

-- The map is not nil.
abbrev pub IsMade {ℓ} : {V : Type ℓ} → GoMap V → Type 0
IsMade nil_map = ⊥
IsMade (made m) = Unit

pub put-IsMade {ℓ} :
    {V : Type ℓ} (m : GoMap V) (k : String) (v : V) → IsMade m → Ensures IsMade (put m k v)
put-IsMade nil_map k v h = h
put-IsMade (made m) k v h = tt
