-- ===== src/Reset/Entries.antt =====
-- Entries with distinct keys: what is found in them before and after they are stored.
use semvi_btp.Common.{
  ◌≡◌, refl, ap, sym, ◌∙◌, subst, String, Option, none, some, List, [], ◌∷◌, ◌==◌, eq_iff,
  eq-false_of_ne, if◌then◌else◌, Bool-cases, inl, inr,
}
use semvi_btp.Common.GoMap.{lookup, insert, lookup-insert}
use semvi_btp.Reset.Defs.{store_all}
use mathlib.Core.Bool.{true≢false}

-- No key twice.
abbrev pub Distinct : List (String × String) → Type 0
Distinct [] = Unit
Distinct ((k, v) ∷ rest) = (lookup k rest ≡ none) × Distinct rest

-- The order keeps the entries of a map.
abbrev pub Reorders : (List (String × String) → List (String × String)) → Type 0
Reorders order =
    (m : List (String × String))
    → Distinct m
    → Distinct (order m) × ((k : String) → lookup k (order m) ≡ lookup k m)

Distinct-insert : (k v : String) (m : List (String × String)) → Distinct m → Distinct (insert k v m)
unfolding insert lookup
Distinct-insert k v [] h = (refl, tt)
Distinct-insert k v ((j, w) ∷ m) (alone, h) = elim (Bool-cases (j == k)) [
  | inl e ↦ rw e (subst (λ x. lookup x m ≡ none) ((eq_iff j k).0 e) alone, h)
  | inr e ↦ rw e (
    rw
        (
          lookup-insert k j v m,
          eq-false_of_ne k j (λ same. true≢false (sym ((eq_iff j k).1 (sym same)) ∙ e)),
        )
        alone,
    Distinct-insert k v m h,
  )
]

abbrev pub first_found : Option String → Option String → Option String
first_found none later = later
first_found (some v) later = some v

pub first_found-none : (o : Option String) → first_found o none ≡ o
first_found-none none = refl
first_found-none (some v) = refl

pub Distinct-store_all :
    (kvs initial : List (String × String)) → Distinct initial → Distinct (store_all kvs initial)
unfolding store_all
Distinct-store_all [] initial h = h
Distinct-store_all ((k, v) ∷ kvs) initial h =
    Distinct-store_all kvs (insert k v initial) (Distinct-insert k v initial h)

-- An entry whose key is not in the rest counts as much before the rest as after it.
pub first_found-entry :
    (k j v : String) (rest : List (String × String)) (old : Option String)
    → lookup j rest ≡ none
    → first_found (lookup k rest) (if j == k then some v else old)
      ≡ first_found (lookup k ((j, v) ∷ rest)) old
unfolding lookup
first_found-entry k j v rest old alone = elim (Bool-cases (j == k)) [
  | inl e ↦ rw (e, subst (λ x. lookup x rest ≡ none) ((eq_iff j k).0 e) alone) refl
  | inr e ↦ rw e refl
]

pub lookup-store_all :
    (k : String) (kvs initial : List (String × String))
    → Distinct kvs
    → lookup k (store_all kvs initial) ≡ first_found (lookup k kvs) (lookup k initial)
unfolding store_all lookup
lookup-store_all k [] initial h = refl
lookup-store_all k ((j, v) ∷ kvs) initial (alone, h) =
    lookup-store_all k kvs (insert j v initial) h
    ∙ ap (first_found (lookup k kvs)) (lookup-insert j k v initial)
    ∙ first_found-entry k j v kvs (lookup k initial) alone
