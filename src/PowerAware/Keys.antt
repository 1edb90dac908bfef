-- ===== src/PowerAware/Keys.antt =====
-- The keys of a table, and which of them an insertion and a visit keep.
use semvi_btp.Common.{
  ◌≡◌, refl, ap, String, Bool, true, false, [], ◌∷◌, ◌⊎◌, inl, inr, ◌↔◌, In, ◌==◌, eq_iff,
  Bool-cases, arith, if◌then◌else◌,
}
use semvi_btp.Common.GoMap.{insert}
use semvi_btp.PowerAware.Plugin.{Table}

-- A visit of a table's entries in some order: the same entries.
abbrev pub Visits : {V : Type 0} → (Table V → Table V) → Type 0
Visits {V} range = (l : Table V) (e : String × V) → In e (range l) ↔ In e l

-- The table has an entry for the key.
abbrev pub HasKey : {V : Type 0} → String → Table V → Type 0
HasKey {V} k l = (v : V) × In (k, v) l

module _ {V : Type 0} (k : String) (v : V) where
  pub HasKey-insert_self : (l : Table V) → HasKey k (insert k v l)
  unfolding insert
  HasKey-insert_self [] = (v, inl refl)
  HasKey-insert_self ((j, w) ∷ l) = elim (Bool-cases (j == k)) [
    | inl e ↦ rw e (v, inl refl)
    | inr e ↦ let (u, h) = HasKey-insert_self l in rw e (u, inr h)
  ]

  pub HasKey-insert : (j : String) (l : Table V) → HasKey j l → HasKey j (insert k v l)
  unfolding insert
  HasKey-insert j [] (u, h) = absurd h
  HasKey-insert j ((i, w) ∷ l) (u, inl e) = elim (Bool-cases (i == k)) [
    | inl t ↦ rw t (v, inl (ground (arith, (eq_iff i k).0 t, ap (λ (p : String × V). p.0) e)))
    | inr t ↦ rw t (u, inl e)
  ]
  HasKey-insert j ((i, w) ∷ l) (u, inr h) = elim (Bool-cases (i == k)) [
    | inl t ↦ rw t (u, inr h)
    | inr t ↦ let (x, g) = HasKey-insert j l (u, h) in rw t (x, inr g)
  ]

  -- An entry of the map after an insertion is the new one, or was there.
  pub In-insert_inv : (e : String × V) (l : Table V) → In e (insert k v l) → ((k, v) ≡ e) ⊎ In e l
  unfolding insert
  In-insert_inv e [] (inl p) = inl p
  In-insert_inv e [] (inr h) = absurd h
  In-insert_inv e ((i, w) ∷ l) h = branch (i == k) h (In-insert_inv e l)
    where
      branch :
          (b : Bool)
          → In e (if b then (k, v) ∷ l else (i, w) ∷ insert k v l)
          → (In e (insert k v l) → ((k, v) ≡ e) ⊎ In e l)
          → ((k, v) ≡ e) ⊎ In e ((i, w) ∷ l)
      branch true (inl p) ih = inl p
      branch true (inr g) ih = inr (inr g)
      branch false (inl p) ih = inr (inl p)
      branch false (inr g) ih = after (ih g)
        where
          after : ((k, v) ≡ e) ⊎ In e l → ((k, v) ≡ e) ⊎ In e ((i, w) ∷ l)
          after (inl p) = inl p
          after (inr q) = inr (inr q)

  pub HasKey-insert_inv :
      (j : String) (l : Table V) → HasKey j (insert k v l) → (k ≡ j) ⊎ HasKey j l
  HasKey-insert_inv j l (u, h) = elim (In-insert_inv (j, u) l h) [
    | inl e ↦ inl (ap (λ (p : String × V). p.0) e)
    | inr g ↦ inr (u, g)
  ]
