-- ===== src/ResultStore/Writes.antt =====
-- What `with_result` does to a store whose map is made: one entry changes.
use semvi_btp.Common.{
  ◌≡◌, refl, String, Option, none, some, List, inl, inr, Run, returns, ◌>>=◌, ◌==◌, eq_refl, arith,
  if◌then◌else◌, Option-cases,
}
use semvi_btp.Common.GoMap.{GoMap, nil_map, made, get, lookup, insert, lookup-insert, IsMade}
use semvi_btp.Common.Int.{ℤ}
use semvi_btp.ResultStore.Defs.{Key, Result, Store, new_data, ensure, deref, with_result}

-- The result of a pod, if the store has one.
abbrev pub view : Store → Key → Option Result
view s k = get s.results k

abbrev pub or_new : Option Result → Result
or_new none = new_data
or_new (some r) = r

-- The result that a method writes to: the pod's, or a new one.
abbrev pub current : Store → Key → Result
current s k = or_new (view s k)

abbrev pub store_of : List (String × Result) → GoMap ℤ → Store
store_of l w = record { results = made l; score_plugin_weight = w }

abbrev pub ensured : Option Result → Key → List (String × Result) → List (String × Result)
ensured none k l = insert k new_data l
ensured (some r) k l = l

-- The entries that `ensure` leaves.
abbrev pub base : Key → List (String × Result) → List (String × Result)
base k l = ensured (lookup k l) k l

module _ (k : Key) (l : List (String × Result)) (w : GoMap ℤ) where
  deref_found : (r : Result) → lookup k l ≡ some r → deref k (store_of l w) ≡ returns r
  unfolding deref
  deref_found r e = ground arith

  ensure_found :
      (r : Result) → lookup k l ≡ some r → ensure k (store_of l w) ≡ returns (store_of l w)
  unfolding ensure
  ensure_found r e = ground arith

  ensure_missing :
      lookup k l ≡ none → ensure k (store_of l w) ≡ returns (store_of (insert k new_data l) w)
  unfolding ensure
  ensure_missing e = ground arith

module _ (k : Key) (write : Result → Run Result) (w : GoMap ℤ) (l : List (String × Result)) where
  pub with_result_made :
      with_result k write (store_of l w)
      ≡ (write (current (store_of l w) k) >>= λ r. returns (store_of (insert k r (base k l)) w))
  unfolding with_result
  with_result_made = elim (Option-cases (lookup k l)) [
    | inl e ↦
        rw (ensure_missing k l w e) (
          rw (deref_found k (insert k new_data l) w new_data (simp (lookup-insert, eq_refl)))
            (rw e))
    | inr (r, e) ↦ rw (ensure_found k l w r e) (rw (deref_found k l w r e) (rw e))
  ]

pub lookup-insert-base :
    (k j : Key) (r : Result) (l : List (String × Result))
    → lookup j (insert k r (base k l)) ≡ (if k == j then some r else lookup j l)
lookup-insert-base k j r l = elim (Option-cases (lookup k l)) [
  | inl e ↦ rw e (simp lookup-insert (ground arith))
  | inr (r', e) ↦ rw e (lookup-insert k j r l)
]

-- The store after a write of `r` at `k`, and everything else as it was.
pub record Wrote (k : Key) (r : Result) (s t : Store) : Type 0 where
  pub still_made : IsMade t.results
  pub weight : t.score_plugin_weight ≡ s.score_plugin_weight
  pub views : (j : Key) → view t j ≡ (if k == j then some r else view s j)

Wrote-made :
    (k : Key) (write : Result → Run Result) (w : GoMap ℤ) (m : GoMap Result) (r : Result)
    → IsMade m
    → let s : Store = record { results = m; score_plugin_weight = w } in
      write (current s k) ≡ returns r
      → (t : Store) × (with_result k write s ≡ returns t) × Wrote k r s t
Wrote-made k write w nil_map r h e = absurd h
Wrote-made k write w (made l) r h e = (
  store_of (insert k r (base k l)) w,
  rw (with_result_made k write w l) (rw e),
  record { still_made = tt; weight = refl; views = λ j. lookup-insert-base k j r l },
)

-- A write that does not panic on the current result gives a store that differs at the key only.
pub with_result-Wrote :
    (k : Key) (write : Result → Run Result) (s : Store) (r : Result)
    → IsMade s.results
    → write (current s k) ≡ returns r
    → (t : Store) × (with_result k write s ≡ returns t) × Wrote k r s t
with_result-Wrote k write s r h e = Wrote-made k write s.score_plugin_weight s.results r h e
