-- ===== src/PowerAware/Scores.antt =====
-- The scores that `Score` reads after a `PreScore`: their range, and whose they are.
use semvi_btp.Common.{
  ◌≡◌, refl, ap, subst, ◌∙◌, String, false, none, some, List, [], ◌∷◌, map, ◌⊎◌, inl, inr, In, ◌==◌,
  eq_iff, Bool-cases, Option-cases, arith,
}
use semvi_btp.Common.GoMap.{lookup, insert, lookup-insert, Values, Values-insert, Values-lookup}
use semvi_btp.Common.Int.{ℤ, pos, negsuc, ◌≤ℤ◌}
use semvi_btp.PowerAware.Float.{Float}
use semvi_btp.PowerAware.Criteria.{NodeInfo, NodeVector, PowerAware, criteria}
use semvi_btp.PowerAware.Keys.{Visits, HasKey, HasKey-insert_self, HasKey-insert, HasKey-insert_inv}
use semvi_btp.PowerAware.Plugin.{
  Table, CycleState, Sums, sums_start, Matrix, matrix_start, clamp_score, min_node_score,
  max_node_score, sum_nodes, weigh, weighted_by, add_row, score_rows, raw_score, score_of,
  matrix_of, scores_of, pre_score, score, or_zero,
}

abbrev pub InRange : ℤ → Type 0
InRange n = (min_node_score ≤ℤ n) × (n ≤ℤ max_node_score)

clamp_score-InRange : (n : ℤ) → InRange (clamp_score n)
unfolding clamp_score
clamp_score-InRange (pos n) = ground arith
clamp_score-InRange (negsuc n) = ground arith

abbrev pub names : List NodeInfo → List String
names ns = map (λ n. n.name) ns

module _ (R : Float) where
  score_of-InRange : (ideal negative v : NodeVector R) → InRange (score_of R ideal negative v)
  unfolding score_of
  score_of-InRange ideal negative v = clamp_score-InRange (raw_score R ideal negative v)

  score_rows-InRange :
      (ideal negative : NodeVector R) (rows : Table (NodeVector R)) (scores : Table ℤ)
      → Values InRange scores
      → Values InRange (score_rows R ideal negative rows scores)
  unfolding score_rows
  score_rows-InRange ideal negative [] scores h = h
  score_rows-InRange ideal negative ((name, v) ∷ rest) scores h =
      score_rows-InRange ideal negative rest _
        (Values-insert InRange name _ scores (score_of-InRange ideal negative v) h)

  -- A key's score is that of one of its rows, or there is no row and the score is as it was.
  abbrev Scored :
      NodeVector R → NodeVector R → String → Table (NodeVector R) → Table ℤ → Table ℤ → Type 0
  Scored ideal negative k rows before scores =
      ((v : NodeVector R) × In (k, v) rows × (lookup k scores ≡ some (score_of R ideal negative v)))
      ⊎ ((¬ HasKey k rows) × (lookup k scores ≡ lookup k before))

  score_rows-Scored :
      (ideal negative : NodeVector R) (k : String) (rows : Table (NodeVector R)) (before : Table ℤ)
      → Scored ideal negative k rows before (score_rows R ideal negative rows before)
  unfolding score_rows
  score_rows-Scored ideal negative k [] before = inr (λ h. h.1, refl)
  score_rows-Scored ideal negative k ((j, v) ∷ rest) before =
      elim (score_rows-Scored ideal negative k rest
        (insert j (score_of R ideal negative v) before)) [
          | inl (u, h, e) ↦ inl (u, inr h, e)
          | inr (missing, e) ↦ elim (Bool-cases (j == k)) [
            | inl t ↦ inl (
              v,
              inl (ap (λ s. (s, v)) ((eq_iff j k).0 t)),
              e ∙ lookup-insert j k _ before ∙ rw t,
            )
            | inr t ↦ inr (not_there j v rest t missing, e ∙ lookup-insert j k _ before ∙ rw t)
          ]
        ]
    where
      not_there :
          (j : String) (v : NodeVector R) (rest : Table (NodeVector R))
          → (j == k) ≡ false
          → ¬ HasKey k rest
          → ¬ HasKey k ((j, v) ∷ rest)
      not_there j v rest t missing (u, inl e) =
          cc (t, (eq_iff j k).1 (ap (λ (p : String × NodeVector R). p.0) e))
      not_there j v rest t missing (u, inr h) = missing (u, h)

  rows-HasKey :
      (pl : PowerAware R) (denoms : NodeVector R) (k : String) (raw : Table (NodeVector R))
      (m : Matrix R)
      → HasKey k raw ⊎ HasKey k m.rows
      → HasKey k (weigh R pl denoms raw m).rows
  unfolding weigh add_row
  rows-HasKey pl denoms k [] m (inl (v, h)) = absurd h
  rows-HasKey pl denoms k [] m (inr h) = h
  rows-HasKey pl denoms k ((j, v) ∷ rest) m (inl (u, inl e)) = rows-HasKey pl denoms k rest _ (
      inr (
        subst (λ s. HasKey s (insert j (weighted_by R pl denoms v) m.rows))
          (ap (λ (p : String × NodeVector R). p.0) e)
          (HasKey-insert_self j (weighted_by R pl denoms v) m.rows)))
  rows-HasKey pl denoms k ((j, v) ∷ rest) m (inl (u, inr h)) =
      rows-HasKey pl denoms k rest _ (inl (u, h))
  rows-HasKey pl denoms k ((j, v) ∷ rest) m (inr h) =
      rows-HasKey pl denoms k rest _ (inr (HasKey-insert j (weighted_by R pl denoms v) k m.rows h))

  rows-HasKey_inv :
      (pl : PowerAware R) (denoms : NodeVector R) (k : String) (raw : Table (NodeVector R))
      (m : Matrix R)
      → HasKey k (weigh R pl denoms raw m).rows
      → HasKey k raw ⊎ HasKey k m.rows
  unfolding weigh add_row
  rows-HasKey_inv pl denoms k [] m h = inr h
  rows-HasKey_inv pl denoms k ((j, v) ∷ rest) m h = elim (rows-HasKey_inv pl denoms k rest _ h) [
    | inl (u, g) ↦ inl (u, inr g)
    | inr g ↦ elim (HasKey-insert_inv j (weighted_by R pl denoms v) k m.rows g) [
      | inl e ↦ inl (v, inl (ap (λ s. (s, v)) e))
      | inr there ↦ inr there
    ]
  ]

  pub raw-HasKey :
      (pl : PowerAware R) (k : String) (ns : List NodeInfo) (s : Sums R)
      → In k (names ns) ⊎ HasKey k s.raw
      → HasKey k (sum_nodes R pl ns s).raw
  unfolding sum_nodes
  raw-HasKey pl k [] s (inl h) = absurd h
  raw-HasKey pl k [] s (inr h) = h
  raw-HasKey pl k (n ∷ ns) s (inl (inl e)) = raw-HasKey pl k ns _ (
      inr (
        subst (λ t. HasKey t (insert n.name (criteria R pl n) s.raw)) e
          (HasKey-insert_self n.name (criteria R pl n) s.raw)))
  raw-HasKey pl k (n ∷ ns) s (inl (inr h)) = raw-HasKey pl k ns _ (inl h)
  raw-HasKey pl k (n ∷ ns) s (inr h) =
      raw-HasKey pl k ns _ (inr (HasKey-insert n.name (criteria R pl n) k s.raw h))

  raw-HasKey_inv :
      (pl : PowerAware R) (k : String) (ns : List NodeInfo) (s : Sums R)
      → HasKey k (sum_nodes R pl ns s).raw
      → In k (names ns) ⊎ HasKey k s.raw
  unfolding sum_nodes
  raw-HasKey_inv pl k [] s h = inr h
  raw-HasKey_inv pl k (n ∷ ns) s h = elim (raw-HasKey_inv pl k ns _ h) [
    | inl g ↦ inl (inr g)
    | inr g ↦ elim (HasKey-insert_inv n.name (criteria R pl n) k s.raw g) [
      | inl e ↦ inl (inl e)
      | inr there ↦ inr there
    ]
  ]

module _ (R : Float) (range_raw range_matrix : Table (NodeVector R) → Table (NodeVector R))
    (pl : PowerAware R) (nodes : List NodeInfo) where
  scores_of-InRange : Values InRange (scores_of R range_raw range_matrix pl nodes)
  unfolding scores_of
  scores_of-InRange =
      let m = matrix_of R range_raw range_matrix pl nodes in
      score_rows-InRange R m.ideal m.negative (range_matrix m.rows) [] tt

  scores_of-Scored :
      (k : String)
      → let m = matrix_of R range_raw range_matrix pl nodes in
        Scored R m.ideal m.negative k
          (range_matrix m.rows)
          []
          (scores_of R range_raw range_matrix pl nodes)
  unfolding scores_of
  scores_of-Scored k =
      let m = matrix_of R range_raw range_matrix pl nodes in
      score_rows-Scored R m.ideal m.negative k (range_matrix m.rows) []

  module _ (visits_raw : Visits range_raw) where
    matrix-HasKey :
        (k : String)
        → In k (names nodes)
        → HasKey k (matrix_of R range_raw range_matrix pl nodes).rows
    unfolding matrix_of
    matrix-HasKey k h =
        let (v, g) = raw-HasKey R pl k nodes (sums_start R) (inl h) in
        rows-HasKey R pl _ k (range_raw _) (matrix_start R) (inl (v, (visits_raw _ (k, v)).1 g))

    matrix-HasKey_inv :
        (k : String)
        → HasKey k (matrix_of R range_raw range_matrix pl nodes).rows
        → In k (names nodes)
    unfolding matrix_of
    matrix-HasKey_inv k h = elim (rows-HasKey_inv R pl _ k (range_raw _) (matrix_start R) h) [
      | inl (v, g) ↦
          elim (raw-HasKey_inv R pl k nodes (sums_start R) (v, (visits_raw _ (k, v)).0 g)) [
            | inl e ↦ e
            | inr (u, none_there) ↦ absurd none_there
          ]
      | inr (u, none_there) ↦ absurd none_there
    ]

nothing_there : (k : String) → lookup {V = ℤ} k [] ≡ none
unfolding lookup
nothing_there k = refl

or_zero-InRange :
    (scores : Table ℤ) (k : String) → Values InRange scores → InRange (or_zero (lookup k scores))
or_zero-InRange scores k h = elim (Option-cases (lookup k scores)) [
  | inl e ↦ rw e (omega arith)
  | inr (n, e) ↦ rw e (Values-lookup InRange k scores h e)
]

-- What `Score` reads of the written scores.
read_back :
    (C : CycleState)
    → ((s : C.State) (t : Table ℤ) → C.read (C.write s t) ≡ some t)
    → (s : C.State) (t : Table ℤ) (k : String) → score C (C.write s t) k ≡ or_zero (lookup k t)
unfolding score
read_back C read-write s t k = rw (read-write s t)

module _ (R : Float) (C : CycleState)
    (read-write : (s : C.State) (t : Table ℤ) → C.read (C.write s t) ≡ some t)
    (range_raw range_matrix : Table (NodeVector R) → Table (NodeVector R)) (pl : PowerAware R)
    (state : C.State) (n : NodeInfo) (ns : List NodeInfo) (k : String) where
  -- After `PreScore` on some nodes, `Score` gives every name, listed or not, a score from
  -- MinNodeScore to MaxNodeScore, whatever the floating-point operations gave (NaN included), if
  -- the cycle state reads what was written.
  pub score-InRange : InRange (score C (pre_score R range_raw range_matrix C pl state (n ∷ ns)) k)
  unfolding pre_score
  score-InRange =
      rw (read_back C read-write state (scores_of R range_raw range_matrix pl (n ∷ ns)) k)
        (or_zero-InRange _ k (scores_of-InRange R range_raw range_matrix pl (n ∷ ns)))

  -- After `PreScore` on some nodes, `Score` gives the name of each of them the score of a row of
  -- that name in the weighted matrix, against the ideal and the negative ideal of that matrix. The
  -- range loops visit exactly the entries of their maps, in any order, and the cycle state reads
  -- what was written.
  pub score_listed :
      Visits range_raw
      → Visits range_matrix
      → In k (names (n ∷ ns))
      → let m = matrix_of R range_raw range_matrix pl (n ∷ ns) in
        (v : NodeVector R) × In (k, v) m.rows
        × (score C (pre_score R range_raw range_matrix C pl state (n ∷ ns)) k
            ≡ score_of R m.ideal m.negative v)
  unfolding pre_score
  score_listed visits_raw visits_matrix h =
      let there = matrix-HasKey R range_raw range_matrix pl (n ∷ ns) visits_raw k h in
      elim (scores_of-Scored R range_raw range_matrix pl (n ∷ ns) k) [
        | inl (v, g, e) ↦
            (v, (visits_matrix _ (k, v)).0 g, read_back C read-write state _ k ∙ ap or_zero e)
        | inr (missing, e) ↦ absurd (missing (there.0, (visits_matrix _ (k, there.0)).1 there.1))
      ]

  -- After `PreScore` on some nodes, `Score` gives a name that none of them has the score 0. The
  -- range loops visit exactly the entries of their maps, in any order, and the cycle state reads
  -- what was written.
  score_unlisted :
      Visits range_raw
      → Visits range_matrix
      → ¬ In k (names (n ∷ ns))
      → score C (pre_score R range_raw range_matrix C pl state (n ∷ ns)) k ≡ pos 0
  unfolding pre_score
  score_unlisted visits_raw visits_matrix h =
      elim (scores_of-Scored R range_raw range_matrix pl (n ∷ ns) k) [
        | inl (v, g, e) ↦ absurd (
            h (
              matrix-HasKey_inv R range_raw range_matrix pl (n ∷ ns) visits_raw k
                (v, (visits_matrix _ (k, v)).0 g)))
        | inr (missing, e) ↦ read_back C read-write state _ k ∙ ap or_zero (e ∙ nothing_there k)
      ]
