-- ===== src/PowerAware/NotANumber.antt =====
-- One node with no number for its CPU criterion costs every node its score.
use semvi_btp.Common.{◌≡◌, ap, subst, ◌∙◌, String, some, List, [], ◌∷◌, inl, inr, In, arith}
use semvi_btp.Common.GoMap.{Values, Values-insert}
use semvi_btp.Common.Int.{ℤ, pos}
use semvi_btp.PowerAware.Float.{Float, IsScaled, IsNan, two, zero_float}
use semvi_btp.PowerAware.Criteria.{NodeInfo, NodeVector, PowerAware, criteria}
use semvi_btp.PowerAware.Keys.{Visits}
use semvi_btp.PowerAware.Scores.{names, score_listed}
use semvi_btp.PowerAware.Plugin.{
  Table, CycleState, Sums, sums_start, Matrix, matrix_start, denominators, sum_nodes, weigh,
  weighted_by, add_row, distance, closeness_of, raw_score, score_of, matrix_of, pre_score, score,
  clamp_score,
}

Values-In :
    {V : Type 0} (P : V → Type 0) (k : String) (v : V) (l : Table V)
    → Values P l
    → In (k, v) l
    → P v
Values-In P k v [] h g = absurd g
Values-In {V} P k v ((j, w) ∷ l) h (inl e) = subst P (ap (λ (p : String × V). p.1) e) h.0
Values-In P k v ((j, w) ∷ l) h (inr g) = Values-In P k v l h.1 g

module _ (R : Float) (nan : R.F) (laws : IsNan R nan) where
  open R use {F, of_int, add, sub, mul, sqrt, pow, round, to_int}

  -- Once the sum of the squares is nan it stays so.
  sum_nodes-nan :
      (pl : PowerAware R) (ns : List NodeInfo) (s : Sums R)
      → s.total.cpu ≡ nan
      → (sum_nodes R pl ns s).total.cpu ≡ nan
  unfolding sum_nodes
  sum_nodes-nan pl [] s h = h
  sum_nodes-nan pl (n ∷ ns) s h = sum_nodes-nan pl ns _ (rw h (laws.add_left _))

  sum_nodes-nan_from :
      (pl : PowerAware R) (n : NodeInfo) (ns : List NodeInfo) (s : Sums R)
      → In n ns
      → (criteria R pl n).cpu ≡ nan
      → (sum_nodes R pl ns s).total.cpu ≡ nan
  unfolding sum_nodes
  sum_nodes-nan_from pl n [] s h e = absurd h
  sum_nodes-nan_from pl n (x ∷ ns) s (inl same) e = sum_nodes-nan pl ns _ (
      let square : mul (criteria R pl x).cpu (criteria R pl x).cpu ≡ nan =
        rw same (rw e (laws.mul_left nan)) in
      rw square (laws.add_right _))
  sum_nodes-nan_from pl n (x ∷ ns) s (inr h) e = sum_nodes-nan_from pl n ns _ h e

  -- So every weighted CPU value is nan.
  weighted-nan :
      (pl : PowerAware R) (t v : NodeVector R)
      → t.cpu ≡ nan
      → (weighted_by R pl (denominators R t) v).cpu ≡ nan
  weighted-nan pl t v h =
      let denom : (denominators R t).cpu ≡ nan = rw h (rw laws.sqrt_nan (laws.add_left _)) in
      rw denom (rw (laws.div_right v.cpu) (laws.mul_left _))

  weigh-nan :
      (pl : PowerAware R) (t : NodeVector R) (raw : Table (NodeVector R)) (m : Matrix R)
      → t.cpu ≡ nan
      → Values (λ (v : NodeVector R). v.cpu ≡ nan) m.rows
      → Values (λ (v : NodeVector R). v.cpu ≡ nan) (weigh R pl (denominators R t) raw m).rows
  unfolding weigh add_row
  weigh-nan pl t [] m h k = k
  weigh-nan pl t ((name, v) ∷ rest) m h k =
      weigh-nan pl t rest _ h
        (Values-insert (λ (w : NodeVector R). w.cpu ≡ nan) name _ m.rows (weighted-nan pl t v h) k)

  root-nan : (p c m w : F) → c ≡ nan → sqrt (add (add (add p c) m) w) ≡ nan
  root-nan p c m w h = rw (h, laws.add_right p, laws.add_left m, laws.add_left w) laws.sqrt_nan

  distance-nan : (v w : NodeVector R) → v.cpu ≡ nan → distance R v w ≡ nan
  unfolding distance
  distance-nan v w h = root-nan _ (pow (sub v.cpu w.cpu) (two R)) _ _ (
      ap (λ x. pow (sub x w.cpu) (two R)) h
      ∙ ap (λ x. pow x (two R)) (laws.sub_left w.cpu)
      ∙ laws.pow_nan)

  closeness_of-nan : (d : F) → closeness_of R nan d ≡ zero_float R
  unfolding closeness_of
  closeness_of-nan d = rw (laws.add_left d) (rw (laws.lt_right R.nano))

  matrix-nan :
      (range_raw range_matrix : Table (NodeVector R) → Table (NodeVector R)) (pl : PowerAware R)
      (nodes : List NodeInfo) (bad : NodeInfo)
      → In bad nodes
      → (criteria R pl bad).cpu ≡ nan
      → Values
          (λ (v : NodeVector R). v.cpu ≡ nan)
          (matrix_of R range_raw range_matrix pl nodes).rows
  unfolding matrix_of
  matrix-nan range_raw range_matrix pl nodes bad h e =
      let s = sum_nodes R pl nodes (sums_start R) in
      weigh-nan pl s.total (range_raw s.raw) (matrix_start R)
        (sum_nodes-nan_from pl bad nodes (sums_start R) h e) tt

  module _ (scaled : IsScaled R) where
    raw_score-nan :
        (ideal negative v : NodeVector R) → v.cpu ≡ nan → raw_score R ideal negative v ≡ pos 0
    unfolding raw_score
    raw_score-nan ideal negative v h =
        ap (λ d. to_int (round (mul (closeness_of R d (distance R v negative)) (of_int (pos 100)))))
          (distance-nan v ideal h)
        ∙ ap (λ c. to_int (round (mul c (of_int (pos 100)))))
            (closeness_of-nan (distance R v negative))
        ∙ ap (λ x. to_int (round x)) scaled.zero_percent
        ∙ scaled.to_int-round 0 (omega arith)

    score_of-nan :
        (ideal negative v : NodeVector R) → v.cpu ≡ nan → score_of R ideal negative v ≡ pos 0
    unfolding score_of clamp_score
    score_of-nan ideal negative v h = rw (raw_score-nan ideal negative v h)

-- If the CPU criterion of one node is a NaN (no CPU requested and none allocatable: 0/0), `Score`
-- gives every node of the `PreScore` call the score 0, the sound ones too: the NaN passes through
-- the shared denominator. The facts on floats are those of IEEE 754. The range loops visit exactly
-- the entries of their maps, in any order, and the cycle state reads what was written.
pub score-nan :
    (R : Float) (nan : R.F)
    → IsNan R nan
    → IsScaled R
    → (C : CycleState) → ((s : C.State) (t : Table ℤ) → C.read (C.write s t) ≡ some t)
    → (range_raw range_matrix : Table (NodeVector R) → Table (NodeVector R)) → Visits range_raw
    → Visits range_matrix
    → (pl : PowerAware R) (state : C.State) (n : NodeInfo) (ns : List NodeInfo) (bad : NodeInfo)
    → In bad (n ∷ ns)
    → (criteria R pl bad).cpu ≡ nan
    → (k : String) → In k (names (n ∷ ns))
    → score C (pre_score R range_raw range_matrix C pl state (n ∷ ns)) k ≡ pos 0
score-nan R nan laws scaled C read-write range_raw range_matrix vr vm pl state n ns bad h e k
      listed =
    let (v, there, scored) =
      score_listed R C read-write range_raw range_matrix pl state n ns k vr vm listed in
    scored
    ∙ score_of-nan R nan laws scaled _ _ v (
        Values-In (λ (w : NodeVector R). w.cpu ≡ nan) k v _
          (matrix-nan R nan laws range_raw range_matrix pl (n ∷ ns) bad h e) there)
