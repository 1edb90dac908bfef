-- ===== src/PowerAware/Dominance.antt =====
-- The ends of the scale: a node at the ideal has the greatest score, one at the negative ideal the
-- least.
use semvi_btp.Common.{◌≡◌, ap, ◌∙◌, String, true, List, ◌∷◌, some, In, arith}
use semvi_btp.Common.Int.{ℤ, pos}
use semvi_btp.PowerAware.Float.{Float, IsExact, IsScaled, two, zero_float, hundred}
use semvi_btp.PowerAware.Criteria.{NodeInfo, NodeVector, PowerAware}
use semvi_btp.PowerAware.Keys.{Visits}
use semvi_btp.PowerAware.Scores.{names, score_listed}
use semvi_btp.PowerAware.Plugin.{
  Table, CycleState, distance, closeness_of, raw_score, score_of, matrix_of, pre_score, score,
  clamp_score, min_node_score, max_node_score,
}

module _ (R : Float) (Finite : R.F → Type 0) (exact : IsExact R Finite) (scaled : IsScaled R) where
  open R use {F, of_int, add, sub, mul, div, lt, sqrt, pow, round, to_int, nano}

  -- Every component of the vector is finite.
  pub record AllFinite (v : NodeVector R) : Type 0 where
    pub pods : Finite v.pods
    pub cpu : Finite v.cpu
    pub mem : Finite v.mem
    pub power : Finite v.power

  square-zero : (a : F) → Finite a → pow (sub a a) (two R) ≡ zero_float R
  square-zero a h = ap (λ x. pow x (two R)) (exact.sub_self a h) ∙ exact.pow-zero

  root-zero :
      (p c m w : F)
      → p ≡ zero_float R
      → c ≡ zero_float R
      → m ≡ zero_float R
      → w ≡ zero_float R
      → sqrt (add (add (add p c) m) w) ≡ zero_float R
  root-zero p c m w hp hc hm hw =
      let z = exact.zero-add (zero_float R) exact.zero-Finite in
      rw (hp, hc, hm, hw) (rw z (rw z (rw z exact.sqrt-zero)))

  distance_self : (v : NodeVector R) → AllFinite v → distance R v v ≡ zero_float R
  unfolding distance
  distance_self v h =
      root-zero _ _ _ _ (square-zero v.pods h.pods) (square-zero v.cpu h.cpu)
        (square-zero v.mem h.mem) (square-zero v.power h.power)

  closeness_at_ideal :
      (d : F) → Finite d → lt nano d ≡ true → closeness_of R (zero_float R) d ≡ of_int (pos 1)
  unfolding closeness_of
  closeness_at_ideal d h far = rw (exact.zero-add d h) (rw far (exact.div_self d h far))

  closeness_at_negative :
      (d : F) → Finite d → lt nano d ≡ true → closeness_of R d (zero_float R) ≡ zero_float R
  unfolding closeness_of
  closeness_at_negative d h far = rw (exact.add-zero d h) (rw far (exact.zero-div d h far))

  score_of_ideal :
      (negative v : NodeVector R)
      → AllFinite v
      → Finite (distance R v negative)
      → lt nano (distance R v negative) ≡ true
      → score_of R v negative v ≡ max_node_score
  unfolding score_of raw_score clamp_score
  score_of_ideal negative v h g far = ap clamp_score (
      ap (λ d. to_int (round (mul (closeness_of R d (distance R v negative)) (hundred R))))
        (distance_self v h)
      ∙ ap (λ c. to_int (round (mul c (hundred R)))) (closeness_at_ideal _ g far)
      ∙ ap (λ x. to_int (round x)) scaled.full_percent
      ∙ scaled.to_int-round 100 (omega arith))

  score_of_negative :
      (ideal v : NodeVector R)
      → AllFinite v
      → Finite (distance R v ideal)
      → lt nano (distance R v ideal) ≡ true
      → score_of R ideal v v ≡ min_node_score
  unfolding score_of raw_score clamp_score
  score_of_negative ideal v h g far = ap clamp_score (
      ap (λ d. to_int (round (mul (closeness_of R (distance R v ideal) d) (hundred R))))
        (distance_self v h)
      ∙ ap (λ c. to_int (round (mul c (hundred R)))) (closeness_at_negative _ g far)
      ∙ ap (λ x. to_int (round x)) scaled.zero_percent
      ∙ scaled.to_int-round 0 (omega arith))

  module _ (C : CycleState)
      (read-write : (s : C.State) (t : Table ℤ) → C.read (C.write s t) ≡ some t)
      (range_raw range_matrix : Table (NodeVector R) → Table (NodeVector R))
      (visits_raw : Visits range_raw) (visits_matrix : Visits range_matrix) (pl : PowerAware R)
      (state : C.State) (n : NodeInfo) (ns : List NodeInfo) (k : String)
      (listed : In k (names (n ∷ ns))) where
    -- A node of the `PreScore` call whose weighted row is the ideal has the score MaxNodeScore, if
    -- the ideal and its distance from the negative ideal are finite and that distance is above
    -- 1e-9. Facts of finite float64 arithmetic are assumed, rounding to whole scores among them.
    -- The range loops visit exactly the entries of their maps, in any order, and the cycle state
    -- reads what was written.
    pub score_at_ideal :
        let m = matrix_of R range_raw range_matrix pl (n ∷ ns) in
        ((v : NodeVector R) → In (k, v) m.rows → v ≡ m.ideal)
        → AllFinite m.ideal
        → Finite (distance R m.ideal m.negative)
        → lt nano (distance R m.ideal m.negative) ≡ true
        → score C (pre_score R range_raw range_matrix C pl state (n ∷ ns)) k ≡ max_node_score
    score_at_ideal at h g far =
        let m = matrix_of R range_raw range_matrix pl (n ∷ ns) in
        let (v, there, e) =
          score_listed R C read-write range_raw range_matrix pl state n ns k visits_raw
            visits_matrix listed in
        e
        ∙ ap (score_of R m.ideal m.negative) (at v there)
        ∙ score_of_ideal m.negative m.ideal h g far

    -- A node of the `PreScore` call whose weighted row is the negative ideal has the score
    -- MinNodeScore, if the negative ideal and its distance from the ideal are finite and that
    -- distance is above 1e-9. Facts of finite float64 arithmetic are assumed, rounding to whole
    -- scores among them. The range loops visit exactly the entries of their maps, in any order,
    -- and the cycle state reads what was written.
    score_at_negative :
        let m = matrix_of R range_raw range_matrix pl (n ∷ ns) in
        ((v : NodeVector R) → In (k, v) m.rows → v ≡ m.negative)
        → AllFinite m.negative
        → Finite (distance R m.negative m.ideal)
        → lt nano (distance R m.negative m.ideal) ≡ true
        → score C (pre_score R range_raw range_matrix C pl state (n ∷ ns)) k ≡ min_node_score
    score_at_negative at h g far =
        let m = matrix_of R range_raw range_matrix pl (n ∷ ns) in
        let (v, there, e) =
          score_listed R C read-write range_raw range_matrix pl state n ns k visits_raw
            visits_matrix listed in
        e
        ∙ ap (score_of R m.ideal m.negative) (at v there)
        ∙ score_of_negative m.ideal m.negative h g far
