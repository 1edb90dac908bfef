-- ===== src/PowerAware/Extremes.antt =====
-- The ideal and the negative ideal of the second loop are the best and the worst weighted values.
use semvi_btp.Common.{
  ◌≡◌, refl, sym, ap, subst, ◌∙◌, String, Bool, true, false, List, [], ◌∷◌, map, inl, inr, In, All,
}
use semvi_btp.PowerAware.Float.{Float, IsOrdered}
use semvi_btp.PowerAware.Criteria.{NodeInfo, NodeVector, PowerAware, is_cost, get_val, get_extreme}
use semvi_btp.PowerAware.Picks.{
  criteria_keys, NotWorse, pick_all, get_val-get_extreme, pick_all-NotWorse_start,
  pick_all-NotWorse, pick_all-In,
}
use semvi_btp.PowerAware.Keys.{Visits}
use semvi_btp.PowerAware.Scores.{raw-HasKey}
use semvi_btp.PowerAware.Plugin.{
  Table, sums_start, Matrix, matrix_start, denominators, sum_nodes, weigh, weighted_by, add_row,
  matrix_of,
}

All-map_In :
    {A B : Type 0} (P : B → Type 0) (f : A → B) (l : List A) (a : A)
    → All P (map f l)
    → In a l
    → P (f a)
All-map_In P f (x ∷ l) a h (inl e) = subst (λ y. P (f y)) e h.0
All-map_In P f (x ∷ l) a h (inr g) = All-map_In P f l a h.1 g
All-map_In P f [] a h g = absurd g

All-map_of_In :
    {A B : Type 0} (P : B → Type 0) (f : A → B) (l : List A)
    → ((a : A) → In a l → P (f a))
    → All P (map f l)
All-map_of_In P f [] h = tt
All-map_of_In P f (x ∷ l) h = (h x (inl refl), All-map_of_In P f l (λ a g. h a (inr g)))

In-map :
    {A B : Type 0} (f : A → B) (b : B) (l : List A) → In b (map f l) → (a : A) × In a l × (f a ≡ b)
In-map f b [] h = absurd h
In-map f b (x ∷ l) (inl e) = (x, inl refl, e)
In-map f b (x ∷ l) (inr h) = let (a, g, e) = In-map f b l h in (a, inr g, e)

module _ (R : Float) where
  open R use {F}

  -- The weighted value of an entry at a criterion.
  abbrev pub value_at : PowerAware R → NodeVector R → String → String × NodeVector R → F
  value_at pl denoms k e = get_val R (weighted_by R pl denoms e.1) k

  abbrev values : PowerAware R → NodeVector R → String → Table (NodeVector R) → List F
  values pl denoms k raw = map (value_at pl denoms k) raw

  -- The candidate of a matrix.
  abbrev candidate : Bool → Matrix R → NodeVector R
  candidate true m = m.ideal
  candidate false m = m.negative

  candidate-add_row :
      (pl : PowerAware R) (b : Bool) (name : String) (v : NodeVector R) (m : Matrix R)
      → m.first ≡ false
      → candidate b (add_row R pl name v m) ≡ get_extreme R pl (candidate b m) v b
  unfolding add_row
  candidate-add_row pl true name v m h = rw h
  candidate-add_row pl false name v m h = rw h

  candidate-add_first :
      (pl : PowerAware R) (b : Bool) (name : String) (v : NodeVector R)
      → candidate b (add_row R pl name v (matrix_start R)) ≡ v
  unfolding add_row
  candidate-add_first pl true name v = refl
  candidate-add_first pl false name v = refl

  first-add_row :
      (pl : PowerAware R) (name : String) (v : NodeVector R) (m : Matrix R)
      → (add_row R pl name v m).first ≡ false
  unfolding add_row
  first-add_row pl name v m = refl

  module _ (pl : PowerAware R) (denoms : NodeVector R) (b : Bool) (k : String)
      (known : In k criteria_keys) where
    weigh-candidate :
        (raw : Table (NodeVector R)) (m : Matrix R)
        → m.first ≡ false
        → get_val R (candidate b (weigh R pl denoms raw m)) k
          ≡ pick_all R b (is_cost R pl k) (values pl denoms k raw) (get_val R (candidate b m) k)
    unfolding weigh
    weigh-candidate [] m h = refl
    weigh-candidate ((name, v) ∷ rest) m h =
        let row = weighted_by R pl denoms v in
        weigh-candidate rest (add_row R pl name row m) (first-add_row pl name row m)
        ∙ ap (pick_all R b (is_cost R pl k) (values pl denoms k rest)) (
            ap (λ x. get_val R x k) (candidate-add_row pl b name row m h)
            ∙ get_val-get_extreme R pl (candidate b m) row b k known)

    -- A row that is there makes the candidate the pick among all values.
    weigh-candidate_start :
        (name : String) (v : NodeVector R) (rest : Table (NodeVector R))
        → get_val R (candidate b (weigh R pl denoms ((name, v) ∷ rest) (matrix_start R))) k
          ≡ pick_all R b (is_cost R pl k) (values pl denoms k rest) (value_at pl denoms k (name, v))
    unfolding weigh
    weigh-candidate_start name v rest =
        let row = weighted_by R pl denoms v in
        weigh-candidate rest (add_row R pl name row (matrix_start R))
          (first-add_row pl name row (matrix_start R))
        ∙ ap (λ x. pick_all R b (is_cost R pl k) (values pl denoms k rest) (get_val R x k))
            (candidate-add_first pl b name row)

    -- The candidate at a criterion is the value of an entry.
    weigh-In :
        (name : String) (v : NodeVector R) (rest : Table (NodeVector R))
        → In
            (get_val R (candidate b (weigh R pl denoms ((name, v) ∷ rest) (matrix_start R))) k)
            (values pl denoms k ((name, v) ∷ rest))
    weigh-In name v rest =
        subst (λ x. In x (values pl denoms k ((name, v) ∷ rest)))
          (sym (weigh-candidate_start name v rest))
          (pick_all-In R b (is_cost R pl k) (values pl denoms k rest)
            (value_at pl denoms k (name, v)))

    module _ (IsNumber : F → Type 0) (order : IsOrdered R IsNumber) where
      weigh-NotWorse :
          (raw : Table (NodeVector R))
          → ((e : String × NodeVector R) → In e raw → IsNumber (value_at pl denoms k e))
          → All
              (NotWorse R b
                (is_cost R pl k)
                (get_val R (candidate b (weigh R pl denoms raw (matrix_start R))) k))
              (values pl denoms k raw)
      weigh-NotWorse [] numbers = tt
      weigh-NotWorse ((name, v) ∷ rest) numbers =
          let first = numbers (name, v) (inl refl) in
          let others =
            All-map_of_In IsNumber (value_at pl denoms k) rest (λ e h. numbers e (inr h)) in
          subst (λ x. All (NotWorse R b (is_cost R pl k) x) (values pl denoms k ((name, v) ∷ rest)))
            (sym (weigh-candidate_start name v rest))
            (
              pick_all-NotWorse_start R IsNumber order b (is_cost R pl k) (values pl denoms k rest)
                  (value_at pl denoms k (name, v)) others first,
              pick_all-NotWorse R IsNumber order b (is_cost R pl k) (values pl denoms k rest)
                  (value_at pl denoms k (name, v)) others first,
            )

    attained :
        (raw : Table (NodeVector R)) (e : String × NodeVector R)
        → In e raw
        → (a : String × NodeVector R) × In a raw
          × (value_at pl denoms k a
              ≡ get_val R (candidate b (weigh R pl denoms raw (matrix_start R))) k)
    attained [] e h = absurd h
    attained ((name, v) ∷ rest) e h =
        In-map (value_at pl denoms k) _ ((name, v) ∷ rest) (weigh-In name v rest)

module _ (R : Float) (IsNumber : Float.F R → Type 0) (order : IsOrdered R IsNumber)
    (range_raw range_matrix : Table (NodeVector R) → Table (NodeVector R))
    (visits : Visits range_raw) (pl : PowerAware R) (nodes : List NodeInfo) (k : String)
    (known : In k criteria_keys) where
  -- For each of the four criteria, the ideal of a `PreScore` call is no worse than the weighted value
  -- of any node, and the negative ideal no better: the least value for a cost criterion, the greatest
  -- for a benefit, and the reverse for the negative ideal. The weighted values at the criterion are
  -- numbers (no NaN), on which the order of float64 is a strict weak order, and the range loop visits
  -- exactly the map's entries, in any order.
  pub matrix-extreme :
      let s = sum_nodes R pl nodes (sums_start R) in
      let m = matrix_of R range_raw range_matrix pl nodes in
      ((e : String × NodeVector R)
        → In e s.raw
        → IsNumber (value_at R pl (denominators R s.total) k e))
      → (e : String × NodeVector R) → In e s.raw
      → NotWorse R true
          (is_cost R pl k)
          (get_val R m.ideal k)
          (value_at R pl (denominators R s.total) k e)
        × NotWorse R false
            (is_cost R pl k)
            (get_val R m.negative k)
            (value_at R pl (denominators R s.total) k e)
  unfolding matrix_of
  matrix-extreme numbers e h =
      let s = sum_nodes R pl nodes (sums_start R) in
      let denoms = denominators R s.total in
      let seen = (visits s.raw e).1 h in
      let listed = λ (a : String × NodeVector R) (g : In a (range_raw s.raw)).
        numbers a ((visits s.raw a).0 g) in
      (
        All-map_In _ (value_at R pl denoms k) (range_raw s.raw) e
            (weigh-NotWorse R pl denoms true k known IsNumber order (range_raw s.raw) listed) seen,
        All-map_In _ (value_at R pl denoms k) (range_raw s.raw) e
            (weigh-NotWorse R pl denoms false k known IsNumber order (range_raw s.raw) listed) seen,
      )

module _ (R : Float) (range_raw range_matrix : Table (NodeVector R) → Table (NodeVector R))
    (visits : Visits range_raw) (pl : PowerAware R) (n : NodeInfo) (ns : List NodeInfo) (k : String)
    (known : In k criteria_keys) where
  -- At each of the four criteria the ideal of a `PreScore` call on some nodes is the weighted value
  -- of one of them, and so is the negative ideal, whatever the order of the values; the range loop
  -- visits exactly the map's entries.
  pub matrix-attained :
      let s = sum_nodes R pl (n ∷ ns) (sums_start R) in
      let m = matrix_of R range_raw range_matrix pl (n ∷ ns) in
      ((e : String × NodeVector R) × In e s.raw
        × (value_at R pl (denominators R s.total) k e ≡ get_val R m.ideal k))
      × ((e : String × NodeVector R) × In e s.raw
          × (value_at R pl (denominators R s.total) k e ≡ get_val R m.negative k))
  unfolding matrix_of
  matrix-attained =
      let s = sum_nodes R pl (n ∷ ns) (sums_start R) in
      let denoms = denominators R s.total in
      let (v, h) = raw-HasKey R pl n.name (n ∷ ns) (sums_start R) (inl (inl refl)) in
      let seen = (visits s.raw (n.name, v)).1 h in
      let (a, g, e) = attained R pl denoms true k known (range_raw s.raw) (n.name, v) seen in
      let (a', g', e') = attained R pl denoms false k known (range_raw s.raw) (n.name, v) seen in
      ((a, (visits s.raw a).0 g, e), (a', (visits s.raw a').0 g', e'))
