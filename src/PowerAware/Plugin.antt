-- ===== src/PowerAware/Plugin.antt =====
-- `PreScore` and `Score`. A table is a map of a `PreScore` call, made there and never nil: its
-- entries. `range_raw` and `range_matrix` are the orders in which Go visits two of them.
use semvi_btp.Common.{String, Bool, true, false, Option, none, some, List, [], ◌∷◌, if◌then◌else◌}
use semvi_btp.Common.GoMap.{lookup, insert}
use semvi_btp.Common.Int.{ℤ, pos, ltb_ℤ}
use semvi_btp.PowerAware.Float.{Float}
use semvi_btp.PowerAware.Criteria.{
  NodeInfo, NodeVector, PowerAware, criteria, weight_of, get_extreme,
}

abbrev pub Table {ℓ} : Type ℓ → Type ℓ
Table V = List (String × V)

-- framework.MaxNodeScore and framework.MinNodeScore
abbrev pub max_node_score : ℤ
max_node_score = pos 100

abbrev pub min_node_score : ℤ
min_node_score = pos 0

-- if score > MaxNodeScore { .. }; if score < MinNodeScore { .. }
unfoldable pub clamp_score : ℤ → ℤ
clamp_score score =
    let capped = if ltb_ℤ max_node_score score then max_node_score else score in
    if ltb_ℤ capped min_node_score then min_node_score else capped

-- framework.CycleState at the key of this plugin's data: what `Write` stores, `Read` finds.
pub record CycleState : Type 1 where
  pub State : Type 0
  pub write : State → Table ℤ → State
  pub read : State → Option (Table ℤ)

module _ (R : Float) where
  open R use {F, of_int, add, sub, mul, div, lt, sqrt, pow, round, to_int, nano}

  -- The values of the first loop: rawValues, sumP, sumC, sumM and sumPow.
  pub record Sums : Type 0 where
    pub raw : Table (NodeVector R)
    pub total : NodeVector R

  abbrev pub sums_start : Sums
  sums_start = record {
    raw = [];
    total = record {
      pods = of_int (pos 0);
      cpu = of_int (pos 0);
      mem = of_int (pos 0);
      power = of_int (pos 0);
    };
  }

  abbrev pub add_squares : NodeVector R → NodeVector R → NodeVector R
  add_squares t v = record {
    pods = add t.pods (mul v.pods v.pods);
    cpu = add t.cpu (mul v.cpu v.cpu);
    mem = add t.mem (mul v.mem v.mem);
    power = add t.power (mul v.power v.power);
  }

  unfoldable pub sum_nodes : PowerAware R → List NodeInfo → Sums → Sums
  sum_nodes pl [] s = s
  sum_nodes pl (n ∷ ns) s =
      let v = criteria R pl n in
      sum_nodes pl ns (record { raw = insert n.name v s.raw; total = add_squares s.total v })

  abbrev pub denominators : NodeVector R → NodeVector R
  denominators t = record {
    pods = add (sqrt t.pods) nano;
    cpu = add (sqrt t.cpu) nano;
    mem = add (sqrt t.mem) nano;
    power = add (sqrt t.power) nano;
  }

  abbrev pub weighted_by : PowerAware R → NodeVector R → NodeVector R → NodeVector R
  weighted_by pl denoms v = record {
    pods = mul (div v.pods denoms.pods) (weight_of R pl "pods");
    cpu = mul (div v.cpu denoms.cpu) (weight_of R pl "cpu");
    mem = mul (div v.mem denoms.mem) (weight_of R pl "memory");
    power = mul (div v.power denoms.power) (weight_of R pl "power");
  }

  -- The values of the second loop; `first` is true until a node was seen.
  pub record Matrix : Type 0 where
    pub rows : Table (NodeVector R)
    pub ideal : NodeVector R
    pub negative : NodeVector R
    pub first : Bool

  abbrev pub zero_vector : NodeVector R
  zero_vector = record {
    pods = of_int (pos 0);
    cpu = of_int (pos 0);
    mem = of_int (pos 0);
    power = of_int (pos 0);
  }

  abbrev pub matrix_start : Matrix
  matrix_start = record { rows = []; ideal = zero_vector; negative = zero_vector; first = true }

  -- The body of the second loop for the weighted row of a node.
  unfoldable pub add_row : PowerAware R → String → NodeVector R → Matrix → Matrix
  unfolding get_extreme
  add_row pl name weighted m = record {
    rows = insert name weighted m.rows;
    ideal = if m.first then weighted else get_extreme R pl m.ideal weighted true;
    negative = if m.first then weighted else get_extreme R pl m.negative weighted false;
    first = false;
  }

  unfoldable pub weigh : PowerAware R → NodeVector R → Table (NodeVector R) → Matrix → Matrix
  weigh pl denoms [] m = m
  weigh pl denoms ((name, v) ∷ rest) m =
      weigh pl denoms rest (add_row pl name (weighted_by pl denoms v) m)

  unfoldable pub distance : NodeVector R → NodeVector R → F
  distance v w =
      let two = of_int (pos 2) in
      sqrt (
        add
          (add (add (pow (sub v.pods w.pods) two) (pow (sub v.cpu w.cpu) two))
            (pow (sub v.mem w.mem) two))
          (pow (sub v.power w.power) two))

  unfoldable pub closeness_of : F → F → F
  closeness_of d_plus d_minus =
      if lt nano (add d_plus d_minus) then div d_minus (add d_plus d_minus) else of_int (pos 0)

  -- int64(math.Round(closeness * float64(framework.MaxNodeScore)))
  unfoldable pub raw_score : NodeVector R → NodeVector R → NodeVector R → ℤ
  raw_score ideal negative v =
      to_int (
        round (mul (closeness_of (distance v ideal) (distance v negative)) (of_int max_node_score)))

  unfoldable pub score_of : NodeVector R → NodeVector R → NodeVector R → ℤ
  score_of ideal negative v = clamp_score (raw_score ideal negative v)

  unfoldable pub score_rows : NodeVector R → NodeVector R → Table (NodeVector R) → Table ℤ → Table ℤ
  score_rows ideal negative [] scores = scores
  score_rows ideal negative ((name, v) ∷ rest) scores =
      score_rows ideal negative rest (insert name (score_of ideal negative v) scores)

  module _ (range_raw range_matrix : Table (NodeVector R) → Table (NodeVector R)) where
    -- The matrix of a call, after the second loop.
    unfoldable pub matrix_of : PowerAware R → List NodeInfo → Matrix
    matrix_of pl nodes =
        let s = sum_nodes pl nodes sums_start in
        weigh pl (denominators s.total) (range_raw s.raw) matrix_start

    -- The scores of a call, after the third loop.
    unfoldable pub scores_of : PowerAware R → List NodeInfo → Table ℤ
    scores_of pl nodes =
        let m = matrix_of pl nodes in score_rows m.ideal m.negative (range_matrix m.rows) []

    module _ (C : CycleState) where
      open C use {State, write, read}

      -- PreScore; the status is nil on every path.
      unfoldable pub pre_score : PowerAware R → State → List NodeInfo → State
      pre_score pl state [] = state
      pre_score pl state (n ∷ ns) = write state (scores_of pl (n ∷ ns))

-- s.scores[nodeName], 0 where it is missing
abbrev pub or_zero : Option ℤ → ℤ
or_zero none = pos 0
or_zero (some n) = n

abbrev pub score_in : Option (Table ℤ) → String → ℤ
score_in none node_name = pos 0
score_in (some scores) node_name = or_zero (lookup node_name scores)

-- Score; the status is nil on every path.
unfoldable pub score : (C : CycleState) → C.State → String → ℤ
score C state node_name = score_in (C.read state) node_name
