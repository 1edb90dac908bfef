-- ===== src/PowerAware/Criteria.antt =====
-- The configuration, the power model, and the criteria of a node.
use semvi_btp.Common.{
  ℕ, ◌+◌, String, Bool, false, not, ◌&&◌, ◌||◌, none, some, List, [], ◌∷◌, ◌==◌, if◌then◌else◌,
}
use semvi_btp.Common.GoMap.{GoMap, made, get}
use semvi_btp.Common.Int.{ℤ, pos}
use semvi_btp.PowerAware.Float.{Float}

-- What the plugin reads of a framework.NodeInfo.
pub record NodeInfo : Type 0 where
  pub name : String
  pub pods : ℕ
  pub requested_milli_cpu : ℤ
  pub requested_memory : ℤ
  pub allocatable_milli_cpu : ℤ
  pub allocatable_memory : ℤ

module _ (R : Float) where
  open R use {F, of_int, add, sub, mul, div, neg, lt, le, exp, min}

  -- PowerModelArgs
  pub record PowerModelArgs : Type 0 where
    pub k0 : F
    pub k1 : F
    pub k2 : F

  unfoldable pub estimate : PowerModelArgs → F → F → F
  estimate p x cores =
      let node_k0 = mul p.k0 cores in
      let node_k1 = mul p.k1 cores in
      add node_k0 (mul node_k1 (sub (of_int (pos 1)) (exp (mul (neg p.k2) x))))

  -- CriteriaConfig
  pub record CriteriaConfig : Type 0 where
    pub weight : F
    pub criteria_type : String

  -- PowerAwareArgs
  pub record PowerAwareArgs : Type 0 where
    pub pod_load_balancing_criteria : CriteriaConfig
    pub cpu_criteria : CriteriaConfig
    pub mem_criteria : CriteriaConfig
    pub power_criteria : CriteriaConfig
    pub power_model : PowerModelArgs

  -- PowerAware, without the framework's handle, which no method reads.
  pub record PowerAware : Type 0 where
    pub weights : GoMap F
    pub cost_criteria : GoMap Bool
    pub power_model : PowerModelArgs

  -- nodeVector
  pub record NodeVector : Type 0 where
    pub pods : F
    pub cpu : F
    pub mem : F
    pub power : F

  -- The rest of `New` once the arguments are decoded. `fold` is strings.EqualFold.
  unfoldable pub new_plugin : (String → String → Bool) → PowerAwareArgs → PowerAware
  new_plugin fold args = record {
    weights = made (
        ("pods", args.pod_load_balancing_criteria.weight)
        ∷ ("cpu", args.cpu_criteria.weight)
        ∷ ("memory", args.mem_criteria.weight)
        ∷ ("power", args.power_criteria.weight)
        ∷ []);
    cost_criteria = made (
        ("pods", fold args.pod_load_balancing_criteria.criteria_type "Cost")
        ∷ ("cpu", fold args.cpu_criteria.criteria_type "Cost")
        ∷ ("memory", fold args.mem_criteria.criteria_type "Cost")
        ∷ ("power", fold args.power_criteria.criteria_type "Cost")
        ∷ []);
    power_model = args.power_model;
  }

  -- pl.weights[k], 0 where it is missing
  abbrev pub weight_of : PowerAware → String → F
  weight_of pl k = elim (get pl.weights k) [ none ↦ of_int (pos 0) | some w ↦ w ]

  -- pl.costCriteria[k], false where it is missing
  abbrev pub is_cost : PowerAware → String → Bool
  is_cost pl k = elim (get pl.cost_criteria k) [ none ↦ false | some b ↦ b ]

  -- The body of the first loop of `PreScore`, for one node.
  unfoldable pub criteria : PowerAware → NodeInfo → NodeVector
  unfolding estimate
  criteria pl n =
      let util_cpu = div (of_int n.requested_milli_cpu) (of_int n.allocatable_milli_cpu) in
      let util_mem = div (of_int n.requested_memory) (of_int n.allocatable_memory) in
      let given_cores = div (of_int n.allocatable_milli_cpu) (of_int (pos 1000)) in
      let total_cores = if le given_cores (of_int (pos 0)) then of_int (pos 1) else given_cores in
      record {
        pods = div (of_int (pos (n.pods + 1))) (of_int (pos 110));
        cpu = sub (of_int (pos 1)) util_cpu;
        mem = sub (of_int (pos 1)) util_mem;
        power = estimate pl.power_model (min util_cpu (of_int (pos 1))) total_cores;
      }

  unfoldable pub get_val : NodeVector → String → F
  get_val v k =
      if k == "pods"
      then v.pods
      else if k == "cpu"
      then v.cpu
      else if k == "memory"
      then v.mem
      else if k == "power"
      then v.power
      else of_int (pos 0)

  unfoldable pub set_val : NodeVector → String → F → NodeVector
  set_val v k x =
      if k == "pods"
      then record v { pods = x }
      else if k == "cpu"
      then record v { cpu = x }
      else if k == "memory"
      then record v { mem = x }
      else if k == "power"
      then record v { power = x }
      else v

  -- shouldUpdate, for a new value `v` and the value `c` so far
  unfoldable pub should_update : Bool → Bool → F → F → Bool
  should_update is_ideal cost v c =
      if is_ideal
      then (cost && lt v c) || (not cost && lt c v)
      else (cost && lt c v) || (not cost && lt v c)

  -- The loop of `getExtreme` over the keys.
  unfoldable pub extreme_keys :
      PowerAware → NodeVector → NodeVector → Bool → List String → NodeVector → NodeVector
  unfolding get_val set_val should_update
  extreme_keys pl curr next is_ideal [] res = res
  extreme_keys pl curr next is_ideal (k ∷ ks) res =
      let v = get_val next k in
      let c = get_val curr k in
      extreme_keys pl curr next is_ideal ks
        (if should_update is_ideal (is_cost pl k) v c then set_val res k v else res)

  unfoldable pub get_extreme : PowerAware → NodeVector → NodeVector → Bool → NodeVector
  unfolding extreme_keys
  get_extreme pl curr next is_ideal =
      extreme_keys pl curr next is_ideal ("pods" ∷ "cpu" ∷ "memory" ∷ "power" ∷ []) curr
