-- ===== src/PowerAware/Tests.antt =====
-- The plugin on sample nodes.
use semvi_btp.Common.{
  ◌≡◌, refl, ap, sym, subst, ◌∙◌, String, true, false, none, List, [], ◌∷◌, inl, inr, In, eq_iff,
  ◌==◌,
}
use semvi_btp.Common.GoMap.{lookup, insert}
use semvi_btp.Common.Int.{pos}
use semvi_btp.PowerAware.Criteria.{
  NodeInfo, NodeVector, new_plugin, estimate, is_cost, criteria, get_val, get_extreme, extreme_keys,
  set_val, should_update,
}
use semvi_btp.PowerAware.Plugin.{
  max_node_score, sum_nodes, sums_start, weighted_by, matrix_of, denominators, score_of, weigh,
  add_row, distance,
}
use semvi_btp.PowerAware.Scores.{InRange, score-InRange, score_listed}
use semvi_btp.PowerAware.Picks.{NotWorse}
use semvi_btp.PowerAware.Extremes.{value_at, matrix-extreme, matrix-attained}
use semvi_btp.PowerAware.NotANumber.{score-nan}
use semvi_btp.PowerAware.Dominance.{score_at_ideal}
use mathlib.Core.Bool.{true≢false}
use semvi_btp.PowerAware.Samples.{
  naturals, naturals_or_nan, naturals_or_nan-IsOrdered, IsSome, naturals-IsScaled, naturals-IsExact,
  none-IsNan, naturals_or_nan-IsScaled, cell, cell_reads, in_order, in_order-Visits, benefit, cost,
  busy, idle, broken, read_score,
}

abbrev busy_first : List NodeInfo
busy_first = busy ∷ idle ∷ []

score-InRange_example : InRange (read_score naturals (benefit naturals) (idle ∷ []) busy "idle")
score-InRange_example =
    score-InRange naturals cell cell_reads in_order in_order (benefit naturals) none busy
      (idle ∷ []) "idle"

score_listed_example :
    let m = matrix_of naturals in_order in_order (benefit naturals) busy_first in
    (v : NodeVector naturals) × In ("idle", v) m.rows
    × (read_score naturals (benefit naturals) (idle ∷ []) busy "idle"
        ≡ score_of naturals m.ideal m.negative v)
score_listed_example =
    score_listed naturals cell cell_reads in_order in_order (benefit naturals) none busy (idle ∷ [])
      "idle" in_order-Visits in_order-Visits (inr (inl refl))

unlisted : ¬ In {A = String} "other" ("busy" ∷ "idle" ∷ [])
unlisted (inl e) = absurd (true≢false (sym ((eq_iff "busy" "other").1 e)))
unlisted (inr (inl e)) = absurd (true≢false (sym ((eq_iff "idle" "other").1 e)))
unlisted (inr (inr h)) = h

busy_there :
    In
      ("busy", criteria naturals_or_nan (benefit naturals_or_nan) busy)
      (sum_nodes naturals_or_nan
        (benefit naturals_or_nan)
        busy_first
        (sums_start naturals_or_nan)).raw
unfolding sum_nodes insert
busy_there = inl refl

-- No weighted number of pods is 0 / 0.
abbrev HasPods : String × NodeVector naturals_or_nan → Type 0
HasPods e =
    let s =
      sum_nodes naturals_or_nan (benefit naturals_or_nan) busy_first (sums_start naturals_or_nan) in
    IsSome (
      value_at naturals_or_nan (benefit naturals_or_nan) (denominators naturals_or_nan s.total)
        "pods" e)

all-HasPods :
    (e : String × NodeVector naturals_or_nan)
    → In e
        (sum_nodes naturals_or_nan
          (benefit naturals_or_nan)
          busy_first
          (sums_start naturals_or_nan)).raw
    → HasPods e
unfolding sum_nodes insert criteria get_val lookup new_plugin
all-HasPods e (inl h) = subst HasPods h tt
all-HasPods e (inr (inl h)) = subst HasPods h tt
all-HasPods e (inr (inr h)) = absurd h

matrix-extreme_example :
    let s =
      sum_nodes naturals_or_nan (benefit naturals_or_nan) busy_first (sums_start naturals_or_nan) in
    let m = matrix_of naturals_or_nan in_order in_order (benefit naturals_or_nan) busy_first in
    let e : String × NodeVector naturals_or_nan =
      ("busy", criteria naturals_or_nan (benefit naturals_or_nan) busy) in
    NotWorse naturals_or_nan true
      (is_cost naturals_or_nan (benefit naturals_or_nan) "pods")
      (get_val naturals_or_nan m.ideal "pods")
      (value_at naturals_or_nan
        (benefit naturals_or_nan)
        (denominators naturals_or_nan s.total)
        "pods"
        e)
    × NotWorse naturals_or_nan false
        (is_cost naturals_or_nan (benefit naturals_or_nan) "pods")
        (get_val naturals_or_nan m.negative "pods")
        (value_at naturals_or_nan
          (benefit naturals_or_nan)
          (denominators naturals_or_nan s.total)
          "pods"
          e)
matrix-extreme_example =
    matrix-extreme naturals_or_nan IsSome naturals_or_nan-IsOrdered in_order in_order
      in_order-Visits (benefit naturals_or_nan) busy_first "pods" (inl refl) all-HasPods
      ("busy", criteria naturals_or_nan (benefit naturals_or_nan) busy) busy_there

matrix-attained_example :
    let s = sum_nodes naturals (cost naturals) busy_first (sums_start naturals) in
    let m = matrix_of naturals in_order in_order (cost naturals) busy_first in
    ((e : String × NodeVector naturals) × In e s.raw
      × (value_at naturals (cost naturals) (denominators naturals s.total) "pods" e
          ≡ get_val naturals m.ideal "pods"))
    × ((e : String × NodeVector naturals) × In e s.raw
        × (value_at naturals (cost naturals) (denominators naturals s.total) "pods" e
            ≡ get_val naturals m.negative "pods"))
matrix-attained_example =
    matrix-attained naturals in_order in_order in_order-Visits (cost naturals) busy (idle ∷ [])
      "pods" (inl refl)

broken_cpu : (criteria naturals_or_nan (benefit naturals_or_nan) broken).cpu ≡ none
unfolding criteria
broken_cpu = refl

score-nan_example :
    read_score naturals_or_nan (benefit naturals_or_nan) (broken ∷ []) busy "busy" ≡ pos 0
score-nan_example =
    score-nan naturals_or_nan none none-IsNan naturals_or_nan-IsScaled cell cell_reads in_order
      in_order in_order-Visits in_order-Visits (benefit naturals_or_nan) none busy (broken ∷ [])
      broken (inr (inl refl)) broken_cpu "busy" (inl refl)

other_name :
    {V : Type 0} (a b : String) (v w : V) → (a == b) ≡ false → ¬ Path (String × V) (a, v) (b, w)
other_name {V} a b v w h e = true≢false (sym ((eq_iff a b).1 (ap (λ (p : String × V). p.0) e)) ∙ h)

row_is_ideal :
    let p = benefit naturals in
    weighted_by naturals p
      (denominators naturals (sum_nodes naturals p busy_first (sums_start naturals)).total)
      (criteria naturals p busy)
    ≡ (matrix_of naturals in_order in_order p busy_first).ideal
unfolding distance matrix_of weigh add_row sum_nodes insert lookup get_extreme extreme_keys get_val
    set_val should_update new_plugin criteria estimate
row_is_ideal = refl

at_ideal :
    (v : NodeVector naturals)
    → let m = matrix_of naturals in_order in_order (benefit naturals) busy_first in
      In ("busy", v) m.rows → v ≡ m.ideal
unfolding matrix_of weigh add_row sum_nodes insert
at_ideal v (inl e) = sym (ap (λ (p : String × NodeVector naturals). p.1) e) ∙ row_is_ideal
at_ideal v (inr (inl e)) = absurd (other_name "idle" "busy" _ v refl e)
at_ideal v (inr (inr h)) = absurd h

far :
    let m = matrix_of naturals in_order in_order (benefit naturals) busy_first in
    naturals.lt naturals.nano (distance naturals m.ideal m.negative) ≡ true
unfolding distance matrix_of weigh add_row sum_nodes insert lookup get_extreme extreme_keys get_val
    set_val should_update new_plugin criteria estimate
far = refl

score_at_ideal_example :
    read_score naturals (benefit naturals) (idle ∷ []) busy "busy" ≡ max_node_score
score_at_ideal_example =
    score_at_ideal naturals (λ a. Unit {0}) naturals-IsExact naturals-IsScaled cell cell_reads
      in_order in_order in_order-Visits in_order-Visits (benefit naturals) none busy (idle ∷ [])
      "busy" (inl refl) at_ideal (record { pods = tt; cpu = tt; mem = tt; power = tt }) tt far

abbrev idle_first : List NodeInfo
idle_first = idle ∷ busy ∷ []

negative_row :
    let p = cost naturals in
    weighted_by naturals p
      (denominators naturals (sum_nodes naturals p idle_first (sums_start naturals)).total)
      (criteria naturals p busy)
    ≡ (matrix_of naturals in_order in_order p idle_first).negative
unfolding distance matrix_of weigh add_row sum_nodes insert lookup get_extreme extreme_keys get_val
    set_val should_update new_plugin criteria estimate
negative_row = refl

at_negative :
    (v : NodeVector naturals)
    → let m = matrix_of naturals in_order in_order (cost naturals) idle_first in
      In ("busy", v) m.rows → v ≡ m.negative
unfolding matrix_of weigh add_row sum_nodes insert
at_negative v (inl e) = absurd (other_name "idle" "busy" _ v refl e)
at_negative v (inr (inl e)) = sym (ap (λ (p : String × NodeVector naturals). p.1) e) ∙ negative_row
at_negative v (inr (inr h)) = absurd h

far_negative :
    let m = matrix_of naturals in_order in_order (cost naturals) idle_first in
    naturals.lt naturals.nano (distance naturals m.negative m.ideal) ≡ true
unfolding distance matrix_of weigh add_row sum_nodes insert lookup get_extreme extreme_keys get_val
    set_val should_update new_plugin criteria estimate
far_negative = refl
