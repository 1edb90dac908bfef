-- ===== src/Extender/Service.antt =====
-- simulator/scheduler/extender/service.go: the service calls an extender and records what it returns.
-- An extender is found by its index: another index ends in a panic.
use semvi_btp.Common.{
  ℕ, zero, suc, String, Option, none, some, List, [], ◌∷◌, Run, returns, panics, ◌>>=◌, Try, ok,
  err,
}
use semvi_btp.Common.Errors.{GoError, wrapped}
use semvi_btp.Common.Int.{ℤ, pos, negsuc}
use semvi_btp.Extender.Store.{
  PodName, Args, Store, add_filter_result, add_prioritize_result, add_preempt_result,
  add_bind_result,
}

pub record BindArgs (A : Type 0) : Type 0 where
  pub bound_pod : PodName
  pub rest : A

-- The interface Extender.
pub record Extender (W A F P M B E : Type 0) : Type 0 where
  pub name : String
  pub filter : Args A → W → W × Try (GoError E) F
  pub prioritize : Args A → W → W × Try (GoError E) P
  pub preempt : Args A → W → W × Try (GoError E) M
  pub bind : BindArgs A → W → W × Try (GoError E) B

-- An index expression.
abbrev pub nth_extender : {X : Type 0} → List X → ℕ → Option X
nth_extender [] n = none
nth_extender (x ∷ xs) zero = some x
nth_extender (x ∷ xs) (suc n) = nth_extender xs n

abbrev pub extender_at : {X : Type 0} → List X → ℤ → Option X
extender_at xs (pos n) = nth_extender xs n
extender_at xs (negsuc n) = none

module _ {W F P M B E : Type 0} where
  -- After the call: a result is recorded and returned, an error is returned alone.
  abbrev pub record_reply :
      {R : Type 0}
      → String
      → (R → Store F P M B → Run (Store F P M B))
      → W × Try (GoError E) R
      → Store F P M B
      → Run (W × Store F P M B × Try (GoError E) R)
  record_reply text add (w, err e) s = returns (w, s, err (wrapped text e))
  record_reply text add (w, ok result) s = add result s >>= (λ t. returns (w, t, ok result))

module _ {W A F P M B E : Type 0} where
  abbrev pub with_extender :
      {R : Type 0}
      → Option (Extender W A F P M B E)
      → (Extender W A F P M B E → Run (W × Store F P M B × Try (GoError E) R))
      → Run (W × Store F P M B × Try (GoError E) R)
  with_extender none f = panics
  with_extender (some e) f = f e

  module _ (extenders : List (Extender W A F P M B E)) where
    unfoldable pub filter :
        ℤ → Args A → W → Store F P M B → Run (W × Store F P M B × Try (GoError E) F)
    unfolding add_filter_result
    filter id args w s = with_extender (extender_at extenders id) (λ e.
        record_reply "call filter of specified HTTPExtender"
          (λ result. add_filter_result args result e.name) (e.filter args w) s)

    unfoldable pub prioritize :
        ℤ → Args A → W → Store F P M B → Run (W × Store F P M B × Try (GoError E) P)
    unfolding add_prioritize_result
    prioritize id args w s = with_extender (extender_at extenders id) (λ e.
        record_reply "call prioritize of specified HTTPExtender"
          (λ result. add_prioritize_result args result e.name) (e.prioritize args w) s)

    unfoldable pub preempt :
        ℤ → Args A → W → Store F P M B → Run (W × Store F P M B × Try (GoError E) M)
    unfolding add_preempt_result
    preempt id args w s = with_extender (extender_at extenders id) (λ e.
        record_reply "call preempt of specified HTTPExtender"
          (λ result. add_preempt_result args result e.name) (e.preempt args w) s)

    unfoldable pub bind :
        ℤ → BindArgs A → W → Store F P M B → Run (W × Store F P M B × Try (GoError E) B)
    unfolding add_bind_result
    bind id args w s = with_extender (extender_at extenders id) (λ e.
        record_reply "call bind of specified HTTPExtender"
          (λ result. add_bind_result args.bound_pod result e.name) (e.bind args w) s)
