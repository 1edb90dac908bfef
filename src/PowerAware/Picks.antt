-- ===== src/PowerAware/Picks.antt =====
-- What `getExtreme` leaves at a criterion: a pick among the values that it went over, none of which is
-- a better candidate.
use semvi_btp.Common.{
  ◌≡◌, refl, subst, ◌∙◌, String, Bool, true, false, List, [], ◌∷◌, inl, inr, In, All, Bool-cases,
  arith, if◌then◌else◌,
}
use semvi_btp.PowerAware.Float.{Float, IsOrdered}
use semvi_btp.PowerAware.Criteria.{
  NodeVector, PowerAware, is_cost, get_val, should_update, get_extreme,
}

-- The criteria that `getExtreme` goes over.
abbrev pub criteria_keys : List String
criteria_keys = "pods" ∷ "cpu" ∷ "memory" ∷ "power" ∷ []

module _ (R : Float) where
  open R use {F, lt}

  -- `x` is no worse a candidate than `y`: smaller is better for the ideal of a cost criterion and
  -- for the negative ideal of a benefit, greater is better for the others.
  abbrev pub NotWorse : Bool → Bool → F → F → Type 0
  NotWorse true true x y = lt y x ≡ false
  NotWorse true false x y = lt x y ≡ false
  NotWorse false true x y = lt x y ≡ false
  NotWorse false false x y = lt y x ≡ false

  abbrev pub pick : Bool → Bool → F → F → F
  pick is_ideal cost v c = if should_update R is_ideal cost v c then v else c

  abbrev pub pick_all : Bool → Bool → List F → F → F
  pick_all b cost [] c = c
  pick_all b cost (v ∷ vs) c = pick_all b cost vs (pick b cost v c)

  -- The value at a key after `getExtreme`.
  abbrev Picks : PowerAware R → NodeVector R → NodeVector R → Bool → String → Type 0
  Picks pl c n b k =
      get_val R (get_extreme R pl c n b) k ≡ pick b (is_cost R pl k) (get_val R n k) (get_val R c k)

  pub get_val-get_extreme :
      (pl : PowerAware R) (c n : NodeVector R) (b : Bool) (k : String)
      → In k criteria_keys
      → Picks pl c n b k
  unfolding get_extreme
  get_val-get_extreme pl c n b k (inl e) = subst (Picks pl c n b) e (ground arith)
  get_val-get_extreme pl c n b k (inr (inl e)) = subst (Picks pl c n b) e (ground arith)
  get_val-get_extreme pl c n b k (inr (inr (inl e))) = subst (Picks pl c n b) e (ground arith)
  get_val-get_extreme pl c n b k (inr (inr (inr (inl e)))) = subst (Picks pl c n b) e (ground arith)
  get_val-get_extreme pl c n b k (inr (inr (inr (inr h)))) = absurd h

  module _ (IsNumber : F → Type 0) (order : IsOrdered R IsNumber) where
    -- The pick is one of the two.
    pick-IsNumber : (b cost : Bool) (v c : F) → IsNumber v → IsNumber c → IsNumber (pick b cost v c)
    pick-IsNumber b cost v c h g = elim (Bool-cases (should_update R b cost v c)) [
      | inl t ↦ rw t h
      | inr t ↦ rw t g
    ]

    pick-NotWorse_new : (b cost : Bool) (v c : F) → NotWorse b cost (pick b cost v c) v
    unfolding should_update
    pick-NotWorse_new true true v c = ground (arith, order.irreflexive v)
    pick-NotWorse_new true false v c = ground (arith, order.irreflexive v)
    pick-NotWorse_new false true v c = ground (arith, order.irreflexive v)
    pick-NotWorse_new false false v c = ground (arith, order.irreflexive v)

    pick-NotWorse_old : (b cost : Bool) (v c : F) → NotWorse b cost (pick b cost v c) c
    unfolding should_update
    pick-NotWorse_old true true v c = ground (arith, order.irreflexive c, order.asymmetric v c)
    pick-NotWorse_old true false v c = ground (arith, order.irreflexive c, order.asymmetric c v)
    pick-NotWorse_old false true v c = ground (arith, order.irreflexive c, order.asymmetric c v)
    pick-NotWorse_old false false v c = ground (arith, order.irreflexive c, order.asymmetric v c)

    NotWorse-trans :
        (b cost : Bool) (x y z : F)
        → IsNumber y
        → NotWorse b cost x y
        → NotWorse b cost y z
        → NotWorse b cost x z
    NotWorse-trans true true x y z n h g = order.negatively_transitive z y x n g h
    NotWorse-trans true false x y z n h g = order.negatively_transitive x y z n h g
    NotWorse-trans false true x y z n h g = order.negatively_transitive x y z n h g
    NotWorse-trans false false x y z n h g = order.negatively_transitive z y x n g h

    NotWorse-refl : (b cost : Bool) (x : F) → NotWorse b cost x x
    NotWorse-refl true true x = order.irreflexive x
    NotWorse-refl true false x = order.irreflexive x
    NotWorse-refl false true x = order.irreflexive x
    NotWorse-refl false false x = order.irreflexive x

    pub pick_all-NotWorse_start :
        (b cost : Bool) (vs : List F) (c : F)
        → All IsNumber vs
        → IsNumber c
        → NotWorse b cost (pick_all b cost vs c) c
    pick_all-NotWorse_start b cost [] c h n = NotWorse-refl b cost c
    pick_all-NotWorse_start b cost (v ∷ vs) c (first, h) n =
        let between = pick-IsNumber b cost v c first n in
        NotWorse-trans b cost _ (pick b cost v c) c between
          (pick_all-NotWorse_start b cost vs (pick b cost v c) h between)
          (pick-NotWorse_old b cost v c)

    pub pick_all-NotWorse :
        (b cost : Bool) (vs : List F) (c : F)
        → All IsNumber vs
        → IsNumber c
        → All (NotWorse b cost (pick_all b cost vs c)) vs
    pick_all-NotWorse b cost [] c h n = tt
    pick_all-NotWorse b cost (v ∷ vs) c (first, h) n =
        let between = pick-IsNumber b cost v c first n in
        (
          NotWorse-trans b cost _ (pick b cost v c) v between
              (pick_all-NotWorse_start b cost vs (pick b cost v c) h between)
              (pick-NotWorse_new b cost v c),
          pick_all-NotWorse b cost vs (pick b cost v c) h between,
        )

  -- The value that is left is the first or one that was gone over.
  pub pick_all-In : (b cost : Bool) (vs : List F) (c : F) → In (pick_all b cost vs c) (c ∷ vs)
  pick_all-In b cost [] c = inl refl
  pick_all-In b cost (v ∷ vs) c = elim (pick_all-In b cost vs (pick b cost v c)) [
    | inr h ↦ inr (inr h)
    | inl e ↦ elim (Bool-cases (should_update R b cost v c)) [
      | inl t ↦ inr (inl (let same : v ≡ pick b cost v c = rw t in same ∙ e))
      | inr t ↦ inl (let same : c ≡ pick b cost v c = rw t in same ∙ e)
    ]
  ]
