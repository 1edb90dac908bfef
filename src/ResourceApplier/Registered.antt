-- ===== src/ResourceApplier/Registered.antt =====
-- Which functions are registered for a resource: the mandatory ones first, then those of the options.
use semvi_btp.Common.{
  ◌≡◌, refl, ap, sym, ◌∙◌, subst, Bool, true, false, Option, none, some, List, [], ◌∷◌, ◌++◌, ◌==◌,
  eq_iff, eq_refl, if◌then◌else◌, Bool-cases, inl, inr, arith, ◌&&◌,
}
use mathlib.Core.List.{append_assoc, append-nil}
use semvi_btp.Common.Kubernetes.{GroupVersionResource}
use semvi_btp.ResourceApplier.Functions.{
  same_resource, FunctionMap, FilteringFunction, MutatingFunction, functions_at, put_functions,
  or_empty, add_functions, add_all, pass_all, filter_with, mutate_all, mutate_with,
}

and_split : (a b : Bool) → (a && b) ≡ true → (a ≡ true) × (b ≡ true)
and_split a b h = ground arith

same_resource_refl : (a : GroupVersionResource) → same_resource a a ≡ true
same_resource_refl a = rw (eq_refl a.group, eq_refl a.version, eq_refl a.resource) refl

same_resource-eq : (a b : GroupVersionResource) → same_resource a b ≡ true → a ≡ b
same_resource-eq a b h =
    let (rest, same_name) =
      and_split ((a.group == b.group) && (a.version == b.version)) (a.resource == b.resource) h in
    let (same_group, same_version) = and_split (a.group == b.group) (a.version == b.version) rest in
    let g = (eq_iff a.group b.group).0 same_group in
    let v = (eq_iff a.version b.version).0 same_version in
    let r = (eq_iff a.resource b.resource).0 same_name in
    λ i. record { group = g i; version = v i; resource = r i }

module _ {F : Type 0} where
  -- The functions of the entries for a resource; a Go map has one entry at most.
  unfoldable pub all_at : GroupVersionResource → FunctionMap F → List F
  all_at gvr [] = []
  all_at gvr ((found, fns) ∷ rest) =
      let later = all_at gvr rest in if same_resource found gvr then fns ++ later else later

  functions_at-put :
      (a b : GroupVersionResource) (fns : List F) (m : FunctionMap F)
      → functions_at b (put_functions a fns m)
        ≡ (if same_resource a b then some fns else functions_at b m)
  unfolding functions_at put_functions
  functions_at-put a b fns [] = refl
  functions_at-put a b fns ((found, held) ∷ m) = elim (Bool-cases (same_resource found a)) [
    | inl e ↦
        subst
          (λ x.
            functions_at b
              (if same_resource x a then (a, fns) ∷ m else (x, held) ∷ put_functions a fns m)
            ≡ (if same_resource a b
                then some fns
                else if same_resource x b
                then some held
                else functions_at b m))
          (sym (same_resource-eq found a e))
          (rw (same_resource_refl a) (if_twice (same_resource a b)))
    | inr e ↦ rw (e, functions_at-put a b fns m) (swapped e (same_resource a b) refl)
  ]
    where
      if_twice :
          (t : Bool)
          → (if t then some fns else functions_at b m)
            ≡ (if t then some fns else if t then some held else functions_at b m)
      if_twice true = refl
      if_twice false = refl

      swapped :
          same_resource found a ≡ false
          → (t : Bool) → same_resource a b ≡ t
          → (if same_resource found b then some held else if t then some fns else functions_at b m)
            ≡ (if t
                then some fns
                else if same_resource found b
                then some held
                else functions_at b m)
      swapped e false h = refl
      swapped e true h =
          rw (subst (λ x. same_resource found x ≡ false) (same_resource-eq a b h) e) refl

  functions_at-add :
      (a b : GroupVersionResource) (fns : List F) (m : FunctionMap F)
      → or_empty (functions_at b (add_functions a fns m))
        ≡ or_empty (functions_at b m) ++ (if same_resource a b then fns else [])
  unfolding add_functions
  functions_at-add a b fns m =
      ap or_empty (functions_at-put a b (or_empty (functions_at a m) ++ fns) m)
      ∙ picked (same_resource a b) refl
    where
      picked :
          (t : Bool)
          → same_resource a b ≡ t
          → or_empty (if t then some (or_empty (functions_at a m) ++ fns) else functions_at b m)
            ≡ or_empty (functions_at b m) ++ (if t then fns else [])
      picked true h = ap (λ x. or_empty (functions_at x m) ++ fns) (same_resource-eq a b h)
      picked false h = sym (append-nil (or_empty (functions_at b m)))

  -- A loop of `New` registers the functions of the map after those that are there.
  pub functions_at-add_all :
      (gvr : GroupVersionResource) (given m : FunctionMap F)
      → or_empty (functions_at gvr (add_all given m))
        ≡ or_empty (functions_at gvr m) ++ all_at gvr given
  unfolding add_all all_at
  functions_at-add_all gvr [] m = sym (append-nil (or_empty (functions_at gvr m)))
  functions_at-add_all gvr ((found, fns) ∷ rest) m =
      functions_at-add_all gvr rest (add_functions found fns m)
      ∙ ap (λ x. x ++ all_at gvr rest) (functions_at-add found gvr fns m)
      ∙ append_assoc (or_empty (functions_at gvr m)) (if same_resource found gvr then fns else [])
          (all_at gvr rest)
      ∙ ap (λ x. or_empty (functions_at gvr m) ++ x) (distributed (same_resource found gvr))
    where
      distributed :
          (t : Bool)
          → (if t then fns else []) ++ all_at gvr rest
            ≡ (if t then fns ++ all_at gvr rest else all_at gvr rest)
      distributed true = refl
      distributed false = refl

module _ {W O E : Type 0} where
  -- No entry and an entry without functions are the same.
  pub filter_with-or_empty :
      (fns : Option (List (FilteringFunction W O E))) → filter_with fns ≡ pass_all (or_empty fns)
  unfolding pass_all
  filter_with-or_empty none = refl
  filter_with-or_empty (some fns) = refl

  pub mutate_with-or_empty :
      (fns : Option (List (MutatingFunction W O E))) → mutate_with fns ≡ mutate_all (or_empty fns)
  unfolding mutate_all
  mutate_with-or_empty none = refl
  mutate_with-or_empty (some fns) = refl
