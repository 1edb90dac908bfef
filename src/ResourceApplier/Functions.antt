-- ===== src/ResourceApplier/Functions.antt =====
-- The functions that are registered for a resource: maps from a GroupVersionResource to functions.
use semvi_btp.Common.{
  Bool, true, false, ◌&&◌, Option, none, some, List, [], ◌∷◌, ◌++◌, ◌==◌, if◌then◌else◌,
}
use semvi_btp.Common.Kubernetes.{GroupVersionResource}
use semvi_btp.ResourceApplier.Library.{Act, done, ◌>>=◌}

abbrev pub same_resource : GroupVersionResource → GroupVersionResource → Bool
same_resource a b = (a.group == b.group) && (a.version == b.version) && (a.resource == b.resource)

abbrev pub FunctionMap : Type 0 → Type 0
FunctionMap F = List (GroupVersionResource × List F)

module _ {F : Type 0} where
  unfoldable pub functions_at : GroupVersionResource → FunctionMap F → Option (List F)
  functions_at gvr [] = none
  functions_at gvr ((found, fns) ∷ rest) =
      let later = functions_at gvr rest in if same_resource found gvr then some fns else later

  unfoldable pub put_functions : GroupVersionResource → List F → FunctionMap F → FunctionMap F
  put_functions gvr fns [] = (gvr, fns) ∷ []
  put_functions gvr fns ((found, held) ∷ rest) =
      let later = put_functions gvr fns rest in
      if same_resource found gvr then (gvr, fns) ∷ rest else (found, held) ∷ later

  abbrev pub or_empty : Option (List F) → List F
  or_empty none = []
  or_empty (some fns) = fns

  -- addFilterBeforeCreating and the three functions like it.
  unfoldable pub add_functions : GroupVersionResource → List F → FunctionMap F → FunctionMap F
  unfolding functions_at put_functions
  add_functions gvr fns m = put_functions gvr (or_empty (functions_at gvr m) ++ fns) m

  -- A loop of New over a map of functions.
  unfoldable pub add_all : FunctionMap F → FunctionMap F → FunctionMap F
  unfolding add_functions
  add_all [] m = m
  add_all ((gvr, fns) ∷ rest) m = add_all rest (add_functions gvr fns m)

abbrev pub FilteringFunction : Type 0 → Type 0 → Type 0 → Type 0
FilteringFunction W O E = O → Act W E Bool

abbrev pub MutatingFunction : Type 0 → Type 0 → Type 0 → Type 0
MutatingFunction W O E = O → Act W E O

module _ {W O E : Type 0} where
  -- The loop of filterResourceForCreating and filterResourceForUpdating.
  unfoldable pub pass_all : List (FilteringFunction W O E) → O → Act W E Bool
  pass_all [] resource = done true
  pass_all (fn ∷ fns) resource =
      fn resource >>= (λ passed. if passed then pass_all fns resource else done false)

  -- The loop of mutateResourceForCreating and mutateResourceForUpdating.
  unfoldable pub mutate_all : List (MutatingFunction W O E) → O → Act W E O
  mutate_all [] resource = done resource
  mutate_all (fn ∷ fns) resource = fn resource >>= mutate_all fns

  abbrev pub filter_with : Option (List (FilteringFunction W O E)) → O → Act W E Bool
  filter_with none resource = done true
  filter_with (some fns) resource = pass_all fns resource

  abbrev pub mutate_with : Option (List (MutatingFunction W O E)) → O → Act W E O
  mutate_with none resource = done resource
  mutate_with (some fns) resource = mutate_all fns resource
