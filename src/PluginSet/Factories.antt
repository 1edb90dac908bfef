-- ===== src/PluginSet/Factories.antt =====
-- `NewRegistry` and `newPluginFactories`: the factories of the wrapped plugins. The registries and
-- the names of the registered plugins are parameters; `A` is a factory of an original plugin and `X`
-- an initializer of extenders.
use semvi_btp.Common.{
  ◌≡◌, refl, ap, sym, ◌∙◌, String, true, ◌||◌, Option, none, some, List, [], ◌∷◌, inl, inr, In, All,
  Try, ok, err, ◌==◌, eq_refl, Bool-cases, if◌then◌else◌,
}
use semvi_btp.Common.GoMap.{GoMap, made, get, has, is_some, lookup, insert, lookup-insert}
use mathlib.Core.Bool.{true≢false}
use Prim.Native.String.{◌++◌}
use semvi_btp.WrappedPlugin.Plugin.{plugin_name}
use semvi_btp.PluginSet.Defs.{Plugins, get_score_plugin_weight}
use semvi_btp.ResultStore.{Store, new}

-- A factory in the result: an original one, or the closure that wraps what a factory makes, with the
-- plugin's extender if there is one.
pub data Factory (A X : Type 0) : Type 0 where
  original_factory : A → Factory A X
  wrapping_factory : A → Option X → Factory A X

abbrev pub Factories : Type 0 → Type 0 → Type 0
Factories A X = List (String × Factory A X)

module _ {A X : Type 0} where
  -- The part of the loop's body from the test for an entry that is there.
  abbrev pub add_wrapped : GoMap X → String → A → Factories A X → Factories A X
  add_wrapped extenders name r ret =
      if is_some (lookup (plugin_name name) ret)
      then ret
      else insert (plugin_name name) (wrapping_factory r (get extenders name)) ret

  -- The loop's body, given the in-tree and the out-of-tree registration.
  abbrev pub add_factory :
      GoMap X → String → Option A → Option A → Factories A X → Try String (Factories A X)
  add_factory extenders name (some r) out ret = ok (add_wrapped extenders name r ret)
  add_factory extenders name none (some r) ret =
      ok (add_wrapped extenders name r (insert name (original_factory r) ret))
  add_factory extenders name none none ret = err (("registry for " ++ name) ++ " is not found")

  abbrev pub and_then :
      Try String (Factories A X)
      → (Factories A X → Try String (Factories A X))
      → Try String (Factories A X)
  and_then (ok ret) f = f ret
  and_then (err e) f = err e

  unfoldable pub add_factories :
      GoMap A → GoMap A → GoMap X → List String → Factories A X → Try String (Factories A X)
  add_factories in_tree out_of_tree extenders [] ret = ok ret
  add_factories in_tree out_of_tree extenders (name ∷ names) ret =
      and_then (add_factory extenders name (get in_tree name) (get out_of_tree name) ret)
        (add_factories in_tree out_of_tree extenders names)

  abbrev pub made_of : Try String (Factories A X) → Try String (GoMap (Factory A X))
  made_of (ok ret) = ok (made ret)
  made_of (err e) = err e

  unfoldable pub new_plugin_factories :
      GoMap A → GoMap A → Try String (List String) → GoMap X → Try String (GoMap (Factory A X))
  unfolding add_factories
  new_plugin_factories in_tree out_of_tree (ok names) extenders =
      made_of (add_factories in_tree out_of_tree extenders names [])
  new_plugin_factories in_tree out_of_tree (err e) extenders =
      err ("failed to get registered plugin names: " ++ e)

  abbrev pub registry_of : Try String (GoMap (Factory A X)) → Try String (GoMap (Factory A X))
  registry_of (ok m) = ok m
  registry_of (err e) = err ("New pluginFactories: " ++ e)

  -- The result store that is added to the shared store, on an error too, and the registry.
  unfoldable pub new_registry :
      Plugins
      → GoMap A
      → GoMap A
      → Try String (List String)
      → GoMap X
      → Store × Try String (GoMap (Factory A X))
  unfolding get_score_plugin_weight new new_plugin_factories
  new_registry cfg in_tree out_of_tree names extenders = (
    new (get_score_plugin_weight cfg),
    registry_of (new_plugin_factories in_tree out_of_tree names extenders),
  )

  -- The name has a factory.
  abbrev pub Has : String → Factories A X → Type 0
  Has k ret = is_some (lookup k ret) ≡ true

  Has-insert :
      (k j : String) (f : Factory A X) (ret : Factories A X) → Has k ret → Has k (insert j f ret)
  Has-insert k j f ret h = elim (Bool-cases (j == k)) [
    | inl e ↦ rw (lookup-insert j k f ret) (rw e refl)
    | inr e ↦ rw (lookup-insert j k f ret) (rw e h)
  ]

  Has-insert_self : (k : String) (f : Factory A X) (ret : Factories A X) → Has k (insert k f ret)
  Has-insert_self k f ret = rw (lookup-insert k k f ret) (rw (eq_refl k) refl)

  module _ (extenders : GoMap X) (name : String) where
    Has-add_wrapped :
        (k : String) (r : A) (ret : Factories A X)
        → Has k ret
        → Has k (add_wrapped extenders name r ret)
    Has-add_wrapped k r ret h = elim (Bool-cases (is_some (lookup (plugin_name name) ret))) [
      | inl e ↦ rw e h
      | inr e ↦ rw e (Has-insert k (plugin_name name) _ ret h)
    ]

    Has-add_wrapped_self :
        (r : A) (ret : Factories A X) → Has (plugin_name name) (add_wrapped extenders name r ret)
    Has-add_wrapped_self r ret = elim (Bool-cases (is_some (lookup (plugin_name name) ret))) [
      | inl e ↦ rw e e
      | inr e ↦ rw e (Has-insert_self (plugin_name name) _ ret)
    ]

    -- What the loop's body leaves, where there is a registration.
    add_factory_lem :
        (i o : Option A) (ret : Factories A X)
        → (is_some i || is_some o) ≡ true
        → (next : Factories A X) × (add_factory extenders name i o ret ≡ ok next)
          × Has (plugin_name name) next
          × ((k : String) → Has k ret → Has k next)
    add_factory_lem (some r) o ret h = (
      add_wrapped extenders name r ret,
      refl,
      Has-add_wrapped_self r ret,
      λ k. Has-add_wrapped k r ret,
    )
    add_factory_lem none (some r) ret h =
        let there = insert name (original_factory r) ret in
        (
          add_wrapped extenders name r there,
          refl,
          Has-add_wrapped_self r there,
          λ k g. Has-add_wrapped k r there (Has-insert k name _ ret g),
        )
    add_factory_lem none none ret h = absurd (true≢false (sym h))

  module _ (in_tree out_of_tree : GoMap A) (extenders : GoMap X) where
    -- Every name has a registry, in the tree or out of it.
    abbrev pub Registered : List String → Type 0
    Registered names = All (λ n. (has in_tree n || has out_of_tree n) ≡ true) names

    add_factories_lem :
        (names : List String) (ret : Factories A X)
        → Registered names
        → (m : Factories A X) × (add_factories in_tree out_of_tree extenders names ret ≡ ok m)
          × ((k : String) → Has k ret → Has k m)
          × ((n : String) → In n names → Has (plugin_name n) m)
    unfolding add_factories
    add_factories_lem [] ret h = (ret, refl, λ k g. g, λ n g. absurd g)
    add_factories_lem (name ∷ names) ret h =
        let (next, e, own, keep) =
          add_factory_lem extenders name (get in_tree name) (get out_of_tree name) ret h.0 in
        let (m, e', keep', all) = add_factories_lem names next h.1 in
        (
          m,
          ap (λ x. and_then x (add_factories in_tree out_of_tree extenders names)) e ∙ e',
          λ k g. keep' k (keep k g),
          λ n g. elim g [
            | inl same ↦
                keep' (plugin_name n)
                  (ap (λ x. is_some (lookup (plugin_name x) next)) (sym same) ∙ own)
            | inr later ↦ all n later
          ],
        )

    -- If every registered plugin has a registry, in the tree or out of it, newPluginFactories
    -- succeeds, and every plugin has a factory under the wrapped plugin's name.
    pub new_plugin_factories-Registered :
        (names : List String)
        → Registered names
        → (m : Factories A X) × (new_plugin_factories in_tree out_of_tree (ok names) extenders
            ≡ ok (made m))
          × ((n : String) → In n names → Has (plugin_name n) m)
    unfolding new_plugin_factories
    new_plugin_factories-Registered names h =
        let (m, e, keep, all) = add_factories_lem names [] h in (m, ap made_of e, all)
