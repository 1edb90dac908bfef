-- ===== src/PluginSet/Merge.antt =====
-- What a merge of plugin sets enables.
use semvi_btp.Common.{
  ◌≡◌, refl, ap, sym, subst, ◌∙◌, ℕ, suc, String, true, false, List, [], ◌∷◌, ◌++◌, map, ◌⊎◌, inl,
  inr, Bool-cases, Option-cases, In,
}
use semvi_btp.Common.GoMap.{lookup, Values, Values-insert, Values-lookup}
use semvi_btp.PluginSet.Defs.{
  Plugin, PluginSet, PluginIndex, has_name, name_of, disabled_plugin, index_plugins, merge_defaults,
  defaults_merged, not_replaced, merge_plugin_set, no_plugins, has_index,
}

-- The names that a merge disables.
abbrev pub disabled_names : PluginSet → PluginSet → List String
disabled_names default_set custom_set =
    map name_of (map disabled_plugin (custom_set.disabled ++ default_set.disabled))

-- A plugin of the defaults that nothing disables.
abbrev pub IsDefault : PluginSet → PluginSet → Plugin → Type 0
IsDefault default_set custom_set p =
    In p default_set.enabled
    × (has_name p.name (disabled_names default_set custom_set) ≡ false)
    × (has_name "*" (disabled_names default_set custom_set) ≡ false)

In-append : {A : Type 0} (a : A) (xs ys : List A) → In a (xs ++ ys) → In a xs ⊎ In a ys
In-append a [] ys h = inr h
In-append a (x ∷ xs) ys (inl e) = inl (inl e)
In-append a (x ∷ xs) ys (inr h) = elim (In-append a xs ys h) [ inl g ↦ inl (inr g) | inr g ↦ inr g ]

In-not_replaced :
    (p : Plugin) (i : ℕ) (replaced : List ℕ) (ps : List Plugin)
    → In p (not_replaced i replaced ps)
    → In p ps
unfolding not_replaced
In-not_replaced p i replaced [] h = h
In-not_replaced p i replaced (q ∷ ps) h = elim (Bool-cases (has_index i replaced)) [
  | inl e ↦ inr (In-not_replaced p (suc i) replaced ps (rw e at h))
  | inr e ↦ elim (rw e at h) [
    | inl g ↦ inl g
    | inr g ↦ inr (In-not_replaced p (suc i) replaced ps g)
  ]
]

-- The indexed plugins stand in the list that was indexed.
index_plugins-In :
    (all ps : List Plugin) (i : ℕ) (m : List (String × PluginIndex))
    → ((p : Plugin) → In p ps → In p all)
    → Values (λ v. In v.1 all) m
    → Values (λ v. In v.1 all) (index_plugins i ps m)
unfolding index_plugins
index_plugins-In all [] i m h g = g
index_plugins-In all (p ∷ ps) i m h g =
    index_plugins-In all ps (suc i) _ (λ q k. h q (inr k))
      (Values-insert (λ v. In v.1 all) p.name (i, p) m (h p (inl refl)) g)

In-merge_defaults :
    (p : Plugin) (all : List Plugin) (disabled : List String) (custom : List (String × PluginIndex))
    (ps : List Plugin)
    → Values (λ v. In v.1 all) custom
    → In p (merge_defaults disabled custom ps).0
    → In p all ⊎ (In p ps × (has_name p.name disabled ≡ false))
unfolding merge_defaults
In-merge_defaults p all disabled custom [] h g = absurd g
In-merge_defaults p all disabled custom (q ∷ ps) h g =
    let later : In p (merge_defaults disabled custom ps).0
        → In p all ⊎ (In p (q ∷ ps) × (has_name p.name disabled ≡ false)) =
      λ k. elim (In-merge_defaults p all disabled custom ps h k) [
        | inl a ↦ inl a
        | inr (a, b) ↦ inr (inr a, b)
      ] in
    elim (Bool-cases (has_name q.name disabled)) [
      | inl e ↦ later (rw e at g)
      | inr e ↦ elim (Option-cases (lookup {V = PluginIndex} q.name custom)) [
        | inl n ↦ elim (rw (e, n) at g) [
          | inl same ↦ inr (inl same, ap (λ r. has_name r.name disabled) (sym same) ∙ e)
          | inr k ↦ later k
        ]
        | inr ((i, r), f) ↦ elim (rw (e, f) at g) [
          | inl same ↦
              inl (subst (λ x. In x all) same (Values-lookup (λ v. In v.1 all) q.name custom h f))
          | inr k ↦ later k
        ]
      ]
    ]

not_replaced_none : (i : ℕ) (ps : List Plugin) → not_replaced i [] ps ≡ ps
unfolding not_replaced has_index
not_replaced_none i [] = refl
not_replaced_none i (p ∷ ps) = ap (λ l. p ∷ l) (not_replaced_none (suc i) ps)

-- A merge enables nothing but the custom set's plugins and those default plugins whose name neither
-- set disables, where neither disables "*".
pub In-merge_plugin_set :
    (default_set custom_set : PluginSet) (p : Plugin)
    → In p (merge_plugin_set default_set custom_set).enabled
    → In p custom_set.enabled ⊎ IsDefault default_set custom_set p
unfolding merge_plugin_set
In-merge_plugin_set default_set custom_set p h =
    let disabled = disabled_names default_set custom_set in
    let custom = index_plugins 0 custom_set.enabled [] in
    let merged = defaults_merged disabled custom default_set.enabled in
    elim (In-append p merged.0 (not_replaced 0 merged.1 custom_set.enabled) h) [
      | inr g ↦ inl (In-not_replaced p 0 merged.1 custom_set.enabled g)
      | inl g ↦ elim (Bool-cases (has_name "*" disabled)) [
        | inl e ↦ absurd (rw e at g)
        | inr e ↦
            elim (In-merge_defaults p custom_set.enabled disabled custom default_set.enabled
              (index_plugins-In custom_set.enabled custom_set.enabled 0 [] (λ q k. k) tt)
              (rw e at g)) [ inl k ↦ inl k | inr (k, f) ↦ inr (k, f, e) ]
      ]
    ]

-- A disabled "*" in either set leaves the custom set's enabled plugins alone, in their order.
merge_plugin_set_all_disabled :
    (default_set custom_set : PluginSet)
    → has_name "*" (disabled_names default_set custom_set) ≡ true
    → (merge_plugin_set default_set custom_set).enabled ≡ custom_set.enabled
unfolding merge_plugin_set
merge_plugin_set_all_disabled default_set custom_set e =
    rw e (not_replaced_none 0 custom_set.enabled)

append_nil : {A : Type 0} (xs : List A) → xs ++ [] ≡ xs
append_nil [] = refl
append_nil (x ∷ xs) = ap (λ l. x ∷ l) (append_nil xs)

-- Merged with no default plugins, a set keeps its enabled plugins and the names that it disables.
pub merge_plugin_set-no_plugins :
    (set : PluginSet)
    → merge_plugin_set no_plugins set
      ≡ record { enabled = set.enabled; disabled = map disabled_plugin set.disabled }
unfolding merge_plugin_set merge_defaults
merge_plugin_set-no_plugins set =
    rw (append_nil set.disabled)
      (elim (Bool-cases (has_name "*" (map name_of (map disabled_plugin set.disabled)))) [
        | inl e ↦ rw (e, not_replaced_none 0 set.enabled) refl
        | inr e ↦ rw (e, not_replaced_none 0 set.enabled) refl
      ])
