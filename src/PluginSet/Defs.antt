-- ===== src/PluginSet/Defs.antt =====
-- `ConvertForSimulator`, the merge of plugin sets and the weights of the score plugins.
use semvi_btp.Common.{
  ℕ, suc, String, Bool, true, false, Option, none, some, List, [], ◌∷◌, ◌++◌, map, ◌==◌, Try, ok,
  err, eqb, if◌then◌else◌,
}
use semvi_btp.Common.Errors.{GoError, raised, wrapped}
use semvi_btp.Common.GoMap.{GoMap, made, lookup, insert}
use semvi_btp.Common.Int.{ℤ, pos, negsuc}
use semvi_btp.WrappedPlugin.Plugin.{plugin_name, plugin_suffix}
use semvi_btp.PluginSet.Trim.{trim_suffix}

-- configv1.Plugin, configv1.PluginSet, and the sets of configv1.Plugins that the conversion touches
pub record Plugin : Type 0 where
  pub name : String
  pub weight : ℤ

pub record PluginSet : Type 0 where
  pub enabled : List Plugin
  pub disabled : List Plugin

pub record Plugins : Type 0 where
  pub pre_filter : PluginSet
  pub filter : PluginSet
  pub post_filter : PluginSet
  pub pre_score : PluginSet
  pub score : PluginSet
  pub reserve : PluginSet
  pub permit : PluginSet
  pub pre_bind : PluginSet
  pub bind : PluginSet
  pub post_bind : PluginSet
  pub multi_point : PluginSet

-- sets.Set[string].Has, of a list of insertions
unfoldable pub has_name : String → List String → Bool
has_name n [] = false
has_name n (m ∷ ms) = let rest = has_name n ms in if m == n then true else rest

-- sets.Int.Has
unfoldable pub has_index : ℕ → List ℕ → Bool
has_index n [] = false
has_index n (m ∷ ms) = let rest = has_index n ms in if eqb m n then true else rest

abbrev pub name_of : Plugin → String
name_of p = p.name

-- pluginIndex
abbrev pub PluginIndex : Type 0
PluginIndex = ℕ × Plugin

abbrev pub disabled_plugin : Plugin → Plugin
disabled_plugin p = record { name = p.name; weight = pos 0 }

-- enabledCustomPlugins: the last index and plugin of each name, from index `i` on
unfoldable pub index_plugins :
    ℕ → List Plugin → List (String × PluginIndex) → List (String × PluginIndex)
index_plugins i [] m = m
index_plugins i (p ∷ ps) m = index_plugins (suc i) ps (insert p.name (i, p) m)

abbrev pub replaced_by : Plugin → Option PluginIndex → List Plugin × List ℕ → List Plugin × List ℕ
replaced_by p none (plugins, replaced) = (p ∷ plugins, replaced)
replaced_by p (some (i, q)) (plugins, replaced) = (q ∷ plugins, i ∷ replaced)

-- The loop over the default enabled plugins: the plugins to enable and the replaced indices.
unfoldable pub merge_defaults :
    List String → List (String × PluginIndex) → List Plugin → List Plugin × List ℕ
merge_defaults disabled custom [] = ([], [])
merge_defaults disabled custom (p ∷ ps) =
    let rest = merge_defaults disabled custom ps in
    if has_name p.name disabled then rest else replaced_by p (lookup p.name custom) rest

-- The custom plugins, from index `i` on, that have not replaced a default one.
unfoldable pub not_replaced : ℕ → List ℕ → List Plugin → List Plugin
not_replaced i replaced [] = []
not_replaced i replaced (p ∷ ps) =
    let rest = not_replaced (suc i) replaced ps in if has_index i replaced then rest else p ∷ rest

-- The default enabled plugins, unless "*" is disabled.
abbrev pub defaults_merged :
    List String → List (String × PluginIndex) → List Plugin → List Plugin × List ℕ
defaults_merged disabled custom plugins =
    if has_name "*" disabled then ([], []) else merge_defaults disabled custom plugins

unfoldable pub merge_plugin_set : PluginSet → PluginSet → PluginSet
merge_plugin_set default_set custom_set =
    let disabled = map disabled_plugin (custom_set.disabled ++ default_set.disabled) in
    let (plugins, replaced) =
      defaults_merged (map name_of disabled) (index_plugins 0 custom_set.enabled [])
        default_set.enabled in
    record { enabled = plugins ++ not_replaced 0 replaced custom_set.enabled; disabled = disabled }

abbrev pub wrap_enabled : Plugin → Plugin
wrap_enabled p = record { name = plugin_name p.name; weight = p.weight }

-- A disabled "*" keeps its name.
abbrev pub wrap_disabled : Plugin → Plugin
wrap_disabled p = record {
  name = if p.name == "*" then p.name else plugin_name p.name;
  weight = p.weight;
}

-- The set that `applyPluginSet` writes to its target: both fields of the target are replaced.
unfoldable pub apply_plugin_set : PluginSet → PluginSet → PluginSet
apply_plugin_set set in_tree =
    let merged = merge_plugin_set in_tree set in
    record {
      enabled = map wrap_enabled merged.enabled;
      disabled = map wrap_disabled merged.disabled;
    }

unfoldable pub disable_all_plugin_set : PluginSet → PluginSet
disable_all_plugin_set set = record set { disabled = record { name = "*"; weight = pos 0 } ∷ [] }

abbrev pub no_plugins : PluginSet
no_plugins = record { enabled = []; disabled = [] }

-- The converted sets, given those of InTreeMultiPointPluginSet.
unfoldable pub convert_with : Plugins → PluginSet → Plugins
convert_with pls in_tree = record {
  pre_filter = apply_plugin_set pls.pre_filter no_plugins;
  filter = apply_plugin_set pls.filter no_plugins;
  post_filter = apply_plugin_set pls.post_filter no_plugins;
  pre_score = apply_plugin_set pls.pre_score no_plugins;
  score = apply_plugin_set pls.score no_plugins;
  reserve = apply_plugin_set pls.reserve no_plugins;
  permit = apply_plugin_set pls.permit no_plugins;
  pre_bind = apply_plugin_set pls.pre_bind no_plugins;
  bind = apply_plugin_set pls.bind no_plugins;
  post_bind = apply_plugin_set pls.post_bind no_plugins;
  multi_point = disable_all_plugin_set (apply_plugin_set pls.multi_point in_tree);
}

unfoldable pub convert_for_simulator :
    {E : Type 0} → Try E PluginSet → Plugins → Try (GoError E) Plugins
convert_for_simulator (ok in_tree) pls = ok (convert_with pls in_tree)
convert_for_simulator (err e) pls = err (wrapped "get in tree multi point plugins" (raised e))

-- A weight of zero counts as one.
abbrev pub or_one : ℤ → ℤ
or_one (pos n) = if eqb n 0 then pos 1 else pos n
or_one (negsuc n) = negsuc n

-- The loop of `getScorePluginWeight`.
unfoldable pub add_weights : List Plugin → List (String × ℤ) → List (String × ℤ)
unfolding trim_suffix
add_weights [] m = m
add_weights (p ∷ ps) m =
    add_weights ps (insert (trim_suffix p.name plugin_suffix) (or_one p.weight) m)

-- The plugins of the first profile.
unfoldable pub get_score_plugin_weight : Plugins → GoMap ℤ
get_score_plugin_weight pls = made (add_weights (pls.score.enabled ++ pls.multi_point.enabled) [])
