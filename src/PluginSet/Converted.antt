-- ===== src/PluginSet/Converted.antt =====
-- The configuration that `ConvertForSimulator` makes, and the weights read from it.
use semvi_btp.Common.{
  ◌≡◌, refl, ap, ◌∙◌, String, Option, none, some, List, [], ◌∷◌, map, ◌==◌, if◌then◌else◌,
}
use semvi_btp.Common.GoMap.{get}
use semvi_btp.Common.Int.{ℤ}
use semvi_btp.WrappedPlugin.Plugin.{plugin_suffix}
use semvi_btp.PluginSet.Trim.{trim_suffix-append}
use semvi_btp.PluginSet.Defs.{
  Plugin, PluginSet, Plugins, merge_plugin_set, apply_plugin_set, wrap_enabled, no_plugins,
  convert_with, get_score_plugin_weight, or_one, disable_all_plugin_set,
}
use semvi_btp.PluginSet.Merge.{merge_plugin_set-no_plugins}
use semvi_btp.PluginSet.Weights.{or_else, last_weight, get-get_score_plugin_weight}

-- The weight of the last plugin of the name.
abbrev pub named_weight : List Plugin → String → Option ℤ
named_weight [] n = none
named_weight (p ∷ ps) n =
    or_else (named_weight ps n) (if p.name == n then some (or_one p.weight) else none)

last_weight-wrapped :
    (ps : List Plugin) (n : String) → last_weight (map wrap_enabled ps) n ≡ named_weight ps n
last_weight-wrapped [] n = refl
last_weight-wrapped (p ∷ ps) n =
    ap
      (λ x.
        or_else (last_weight (map wrap_enabled ps) n)
          (if x == n then some (or_one p.weight) else none))
      (trim_suffix-append p.name plugin_suffix)
    ∙ ap (λ x. or_else x (if p.name == n then some (or_one p.weight) else none))
        (last_weight-wrapped ps n)

enabled-apply_plugin_set :
    (set in_tree : PluginSet)
    → (apply_plugin_set set in_tree).enabled
      ≡ map wrap_enabled (merge_plugin_set in_tree set).enabled
unfolding apply_plugin_set
enabled-apply_plugin_set set in_tree = refl

enabled-no_plugins :
    (set : PluginSet) → (apply_plugin_set set no_plugins).enabled ≡ map wrap_enabled set.enabled
enabled-no_plugins set =
    enabled-apply_plugin_set set no_plugins
    ∙ ap (λ s. map wrap_enabled s.enabled) (merge_plugin_set-no_plugins set)

-- The weights read from a converted configuration are those of the plugins' own names: the last
-- entry among the merged MultiPoint plugins, and else the last among the Score plugins.
pub get_score_plugin_weight-convert_with :
    (pls : Plugins) (in_tree : PluginSet) (n : String)
    → get (get_score_plugin_weight (convert_with pls in_tree)) n
      ≡ or_else
          (named_weight (merge_plugin_set in_tree pls.multi_point).enabled n)
          (named_weight pls.score.enabled n)
unfolding convert_with disable_all_plugin_set
get_score_plugin_weight-convert_with pls in_tree n =
    get-get_score_plugin_weight (convert_with pls in_tree) n
    ∙ ap
        (λ x.
          or_else (last_weight x n) (last_weight (apply_plugin_set pls.score no_plugins).enabled n))
        (enabled-apply_plugin_set pls.multi_point in_tree)
    ∙ ap
        (λ x.
          or_else
            (last_weight (map wrap_enabled (merge_plugin_set in_tree pls.multi_point).enabled) n)
            (last_weight x n))
        (enabled-no_plugins pls.score)
    ∙ ap (λ x. or_else x (last_weight (map wrap_enabled pls.score.enabled) n))
        (last_weight-wrapped (merge_plugin_set in_tree pls.multi_point).enabled n)
    ∙ ap (or_else (named_weight (merge_plugin_set in_tree pls.multi_point).enabled n))
        (last_weight-wrapped pls.score.enabled n)
