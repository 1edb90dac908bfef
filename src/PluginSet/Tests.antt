-- ===== src/PluginSet/Tests.antt =====
-- Sample plugin sets.
use semvi_btp.Common.{List, ℕ, ok, ◌≡◌, ◌≢◌, refl, String, true, some, [], ◌∷◌, ◌⊎◌, inl, In}
use semvi_btp.Common.GoMap.{GoMap, made, get, lookup, insert}
use semvi_btp.Common.Int.{ℤ, pos}
use Prim.Native.String.{◌++◌}
use semvi_btp.PluginSet.Trim.{trim_suffix, trim_suffix-append}
use semvi_btp.PluginSet.Defs.{
  Plugin, PluginSet, Plugins, merge_plugin_set, no_plugins, convert_with, get_score_plugin_weight,
  has_name, add_weights, merge_defaults, index_plugins, not_replaced, has_index,
}
use semvi_btp.PluginSet.Merge.{disabled_names, IsDefault, In-merge_plugin_set}
use semvi_btp.PluginSet.Weights.{
  or_else, last_weight, get-get_score_plugin_weight, get_score_plugin_weight-nonzero,
}
use semvi_btp.PluginSet.Converted.{named_weight, get_score_plugin_weight-convert_with}
use semvi_btp.WrappedPlugin.Plugin.{plugin_name}
use semvi_btp.PluginSet.Factories.{
  Factories, Has, Registered, new_plugin_factories, new_plugin_factories-Registered,
}

abbrev plugin : String → ℤ → Plugin
plugin n w = record { name = n; weight = w }

abbrev in_tree : PluginSet
in_tree = record {
  enabled =
      plugin "NodeName" (pos 0)
      ∷ plugin "NodeResourcesFit" (pos 1)
      ∷ plugin "ImageLocality" (pos 1)
      ∷ [];
  disabled = [];
}

abbrev custom : PluginSet
custom = record {
  enabled = plugin "PowerAware" (pos 5) ∷ plugin "NodeResourcesFit" (pos 3) ∷ [];
  disabled = plugin "ImageLocality" (pos 0) ∷ [];
}

abbrev all_disabled : PluginSet
all_disabled = record custom { disabled = plugin "*" (pos 0) ∷ [] }

abbrev sample : Plugins
sample = record {
  pre_filter = no_plugins;
  filter = no_plugins;
  post_filter = no_plugins;
  pre_score = no_plugins;
  score = record {
    enabled = plugin "PowerAware" (pos 7) ∷ plugin "Other" (pos 0) ∷ [];
    disabled = [];
  };
  reserve = no_plugins;
  permit = no_plugins;
  pre_bind = no_plugins;
  bind = no_plugins;
  post_bind = no_plugins;
  multi_point = custom;
}

merge_runs :
    (merge_plugin_set in_tree custom).enabled
    ≡ plugin "NodeName" (pos 0)
      ∷ plugin "NodeResourcesFit" (pos 3)
      ∷ plugin "PowerAware" (pos 5)
      ∷ []
unfolding merge_plugin_set merge_defaults index_plugins not_replaced has_index has_name lookup
    insert
merge_runs = refl

enabled_here : In (plugin "NodeName" (pos 0)) (merge_plugin_set in_tree custom).enabled
unfolding merge_plugin_set merge_defaults index_plugins not_replaced has_index has_name lookup
    insert
enabled_here = inl refl

In-merge_plugin_set_example :
    In (plugin "NodeName" (pos 0)) custom.enabled
    ⊎ IsDefault in_tree custom (plugin "NodeName" (pos 0))
In-merge_plugin_set_example =
    In-merge_plugin_set in_tree custom (plugin "NodeName" (pos 0)) enabled_here

star_disabled : has_name "*" (disabled_names in_tree all_disabled) ≡ true
unfolding has_name
star_disabled = refl

get-get_score_plugin_weight_example :
    get (get_score_plugin_weight sample) "PowerAware"
    ≡ or_else
        (last_weight custom.enabled "PowerAware")
        (last_weight sample.score.enabled "PowerAware")
get-get_score_plugin_weight_example = get-get_score_plugin_weight sample "PowerAware"

other_weight : get (get_score_plugin_weight sample) "Other" ≡ some (pos 1)
unfolding get_score_plugin_weight add_weights lookup insert trim_suffix
other_weight = refl

get_score_plugin_weight-nonzero_example : pos 1 ≢ pos 0
get_score_plugin_weight-nonzero_example =
    get_score_plugin_weight-nonzero sample "Other" (pos 1) other_weight

get_score_plugin_weight-convert_with_example :
    get (get_score_plugin_weight (convert_with sample in_tree)) "PowerAware"
    ≡ or_else
        (named_weight (merge_plugin_set in_tree custom).enabled "PowerAware")
        (named_weight sample.score.enabled "PowerAware")
get_score_plugin_weight-convert_with_example =
    get_score_plugin_weight-convert_with sample in_tree "PowerAware"

trim_suffix-append_example : trim_suffix ("PowerAware" ++ "Wrapped") "Wrapped" ≡ "PowerAware"
trim_suffix-append_example = trim_suffix-append "PowerAware" "Wrapped"

abbrev in_tree_registry : GoMap ℕ
in_tree_registry = made (("NodeName", 1) ∷ [])

abbrev out_of_tree_registry : GoMap ℕ
out_of_tree_registry = made (("PowerAware", 2) ∷ [])

abbrev no_extender : GoMap ℕ
no_extender = made []

abbrev registered_names : List String
registered_names = "NodeName" ∷ "PowerAware" ∷ []

names-Registered : Registered in_tree_registry out_of_tree_registry no_extender registered_names
unfolding lookup
names-Registered = (refl, (refl, tt))

new_plugin_factories-Registered_example :
    (m : Factories ℕ ℕ) × (new_plugin_factories in_tree_registry out_of_tree_registry
        (ok registered_names)
        no_extender
      ≡ ok (made m))
    × ((n : String) → In n registered_names → Has (plugin_name n) m)
new_plugin_factories-Registered_example =
    new_plugin_factories-Registered in_tree_registry out_of_tree_registry no_extender
      registered_names names-Registered
