-- ===== src/WrappedPlugin/Plugin.antt =====
-- The original plugin, the extenders, and `NewWrappedPlugin`.
use semvi_btp.Common.{String, Bool, Option, none, some, List, [], ◌∷◌, ◌==◌, if◌then◌else◌}
use semvi_btp.Common.Int.{ℤ}
use Prim.Native.String.{◌++◌}
use semvi_btp.WrappedPlugin.Framework.{Framework}
use semvi_btp.WrappedPlugin.Action.{Hook}

-- framework.NodeScoreList
abbrev pub NodeScoreList : Type 0
NodeScoreList = List (String × ℤ)

module _ (K : Framework) (E : Type 0) where
  open K use {
    Pod, NodeInfo, QueuedPodInfo, Status, PreFilterResult, PostFilterResult, NodeToStatusReader,
    PreFilterExtensions, Duration,
  }

  -- A method of the original plugin.
  abbrev pub Method : Type 0 → Type 0
  Method A = E → A × E

  abbrev pub PreFiltered : Type 0
  PreFiltered = Option PreFilterResult × Status

  abbrev pub PostFiltered : Type 0
  PostFiltered = Option PostFilterResult × Status

  -- NormalizeScore writes to the list that it is given.
  abbrev pub Normalized : Type 0
  Normalized = Status × NodeScoreList

  -- framework.ScorePlugin; the extensions may be nil
  pub record ScorePlugin : Type 0 where
    pub score : Pod → String → Method (ℤ × Status)
    pub score_extensions : Option (Pod → NodeScoreList → Method Normalized)

  pub record PreFilterPlugin : Type 0 where
    pub pre_filter : Pod → Method PreFiltered
    pub pre_filter_extensions : PreFilterExtensions

  pub record ReservePlugin : Type 0 where
    pub reserve : Pod → String → Method Status
    pub unreserve : Pod → String → Method (Unit {0})

  -- The interfaces that a framework.Plugin implements; nil where a type assertion fails.
  pub record Originals : Type 0 where
    pub pre_enqueue : Option (Pod → Method Status)
    pub pre_filter : Option PreFilterPlugin
    pub filter : Option (Pod → NodeInfo → Method Status)
    pub pre_score : Option (Pod → List NodeInfo → Method Status)
    pub post_filter : Option (Pod → NodeToStatusReader → Method PostFiltered)
    pub score : Option ScorePlugin
    pub permit : Option (Pod → String → Method (Status × Duration))
    pub reserve : Option ReservePlugin
    pub pre_bind : Option (Pod → String → Method Status)
    pub bind : Option (Pod → String → Method Status)
    pub post_bind : Option (Pod → String → Method (Unit {0}))

  pub record FrameworkPlugin : Type 0 where
    pub name : String
    pub interfaces : Originals
    pub queue_sort : Option (QueuedPodInfo → QueuedPodInfo → Bool)

  pub record PreFilterPluginExtender : Type 0 where
    pub before : Pod → Hook E PreFiltered
    pub after : Pod → PreFiltered → Hook E PreFiltered

  pub record FilterPluginExtender : Type 0 where
    pub before : Pod → NodeInfo → Hook E Status
    pub after : Pod → NodeInfo → Status → Hook E Status

  pub record PostFilterPluginExtender : Type 0 where
    pub before : Pod → NodeToStatusReader → Hook E PostFiltered
    pub after : Pod → NodeToStatusReader → PostFiltered → Hook E PostFiltered

  pub record PreScorePluginExtender : Type 0 where
    pub before : Pod → List NodeInfo → Hook E Status
    pub after : Pod → List NodeInfo → Status → Hook E Status

  pub record ScorePluginExtender : Type 0 where
    pub before : Pod → String → Hook E (ℤ × Status)
    pub after : Pod → String → ℤ × Status → Hook E (ℤ × Status)

  pub record NormalizeScorePluginExtender : Type 0 where
    pub before : Pod → NodeScoreList → Hook E Normalized
    pub after : Pod → Normalized → Hook E Normalized

  pub record PermitPluginExtender : Type 0 where
    pub before : Pod → String → Hook E (Status × Duration)
    pub after : Pod → String → Status × Duration → Hook E (Status × Duration)

  pub record ReservePluginExtender : Type 0 where
    pub before_reserve : Pod → String → Hook E Status
    pub after_reserve : Pod → String → Status → Hook E Status
    pub before_unreserve : Pod → String → Hook E Status
    pub after_unreserve : Pod → String → Hook E (Unit {0})

  -- PreBindPluginExtender and BindPluginExtender
  pub record BindPluginExtender : Type 0 where
    pub before : Pod → String → Hook E Status
    pub after : Pod → String → Status → Hook E Status

  pub record PostBindPluginExtender : Type 0 where
    pub before : Pod → String → Hook E Status
    pub after : Pod → String → Hook E (Unit {0})

  pub record PluginExtenders : Type 0 where
    pub pre_filter : Option PreFilterPluginExtender
    pub filter : Option FilterPluginExtender
    pub post_filter : Option PostFilterPluginExtender
    pub pre_score : Option PreScorePluginExtender
    pub score : Option ScorePluginExtender
    pub normalize_score : Option NormalizeScorePluginExtender
    pub permit : Option PermitPluginExtender
    pub reserve : Option ReservePluginExtender
    pub pre_bind : Option BindPluginExtender
    pub bind : Option BindPluginExtender
    pub post_bind : Option PostBindPluginExtender

  abbrev pub no_extenders : PluginExtenders
  no_extenders = record {
    pre_filter = none;
    filter = none;
    post_filter = none;
    pre_score = none;
    score = none;
    normalize_score = none;
    permit = none;
    reserve = none;
    pre_bind = none;
    bind = none;
    post_bind = none;
  }

  -- Option: WithExtendersOption and WithPluginNameOption
  pub data PluginOption : Type 0 where
    extenders_option : PluginExtenders → PluginOption
    plugin_name_option : String → PluginOption

  -- options; an initializer is the extenders that it returns for the store
  pub record Options : Type 0 where
    pub extender_option : PluginExtenders
    pub plugin_name : String

  unfoldable pub apply_option : PluginOption → Options → Options
  apply_option (extenders_option e) o = record o { extender_option = e }
  apply_option (plugin_name_option n) o = record o { plugin_name = n }

  unfoldable pub apply_options : List PluginOption → Options → Options
  unfolding apply_option
  apply_options [] o = o
  apply_options (p ∷ ps) o = apply_options ps (apply_option p o)

  -- wrappedPlugin, without its store, which is in the world; `original_name` is what the original
  -- plugin's Name() returns
  pub record WrappedPlugin : Type 0 where
    pub name : String
    pub original_name : String
    pub originals : Originals
    pub extenders : PluginExtenders

  -- framework.Plugin that NewWrappedPlugin returns: with or without the queue sort interface
  pub data Wrapped : Type 0 where
    plain : WrappedPlugin → Wrapped
    with_queue_sort : WrappedPlugin → (QueuedPodInfo → QueuedPodInfo → Bool) → Wrapped

abbrev pub plugin_suffix : String
plugin_suffix = "Wrapped"

abbrev pub plugin_name : String → String
plugin_name name = name ++ plugin_suffix

module _ (K : Framework) (E : Type 0) where
  open K use {QueuedPodInfo}

  abbrev queue_sorted :
      WrappedPlugin K E → Option (QueuedPodInfo → QueuedPodInfo → Bool) → Wrapped K E
  queue_sorted plg none = plain plg
  queue_sorted plg (some less) = with_queue_sort plg less

  -- Every interface of the plugin and every extender is copied as it is.
  unfoldable pub new_wrapped_plugin : FrameworkPlugin K E → List (PluginOption K E) → Wrapped K E
  unfolding apply_options
  new_wrapped_plugin p opts =
      let o =
        apply_options K E opts (record { extender_option = no_extenders K E; plugin_name = "" }) in
      let p_name = if o.plugin_name == "" then plugin_name p.name else o.plugin_name in
      let extender = o.extender_option in
      queue_sorted
        (record {
          name = p_name;
          original_name = p.name;
          originals = record {
            pre_enqueue = p.interfaces.pre_enqueue;
            pre_filter = p.interfaces.pre_filter;
            filter = p.interfaces.filter;
            post_filter = p.interfaces.post_filter;
            pre_score = p.interfaces.pre_score;
            score = p.interfaces.score;
            permit = p.interfaces.permit;
            reserve = p.interfaces.reserve;
            bind = p.interfaces.bind;
            pre_bind = p.interfaces.pre_bind;
            post_bind = p.interfaces.post_bind;
          };
          extenders = record {
            pre_filter = extender.pre_filter;
            filter = extender.filter;
            post_filter = extender.post_filter;
            score = extender.score;
            pre_score = extender.pre_score;
            normalize_score = extender.normalize_score;
            permit = extender.permit;
            reserve = extender.reserve;
            pre_bind = extender.pre_bind;
            bind = extender.bind;
            post_bind = extender.post_bind;
          };
        })
        p.queue_sort
