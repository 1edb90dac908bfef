-- ===== src/Extender/Tests.antt =====
-- A service of one extender, which answers with the number 7.
use semvi_btp.Common.{
  ◌≡◌, ◌≢◌, refl, ℕ, String, true, false, none, some, List, [], ◌∷◌, map, eq_iff, returns, panics,
  ok, err,
}
use mathlib.Core.Bool.{false≢true}
use semvi_btp.Common.GoMap.{lookup, insert}
use semvi_btp.Common.Errors.{raised}
use semvi_btp.Common.Int.{pos, wrap64, ◌*ℤ◌, format_int}
use semvi_btp.Extender.Store.{
  PodName, Args, Store, new_key, pod_key, Marshal, add_filter_result, add_bind_result,
  get_stored_result, extender_filter_result_annotation_key,
  extender_prioritize_result_annotation_key, extender_preempt_result_annotation_key,
  extender_bind_result_annotation_key,
}
use semvi_btp.Extender.Client.{
  ExtenderClient, Http, send, trim_slashes, prioritize as prioritize_over,
}
use semvi_btp.Extender.Service.{Extender, filter, bind}
use semvi_btp.Extender.Config.{
  ExtenderConfig, no_tls, override_extenders_cfg_to_simulator, override_from,
}
use semvi_btp.Extender.Recorded.{
  Request, to_filter, to_bind, serve_all, serve_all-lookup, filter-get_stored_result,
}

abbrev extender : Extender Unit Unit ℕ ℕ ℕ ℕ String
extender = record {
  name = "http://one/";
  filter = λ args w. (w, ok 7);
  prioritize = λ args w. (w, err (raised "refused"));
  preempt = λ args w. (w, err (raised "refused"));
  bind = λ args w. (w, ok 1);
}

abbrev web : PodName
web = record { namespace = "default"; name = "web" }

abbrev other_pod : PodName
other_pod = record { namespace = "default"; name = "db" }

abbrev args_of : PodName → Args Unit
args_of pod = record { pod = some pod; rest = tt }

abbrev Stored : Type 0
Stored = Store ℕ ℕ ℕ ℕ

abbrev marshal : Marshal ℕ ℕ ℕ ℕ String
marshal = record {
  of_filters = λ m. ok "{\"http://one/\":7}";
  of_prioritizes = λ m. ok "{}";
  of_preempts = λ m. ok "{}";
  of_binds = λ m. ok "{}";
}

filter-get_stored_result_example :
    (t : Stored) × (anno : List (String × String)) × (filter
        (extender ∷ [])
        (pos 0)
        (args_of web)
        tt
        []
      ≡ returns (tt, t, ok 7))
    × (get_stored_result marshal web t ≡ some anno)
    × (lookup extender_filter_result_annotation_key anno ≡ some "{\"http://one/\":7}")
    × (lookup extender_prioritize_result_annotation_key anno ≡ some "{}")
    × (lookup extender_preempt_result_annotation_key anno ≡ some "{}")
    × (lookup extender_bind_result_annotation_key anno ≡ some "{}")
filter-get_stored_result_example =
    filter-get_stored_result (extender ∷ []) marshal (pos 0) extender (args_of web) web tt tt [] 7
      "{\"http://one/\":7}" "{}" "{}" "{}" refl refl refl refl refl refl refl

abbrev requests : List (Request Unit)
requests =
    to_filter (pos 0) (args_of other_pod)
    ∷ to_bind (pos 0) (record { bound_pod = other_pod; rest = tt })
    ∷ []

keys_differ : pod_key other_pod ≢ pod_key web
unfolding new_key
keys_differ h = false≢true ((eq_iff (pod_key other_pod) (pod_key web)).1 h)

abbrev others_stored : Stored
others_stored =
    insert (pod_key other_pod)
      (record {
        filters = ("http://one/", 7) ∷ [];
        prioritizes = [];
        preempts = [];
        binds = ("http://one/", 1) ∷ [];
      })
      []

serve_all-lookup_example : lookup (pod_key web) others_stored ≡ lookup {V = _} (pod_key web) []
unfolding serve_all filter bind add_filter_result add_bind_result insert lookup new_key
serve_all-lookup_example =
    serve_all-lookup (extender ∷ []) (pod_key web) requests tt tt [] others_stored
      (keys_differ, (keys_differ, tt)) refl

-- An index that no extender has ends in a panic.
out_of_range : filter (extender ∷ []) (pos 1) (args_of web) tt [] ≡ panics
unfolding filter
out_of_range = refl

-- A client: the URL loses its slashes at the end, and the scores are scaled.
abbrev client : ExtenderClient
client = record {
  extender_url = "http://one//";
  preempt_verb = "";
  filter_verb = "filter";
  prioritize_verb = "prioritize";
  bind_verb = "";
  weight = pos 3;
  node_cache_capable = false;
  managed_resources = [];
}

abbrev http : Http (List String) String
http = record {
  new_request = λ url out. none;
  do_request = λ url out w. (url ∷ w, ok (record { status_code = 200; body = "4" }));
}

scaled_score :
    prioritize_over http
      (λ (u : Unit). ok "{}")
      (λ body. ok (record { host = "node"; score = pos 4 } ∷ []))
      client
      tt
      []
    ≡ ("http://one/prioritize" ∷ [], ok (record { host = "node"; score = pos 120 } ∷ []))
unfolding prioritize_over send trim_slashes ◌*ℤ◌ wrap64
scaled_score = refl

abbrev config : ExtenderConfig
config = record {
  url_prefix = "https://one";
  filter_verb = "f";
  prioritize_verb = "";
  preempt_verb = "";
  bind_verb = "b";
  weight = pos 1;
  enable_https = true;
  tls_config = some no_tls;
  http_timeout = 0;
  node_cache_capable = false;
  managed_resources = [];
}

overridden :
    map (λ c. c.bind_verb) (override_extenders_cfg_to_simulator 1212 (config ∷ config ∷ []))
    ≡ "bind/0" ∷ "bind/1" ∷ []
unfolding override_extenders_cfg_to_simulator override_from format_int
overridden = refl
