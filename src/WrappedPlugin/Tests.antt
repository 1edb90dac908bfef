-- ===== src/WrappedPlugin/Tests.antt =====
-- A small framework and two plugins to run the wrapper on.
use semvi_btp.Common.{
  ℕ, suc, ◌≡◌, refl, ◌⊎◌, String, Bool, true, false, Option, none, some, List, [], ◌∷◌, returns,
  panics, Ensures, ◌==◌, ◌&&◌, if◌then◌else◌,
}
use semvi_btp.Common.GoMap.{made}
use semvi_btp.Common.Int.{pos, format_int}
use semvi_btp.ResultStore.{Store, new}
use semvi_btp.ResultStore.Calls.{apply_weight_on_score}
use semvi_btp.ResultStore.Safety.{IsSound, Kept, new-IsSound}
use semvi_btp.ResultStore.Recorded.{filter_text, score_text, final_text, with_text, SameButScores}
use semvi_btp.ResultStore.Nominations.{post_filter_text, listed}
use semvi_btp.WrappedPlugin.Framework.{Framework}
use semvi_btp.WrappedPlugin.Action.{World, original, ◌>>=◌}
use semvi_btp.WrappedPlugin.Plugin.{
  NodeScoreList, WrappedPlugin, Originals, no_extenders, FilterPluginExtender, ScorePlugin,
}
use semvi_btp.WrappedPlugin.Methods.Guards.{unless_refused, finish}
use semvi_btp.WrappedPlugin.Methods.Filtering.{filter, node_names, post_filter}
use semvi_btp.WrappedPlugin.Methods.Scoring.{score, normalize_score}
use semvi_btp.WrappedPlugin.Safety.{IsSoundAfter}
use semvi_btp.WrappedPlugin.Requests.{
  Request, filter_request, post_filter_request, reserve_request, score_request, serve, HasNominees,
  serve-IsSound,
}
use semvi_btp.WrappedPlugin.Nominated.{nominee, post_filter-cases}
use semvi_btp.WrappedPlugin.Normalized.{last_score, normalize_score-records}
use semvi_btp.WrappedPlugin.Records.{
  key_of, filter_message, last_message, filter_all, or_text, filter-records, serve-filter_all,
  score-records,
}

-- A pod is a namespace and a name, a node its name, a status its message or none for a success.
abbrev K : Framework
K = record {
  Pod = String × String;
  namespace = λ p. p.0;
  pod_name = λ p. p.1;
  NodeInfo = String;
  node_name = λ n. n;
  QueuedPodInfo = String × String;
  Status = Option String;
  is_success = λ s. elim s [ none ↦ true | some m ↦ false ];
  is_wait = λ s. elim s [ none ↦ false | some m ↦ m == "wait" ];
  message = λ s. elim s [ none ↦ "" | some m ↦ m ];
  nil_status = none;
  unschedulable = some "";
  skip = some;
  PreFilterResult = List String;
  unsorted_node_names = λ l. l;
  PostFilterResult = String;
  nominated_node_name = λ n. n;
  NodeToStatusReader = List String;
  explicit_nodes = some;
  PreFilterExtensions = Unit {0};
  Duration = ℕ;
  zero_duration = 0;
  duration_text = λ d. format_int (pos d);
}

-- The environment counts the calls of the original.
abbrev taint_filter : String × String → String → ℕ → Option String × ℕ
taint_filter pod node e = (if_tainted (node == "node2"), suc e)
  where
    if_tainted : Bool → Option String
    if_tainted true = some "untolerated taint"
    if_tainted false = none

abbrev length_score : ScorePlugin K ℕ
length_score = record { score = λ pod node e. ((pos 7, none), suc e); score_extensions = none }

abbrev nominate : String × String → List String → ℕ → (Option String × Option String) × ℕ
nominate pod nodes e = ((some "node1", none), suc e)

abbrev nothing : Originals K ℕ
nothing = record {
  pre_enqueue = none;
  pre_filter = none;
  filter = some taint_filter;
  pre_score = none;
  post_filter = some nominate;
  score = some length_score;
  permit = none;
  reserve = none;
  pre_bind = none;
  bind = none;
  post_bind = none;
}

abbrev sample_plugin : WrappedPlugin K ℕ
sample_plugin = record {
  name = "TaintTolerationWrapped";
  original_name = "TaintToleration";
  originals = nothing;
  extenders = no_extenders K ℕ;
}

-- An extender that refuses, and adds a custom result when it does.
abbrev refusing : FilterPluginExtender K ℕ
refusing = record {
  before = λ pod node e. (some "refused", e, (pod.0, pod.1, "key", "text") ∷ []);
  after = λ pod node s e. (s, e, []);
}

abbrev extended_plugin : WrappedPlugin K ℕ
extended_plugin = record sample_plugin {
  extenders = record (no_extenders K ℕ) { filter = some refusing };
}

abbrev pod1 : String × String
pod1 = ("default", "pod1")

abbrev fresh : Store
fresh = new (made (("TaintToleration", pos 3) ∷ []))

abbrev sample_requests : List (WrappedPlugin K ℕ × Request K ℕ)
sample_requests =
    (sample_plugin, filter_request pod1 "node1")
    ∷ (extended_plugin, filter_request pod1 "node2")
    ∷ (sample_plugin, post_filter_request pod1 ("node1" ∷ "node2" ∷ []))
    ∷ (sample_plugin, score_request pod1 "node1")
    ∷ (extended_plugin, reserve_request pod1 "node1")
    ∷ []

nominates :
    (pod : String × String) (nodes : List String) (e : ℕ)
    → true ≡ true
    → (x : String) × (some "node1" ≡ some x)
nominates pod nodes e h = ("node1", refl)

all_nominate : HasNominees K ℕ sample_requests
all_nominate = (nominates, (nominates, (nominates, (nominates, (nominates, tt)))))

serve-IsSound_example :
    Ensures IsSoundAfter (serve K ℕ sample_requests (record { env = 0; store = fresh }))
serve-IsSound_example =
    serve-IsSound K ℕ sample_requests (record { env = 0; store = fresh }) all_nominate
      (new-IsSound (made (("TaintToleration", pos 3) ∷ [])))

filter-records_example :
    (t : Store) × (filter K ℕ sample_plugin pod1 "node2" (record { env = 0; store = fresh })
      ≡ returns ((taint_filter pod1 "node2" 0).0, record { env = 1; store = t }))
    × IsSound t
    × ((j node plugin : String)
        → filter_text t j node plugin
          ≡ with_text
              (filter_text fresh)
              (key_of K ℕ pod1)
              "node2"
              "TaintToleration"
              (filter_message K ℕ (taint_filter pod1 "node2" 0).0)
              j
              node
              plugin)
filter-records_example =
    filter-records K ℕ sample_plugin pod1 "node2" taint_filter refl refl 0 fresh
      (new-IsSound (made (("TaintToleration", pos 3) ∷ [])))

abbrev verdict_of : String → Option String
verdict_of node = (taint_filter pod1 node 0).0

serve-filter_all_example :
    (r : World ℕ) × (serve K ℕ
        (filter_all K ℕ sample_plugin pod1 ("node1" ∷ "node2" ∷ []))
        (record { env = 0; store = fresh })
      ≡ returns (tt, r))
    × IsSound r.store
    × ((node : String)
        → filter_text r.store (key_of K ℕ pod1) node "TaintToleration"
          ≡ or_text
              (last_message K ℕ verdict_of ("node1" ∷ "node2" ∷ []) node)
              (filter_text fresh (key_of K ℕ pod1) node "TaintToleration"))
serve-filter_all_example =
    serve-filter_all K ℕ sample_plugin pod1 taint_filter verdict_of refl refl (λ n e. refl)
      ("node1" ∷ "node2" ∷ []) 0 fresh (new-IsSound (made (("TaintToleration", pos 3) ∷ [])))

score-records_example :
    (t : Store) × (score K ℕ sample_plugin pod1 "node1" (record { env = 0; store = fresh })
      ≡ returns ((pos 7, none), record { env = 1; store = t }))
    × IsSound t
    × ((j n plugin : String)
        → (score_text t j n plugin
            ≡ with_text
                (score_text fresh)
                (key_of K ℕ pod1)
                "node1"
                "TaintToleration"
                (format_int (pos 7))
                j
                n
                plugin)
          × (final_text t j n plugin
              ≡ with_text
                  (final_text fresh)
                  (key_of K ℕ pod1)
                  "node1"
                  "TaintToleration"
                  (format_int (apply_weight_on_score fresh "TaintToleration" (pos 7)))
                  j
                  n
                  plugin))
    × SameButScores fresh t
score-records_example =
    score-records K ℕ sample_plugin pod1 "node1" length_score refl refl 0 fresh
      (new-IsSound (made (("TaintToleration", pos 3) ∷ []))) refl

-- A plugin that nominates the first of the nodes, with a success.
abbrev first_nominee : String × String → List String → ℕ → (Option String × Option String) × ℕ
first_nominee pod [] e = ((none, none), suc e)
first_nominee pod (node ∷ nodes) e = ((some node, none), suc e)

abbrev nominating_plugin : WrappedPlugin K ℕ
nominating_plugin = record sample_plugin {
  originals = record nothing { post_filter = some first_nominee };
}

abbrev sound_start : IsSound fresh
sound_start = new-IsSound (made (("TaintToleration", pos 3) ∷ []))

abbrev two_nodes : List String
two_nodes = "node1" ∷ "node2" ∷ []

-- With no nodes it returns a nil result with a success.
nominee_missing :
    post_filter K ℕ nominating_plugin pod1 [] (record { env = 0; store = fresh }) ≡ panics
unfolding post_filter unless_refused finish ◌>>=◌ original
nominee_missing = refl

post_filter-cases_example :
    let answer =
      post_filter K ℕ nominating_plugin pod1 two_nodes (record { env = 0; store = fresh }) in
    let r = first_nominee pod1 two_nodes 0 in
    ((r.0.0 ≡ none) × (Framework.is_success K r.0.1 ≡ true) × (answer ≡ panics))
    ⊎ (((r.0.0 ≡ none) × (Framework.is_success K r.0.1 ≡ true) → ⊥)
        × (t : Store) × (answer ≡ returns (r.0, record { env = r.1; store = t }))
        × Kept (key_of K ℕ pod1) fresh t
        × ((j n plugin : String)
            → post_filter_text t j n plugin ≡ (
                if (key_of K ℕ pod1 == j)
                  && (listed n (node_names K ℕ (Framework.explicit_nodes K two_nodes))
                      && ((nominee K ℕ r.0 == n) && ("TaintToleration" == plugin)))
                then some "preemption victim"
                else post_filter_text fresh j n plugin)))
post_filter-cases_example =
    post_filter-cases K ℕ nominating_plugin pod1 two_nodes first_nominee refl refl 0 fresh
      sound_start

-- A plugin that normalizes every score to 100.
abbrev all_full : NodeScoreList → NodeScoreList
all_full [] = []
all_full ((node, score) ∷ rest) = (node, pos 100) ∷ all_full rest

abbrev full_normalize : String × String → NodeScoreList → ℕ → (Option String × NodeScoreList) × ℕ
full_normalize pod given e = ((none, all_full given), suc e)

abbrev normalizing_plugin : WrappedPlugin K ℕ
normalizing_plugin = record sample_plugin {
  originals = record nothing {
    score = some (record length_score { score_extensions = some full_normalize });
  };
}

abbrev given_scores : NodeScoreList
given_scores = ("node1", pos 3) ∷ ("node2", pos 4) ∷ []

normalize_score-records_example :
    (t : Store) × (normalize_score K ℕ normalizing_plugin pod1 given_scores
        (record { env = 0; store = fresh })
      ≡ returns ((none, all_full given_scores), record { env = 1; store = t }))
    × IsSound t
    × ((node : String)
        → final_text t (key_of K ℕ pod1) node "TaintToleration"
          ≡ or_text
              (last_score fresh "TaintToleration" (all_full given_scores) node)
              (final_text fresh (key_of K ℕ pod1) node "TaintToleration"))
normalize_score-records_example =
    normalize_score-records K ℕ normalizing_plugin pod1 given_scores full_normalize refl refl 0
      fresh (new-IsSound (made (("TaintToleration", pos 3) ∷ []))) refl
