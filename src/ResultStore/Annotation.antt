-- ===== src/ResultStore/Annotation.antt =====
-- simulator/scheduler/plugin/annotation/annotation.go: the annotation keys of the results.
use Prim.Native.String.{String}

abbrev pub pre_filter_status_key : String
pre_filter_status_key = "kube-scheduler-simulator.sigs.k8s.io/prefilter-result-status"

abbrev pub pre_filter_key : String
pre_filter_key = "kube-scheduler-simulator.sigs.k8s.io/prefilter-result"

abbrev pub filter_key : String
filter_key = "kube-scheduler-simulator.sigs.k8s.io/filter-result"

abbrev pub post_filter_key : String
post_filter_key = "kube-scheduler-simulator.sigs.k8s.io/postfilter-result"

abbrev pub pre_score_key : String
pre_score_key = "kube-scheduler-simulator.sigs.k8s.io/prescore-result"

abbrev pub score_key : String
score_key = "kube-scheduler-simulator.sigs.k8s.io/score-result"

abbrev pub final_score_key : String
final_score_key = "kube-scheduler-simulator.sigs.k8s.io/finalscore-result"

abbrev pub reserve_key : String
reserve_key = "kube-scheduler-simulator.sigs.k8s.io/reserve-result"

abbrev pub permit_status_key : String
permit_status_key = "kube-scheduler-simulator.sigs.k8s.io/permit-result"

abbrev pub permit_timeout_key : String
permit_timeout_key = "kube-scheduler-simulator.sigs.k8s.io/permit-result-timeout"

abbrev pub pre_bind_key : String
pre_bind_key = "kube-scheduler-simulator.sigs.k8s.io/prebind-result"

abbrev pub bind_key : String
bind_key = "kube-scheduler-simulator.sigs.k8s.io/bind-result"

abbrev pub selected_node_key : String
selected_node_key = "kube-scheduler-simulator.sigs.k8s.io/selected-node"
