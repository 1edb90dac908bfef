-- ===== src/WrappedPlugin/Framework.antt =====
-- What the code uses of k8s.io/kubernetes/pkg/scheduler/framework.
use semvi_btp.Common.{String, Bool, Option, List}

pub record Framework : Type 1 where
  -- v1.Pod, framework.NodeInfo, framework.QueuedPodInfo
  pub Pod : Type 0
  pub namespace : Pod → String
  pub pod_name : Pod → String
  pub NodeInfo : Type 0
  pub node_name : NodeInfo → String
  pub QueuedPodInfo : Type 0
  -- *framework.Status, the nil status and those that the wrapper makes
  pub Status : Type 0
  pub is_success : Status → Bool
  pub is_wait : Status → Bool
  pub message : Status → String
  pub nil_status : Status
  pub unschedulable : Status
  pub skip : String → Status
  -- *framework.PreFilterResult that is not nil, and NodeNames.UnsortedList()
  pub PreFilterResult : Type 0
  pub unsorted_node_names : PreFilterResult → List String
  -- *framework.PostFilterResult that is not nil
  pub PostFilterResult : Type 0
  pub nominated_node_name : PostFilterResult → String
  -- framework.NodeToStatusReader: the explicit nodes, if it is a *framework.NodeToStatus
  pub NodeToStatusReader : Type 0
  pub explicit_nodes : NodeToStatusReader → Option (List String)
  pub PreFilterExtensions : Type 0
  -- time.Duration
  pub Duration : Type 0
  pub zero_duration : Duration
  pub duration_text : Duration → String
