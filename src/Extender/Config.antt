-- ===== src/Extender/Config.antt =====
-- simulator/scheduler/extender: OverrideExtendersCfgToSimulator of service.go, and newExtender,
-- makeTransport and createExtenders of extender.go. `T` is a TLS configuration, which
-- restclient.TLSConfigFor makes, and `X` the rest of an extender's configuration.
use semvi_btp.Common.{
  ℕ, suc, ◌*◌, Bool, true, false, not, ◌||◌, ◌&&◌, Option, none, some, List, [], ◌∷◌, ◌==◌, ltb,
  eqb, if◌then◌else◌, String, length, Try, ok, err,
}
use semvi_btp.Common.Errors.{GoError, raised, wrapped, chain}
use semvi_btp.Common.Int.{ℤ, pos, format_int}
use semvi_btp.Extender.Client.{ExtenderClient}
use Prim.Native.String as Text

-- restclient.TLSClientConfig, and configv1.ExtenderTLSConfig, which has the same fields.
pub record TlsClientConfig : Type 0 where
  pub insecure : Bool
  pub server_name : String
  pub cert_file : String
  pub key_file : String
  pub ca_file : String
  pub cert_data : List ℕ
  pub key_data : List ℕ
  pub ca_data : List ℕ

-- configv1.Extender; the timeout is in nanoseconds.
pub record ExtenderConfig : Type 0 where
  pub url_prefix : String
  pub filter_verb : String
  pub prioritize_verb : String
  pub preempt_verb : String
  pub bind_verb : String
  pub weight : ℤ
  pub enable_https : Bool
  pub tls_config : Option TlsClientConfig
  pub http_timeout : ℕ
  pub node_cache_capable : Bool
  pub managed_resources : List String

abbrev pub default_extender_timeout : ℕ
default_extender_timeout = 5 * 1000000000

abbrev pub no_tls : TlsClientConfig
no_tls = record {
  insecure = false;
  server_name = "";
  cert_file = "";
  key_file = "";
  ca_file = "";
  cert_data = [];
  key_data = [];
  ca_data = [];
}

abbrev pub or_no_tls : Option TlsClientConfig → TlsClientConfig
or_no_tls none = no_tls
or_no_tls (some t) = t

abbrev pub has_ca : TlsClientConfig → Bool
has_ca t = not (t.ca_file == "") || ltb 0 (length t.ca_data)

abbrev pub with_insecure : TlsClientConfig → TlsClientConfig
with_insecure t = record {
  insecure = true;
  server_name = t.server_name;
  cert_file = t.cert_file;
  key_file = t.key_file;
  ca_file = t.ca_file;
  cert_data = t.cert_data;
  key_data = t.key_data;
  ca_data = t.ca_data;
}

-- The configuration that makeTransport hands to TLSConfigFor.
abbrev pub transport_config : ExtenderConfig → TlsClientConfig
transport_config config =
    if config.enable_https && not (has_ca (or_no_tls config.tls_config))
    then with_insecure (or_no_tls config.tls_config)
    else or_no_tls config.tls_config

-- The transport's TLS configuration, which may be nil.
abbrev pub make_transport :
    {T E : Type 0} → (TlsClientConfig → Try E (Option T)) → ExtenderConfig → Try E (Option T)
make_transport tls_config_for config = tls_config_for (transport_config config)

-- A set as a list without repetitions.
abbrev pub insert_resource : String → List String → List String
insert_resource r [] = r ∷ []
insert_resource r (q ∷ qs) = let rest = insert_resource r qs in if q == r then q ∷ qs else q ∷ rest

abbrev pub resource_set : List String → List String → List String
resource_set [] set = set
resource_set (r ∷ rs) set = resource_set rs (insert_resource r set)

-- An extender with its client's transport and timeout.
pub record Built (T : Type 0) : Type 0 where
  pub extender : ExtenderClient
  pub transport : Option T
  pub timeout : ℕ

module _ {T E : Type 0} (tls_config_for : TlsClientConfig → Try E (Option T)) where
  abbrev pub built : ExtenderConfig → Try E (Option T) → Try E (Built T)
  built config (err e) = err e
  built config (ok transport) = ok (record {
    extender = record {
      extender_url = config.url_prefix;
      preempt_verb = config.preempt_verb;
      filter_verb = config.filter_verb;
      prioritize_verb = config.prioritize_verb;
      bind_verb = config.bind_verb;
      weight = config.weight;
      node_cache_capable = config.node_cache_capable;
      managed_resources = resource_set config.managed_resources [];
    };
    transport = transport;
    timeout = if eqb config.http_timeout 0 then default_extender_timeout else config.http_timeout;
  })

  abbrev pub new_extender : ExtenderConfig → Try E (Built T)
  new_extender config = built config (make_transport tls_config_for config)

  abbrev pub add_built :
      Try E (Built T) → Try (GoError E) (List (Built T)) → Try (GoError E) (List (Built T))
  add_built (err e) rest = err (wrapped "failed newExtender" (raised e))
  add_built (ok b) rest = chain rest (λ bs. ok (b ∷ bs))

  unfoldable pub create_extenders : List ExtenderConfig → Try (GoError E) (List (Built T))
  create_extenders [] = ok []
  create_extenders (config ∷ configs) =
      let rest = create_extenders configs in add_built (new_extender config) rest

abbrev pub routed : String → String → ℕ → String
routed verb path i = if not (verb == "") then Text.◌++◌ path (format_int (pos i)) else verb

-- The extender at an index, directed to the simulator.
abbrev pub override_extender : ℕ → ℕ → ExtenderConfig → ExtenderConfig
override_extender port i config = record {
  url_prefix =
      Text.◌++◌ (Text.◌++◌ "http://localhost:" (format_int (pos port))) "/api/v1/extender/";
  filter_verb = routed config.filter_verb "filter/" i;
  prioritize_verb = routed config.prioritize_verb "prioritize/" i;
  preempt_verb = routed config.preempt_verb "preempt/" i;
  bind_verb = routed config.bind_verb "bind/" i;
  weight = config.weight;
  enable_https = false;
  tls_config = none;
  http_timeout = config.http_timeout;
  node_cache_capable = config.node_cache_capable;
  managed_resources = config.managed_resources;
}

-- The loop, from an index on.
unfoldable pub override_from : ℕ → ℕ → List ExtenderConfig → List ExtenderConfig
override_from port i [] = []
override_from port i (config ∷ configs) =
    override_extender port i config ∷ override_from port (suc i) configs

unfoldable pub override_extenders_cfg_to_simulator : ℕ → List ExtenderConfig → List ExtenderConfig
unfolding override_from
override_extenders_cfg_to_simulator port configs = override_from port 0 configs
