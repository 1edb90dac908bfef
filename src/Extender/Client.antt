-- ===== src/Extender/Client.antt =====
-- simulator/scheduler/extender/extender.go: the calls of an extender's endpoint. json.Marshal,
-- http.NewRequest, the HTTP client and the decoder are parameters; `W` is what is outside.
use semvi_btp.Common.{
  ℕ, ◌/◌, Bool, ◌&&◌, Option, none, some, List, map, eqb, if◌then◌else◌, Try, ok, err, ◌==◌, not,
}
use semvi_btp.Common.Errors.{GoError, raised, message, wrapped}
use semvi_btp.Common.Int.{ℤ, pos, ◌*ℤ◌, wrap64, format_int}
use Prim.Native.String.{String, [], ◌∷◌, ◌++◌}

-- strings.TrimRight with "/".
unfoldable pub trim_slashes : String → String
trim_slashes [] = []
trim_slashes (c ∷ s) =
    let rest = trim_slashes s in if (rest == "") && ((c ∷ []) == "/") then [] else c ∷ rest

pub record ExtenderClient : Type 0 where
  pub extender_url : String
  pub preempt_verb : String
  pub filter_verb : String
  pub prioritize_verb : String
  pub bind_verb : String
  pub weight : ℤ
  pub node_cache_capable : Bool
  pub managed_resources : List String

pub record HostPriority : Type 0 where
  pub host : String
  pub score : ℤ

pub record Response : Type 0 where
  pub status_code : ℕ
  pub body : String

pub record Http (W E : Type 0) : Type 0 where
  pub new_request : String → String → Option E
  pub do_request : String → String → W → W × Try E Response

abbrev pub status_ok : ℕ
status_ok = 200

-- MaxNodeScore of the framework over MaxExtenderPriority.
abbrev pub priority_factor : ℤ
priority_factor = pos (100 / 10)

-- The name is the URL.
abbrev pub name : ExtenderClient → String
name e = e.extender_url

abbrev pub raise : {E A : Type 0} → String → Try E A → Try (GoError E) A
raise text (ok a) = ok a
raise text (err e) = err (wrapped text (raised e))

module _ {W E A R : Type 0} (http : Http W E) (marshal : A → Try E String)
    (decode : String → Try E R) where
  abbrev pub url_of : ExtenderClient → String → String
  url_of e action = (trim_slashes e.extender_url ++ "/") ++ action

  abbrev pub decoded : Try E R → Try (GoError E) R
  decoded (ok r) = ok r
  decoded (err e) = err (raised e)

  abbrev pub read_response : String → String → W × Try E Response → W × Try (GoError E) R
  read_response action url (w, err e) = (w, err (wrapped "client Do" (raised e)))
  read_response action url (w, ok response) = (
    w,
    if not (eqb response.status_code status_ok)
        then err (
            message (
              ((((("failed " ++ action) ++ " with extender at URL ") ++ url) ++ ", code ")
                ++ format_int (pos response.status_code))))
        else decoded (decode response.body),
  )

  abbrev pub request : String → String → String → Option E → W → W × Try (GoError E) R
  request action url out (some e) w = (w, err (wrapped "http NewRequest" (raised e)))
  request action url out none w = read_response action url (http.do_request url out w)

  abbrev pub send_marshalled : ExtenderClient → String → Try E String → W → W × Try (GoError E) R
  send_marshalled e action (err failure) w = (w, err (wrapped "json Marshal" (raised failure)))
  send_marshalled e action (ok out) w =
      request action (url_of e action) out (http.new_request (url_of e action) out) w

  unfoldable pub send : ExtenderClient → String → A → W → W × Try (GoError E) R
  unfolding trim_slashes
  send e action args w = send_marshalled e action (marshal args) w

  abbrev pub sent : String → W × Try (GoError E) R → W × Try (GoError E) R
  sent text (w, ok r) = (w, ok r)
  sent text (w, err e) = (w, err (wrapped text e))

  -- A call of a verb; an empty verb is refused.
  abbrev pub call : ExtenderClient → String → String → String → A → W → W × Try (GoError E) R
  call e verb refusal text args w =
      if verb == "" then (w, err (message refusal)) else sent text (send e verb args w)

  unfoldable pub filter : ExtenderClient → A → W → W × Try (GoError E) R
  unfolding send
  filter e args w = call e e.filter_verb "filterVerb is empty" "send filter request" args w

  unfoldable pub preempt : ExtenderClient → A → W → W × Try (GoError E) R
  unfolding send
  preempt e args w = call e e.preempt_verb "preemptVerb is empty" "send preempt request" args w

  unfoldable pub bind : ExtenderClient → A → W → W × Try (GoError E) R
  unfolding send
  bind e args w = call e e.bind_verb "bindVerb is empty" "send bind request" args w

abbrev pub scale : ExtenderClient → HostPriority → HostPriority
scale e p = record {
  host = p.host;
  score = wrap64 (wrap64 (p.score *ℤ e.weight) *ℤ priority_factor);
}

abbrev pub scaled :
    {W E : Type 0}
    → ExtenderClient
    → W × Try (GoError E) (List HostPriority)
    → W × Try (GoError E) (List HostPriority)
scaled e (w, ok result) = (w, ok (map (scale e) result))
scaled e (w, err failure) = (w, err failure)

unfoldable pub prioritize :
    {W E A : Type 0}
    → Http W E
    → (A → Try E String)
    → (String → Try E (List HostPriority))
    → ExtenderClient
    → A
    → W
    → W × Try (GoError E) (List HostPriority)
unfolding send
prioritize http marshal decode e args w = scaled e (
    call http marshal decode e e.prioritize_verb "prioritizeVerb is empty" "send prioritize request"
      args w)
