-- ===== src/WrappedPlugin/Action.antt =====
-- Actions on the world of a wrapped plugin: the environment (cycle state, cluster, the plugin's own
-- state) and the result store. An action returns a value and the new world, or panics.
use semvi_btp.Common.{String, List, [], ◌∷◌, Run, returns, panics}
use semvi_btp.ResultStore.{Store}
use semvi_btp.ResultStore.Calls.{Call, PodCall, step, run, customs}

pub record World (E : Type 0) : Type 0 where
  pub env : E
  pub store : Store

abbrev pub Action : Type 0 → Type 0 → Type 0
Action E A = World E → Run (A × World E)

-- A custom result: namespace, pod name, annotation key and text of a call of AddCustomResult.
abbrev pub Custom : Type 0
Custom = String × String × String × String

-- A method of an extender: it acts on the environment, and adds custom results through its handle.
abbrev pub Hook : Type 0 → Type 0 → Type 0
Hook E A = E → A × E × List Custom

abbrev pub custom_call : Custom → PodCall
custom_call (ns, pod, key, text) = (ns, pod, customs key text)

abbrev pub custom_calls : List Custom → List PodCall
custom_calls [] = []
custom_calls (c ∷ cs) = custom_call c ∷ custom_calls cs

module _ {E : Type 0} where
  unfoldable pub pure : {A : Type 0} → A → Action E A
  pure a w = returns (a, w)

  abbrev pub continue : {A B : Type 0} → Run (A × World E) → (A → Action E B) → Run (B × World E)
  continue (returns (a, w)) f = f a w
  continue panics f = panics

  infixl 5 ◌>>=◌ ◌>>◌
  unfoldable pub ◌>>=◌ : {A B : Type 0} → Action E A → (A → Action E B) → Action E B
  ◌>>=◌ m f w = continue (m w) f

  abbrev pub ◌>>◌ : {A B : Type 0} → Action E A → Action E B → Action E B
  m >> k = m >>= λ _. k

  -- A call of the original plugin: it has no handle to the store.
  unfoldable pub original : {A : Type 0} → (E → A × E) → Action E A
  original f w = let (a, e) = f w.env in returns (a, record w { env = e })

  abbrev pub stored_as : {A : Type 0} → A → E → Run Store → Run (A × World E)
  stored_as a e (returns s) = returns (a, record { env = e; store = s })
  stored_as a e panics = panics

  -- A call of an extender.
  unfoldable pub hook : {A : Type 0} → Hook E A → Action E A
  unfolding run step
  hook f w = let (a, e, cs) = f w.env in stored_as a e (run (custom_calls cs) w.store)

  -- A method of the store.
  unfoldable pub record_call : String → String → Call → Action E (Unit {0})
  unfolding step
  record_call ns pod c w = stored_as tt w.env (step ns pod c w.store)
