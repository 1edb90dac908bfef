-- ===== src/ResourceApplier/Library.antt =====
-- What the resource applier uses of the Kubernetes libraries, as parameters, and the calls on them: a
-- call acts on the cluster `W`, returns a value or an error, or panics.
use semvi_btp.Common.{ℕ, String, Option, List, Run, returns, panics, Try, ok, err}
use semvi_btp.Common.Errors.{GoError, raised, wrapped}
use semvi_btp.Common.Kubernetes.{GroupVersionResource}

pub record GroupVersionKind : Type 0 where
  pub group : String
  pub version : String
  pub kind : String

-- v1.Pod: the fields that the code uses, and the others.
pub record Pod (R : Type 0) : Type 0 where
  pub node_name : String
  pub service_account_name : String
  pub deprecated_service_account : String
  pub owner_references : List String
  pub others : R

pub record ClaimRef : Type 0 where
  pub claim_namespace : String
  pub claim_name : String
  pub claim_uid : String

-- v1.PersistentVolume; the claim may be nil.
pub record PersistentVolume (R : Type 0) : Type 0 where
  pub phase : String
  pub claim_ref : Option ClaimRef
  pub others : R

-- Unstructured objects with their accessors, and DefaultUnstructuredConverter. A time of `none` is
-- metav1.Time{}.
pub record Resources (O R E : Type 0) : Type 0 where
  pub group_version_kind : O → GroupVersionKind
  pub get_name : O → String
  pub get_namespace : O → String
  pub get_uid : O → String
  pub set_uid : String → O → O
  pub set_generation : ℕ → O → O
  pub set_resource_version : String → O → O
  pub set_creation_timestamp : Option ℕ → O → O
  pub pod_from : O → Try E (Pod R)
  pub pod_to : Pod R → Try E O
  pub volume_from : O → Try E (PersistentVolume R)
  pub volume_to : PersistentVolume R → Try E O

abbrev pub Act : Type 0 → Type 0 → Type 0 → Type 0
Act W E A = W → Run (W × Try (GoError E) A)

-- Clients: the REST mapper, and the dynamic client at a resource and a namespace.
pub record Clients (W O E : Type 0) : Type 0 where
  pub rest_mapping : GroupVersionKind → Try E GroupVersionResource
  pub create : GroupVersionResource → String → O → Act W E Unit
  pub update : GroupVersionResource → String → O → Act W E Unit
  pub delete : GroupVersionResource → String → String → Act W E Unit
  pub get : GroupVersionResource → String → String → Act W E O

module _ {W E : Type 0} where
  abbrev pub done : {A : Type 0} → A → Act W E A
  done a w = returns (w, ok a)

  abbrev pub fails : {A : Type 0} → GoError E → Act W E A
  fails e w = returns (w, err e)

  abbrev pub crashes : {A : Type 0} → Act W E A
  crashes w = panics

  -- The error of a library.
  abbrev pub lift : {A : Type 0} → Try E A → Act W E A
  lift (ok a) w = returns (w, ok a)
  lift (err e) w = returns (w, err (raised e))

  abbrev pub go_on :
      {A B : Type 0} → Run (W × Try (GoError E) A) → (A → Act W E B) → Run (W × Try (GoError E) B)
  go_on (returns (w, ok a)) f = f a w
  go_on (returns (w, err e)) f = returns (w, err e)
  go_on panics f = panics

  infixl 5 ◌>>=◌
  abbrev pub ◌>>=◌ : {A B : Type 0} → Act W E A → (A → Act W E B) → Act W E B
  (m >>= f) w = go_on (m w) f

  abbrev pub in_text :
      {A : Type 0} → String → Run (W × Try (GoError E) A) → Run (W × Try (GoError E) A)
  in_text text (returns (w, ok a)) = returns (w, ok a)
  in_text text (returns (w, err e)) = returns (w, err (wrapped text e))
  in_text text panics = panics

  -- The call, its error wrapped in a text.
  abbrev pub wrapping : {A : Type 0} → String → Act W E A → Act W E A
  wrapping text m w = in_text text (m w)
