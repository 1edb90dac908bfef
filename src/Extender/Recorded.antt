-- ===== src/Extender/Recorded.antt =====
-- What the service's calls leave in the result store.
use semvi_btp.Common.{
  ◌≡◌, ◌≢◌, refl, ap, ◌∙◌, subst, String, Option, none, some, List, [], ◌∷◌, eq_refl,
  eq-false_of_ne, Run, returns, panics, ◌>>=◌, Try, ok, err, All,
}
use semvi_btp.Common.GoMap.{lookup, insert, lookup-insert}
use semvi_btp.Common.Errors.{GoError}
use semvi_btp.Common.Int.{ℤ}
use semvi_btp.Extender.Store.{
  extender_filter_result_annotation_key, extender_prioritize_result_annotation_key,
  extender_preempt_result_annotation_key, extender_bind_result_annotation_key, PodName, Args,
  Result, Store, pod_key, or_new_data, put_filter, put_prioritize, put_preempt, put_bind, for_pod,
  Marshal, add_filter_result, add_prioritize_result, add_preempt_result, add_bind_result,
  get_stored_result, stored,
}
use semvi_btp.Extender.Service.{
  BindArgs, Extender, extender_at, with_extender, record_reply, filter, prioritize, preempt, bind,
}

-- A request to the service, with the index of the extender.
pub data Request (A : Type 0) : Type 0 where
  to_filter : ℤ → Args A → Request A
  to_prioritize : ℤ → Args A → Request A
  to_preempt : ℤ → Args A → Request A
  to_bind : ℤ → BindArgs A → Request A

abbrev pub pod_of : {A : Type 0} → Request A → Option PodName
pod_of (to_filter id args) = args.pod
pod_of (to_prioritize id args) = args.pod
pod_of (to_preempt id args) = args.pod
pod_of (to_bind id args) = some args.bound_pod

-- The request is not about the pod of this key.
abbrev pub IsOther : String → Option PodName → Type 0
IsOther k none = Unit
IsOther k (some pod) = pod_key pod ≢ k

module _ {W A F P M B E : Type 0} (extenders : List (Extender W A F P M B E)) where
  abbrev pub without_reply :
      {R : Type 0} → Run (W × Store F P M B × Try (GoError E) R) → Run (W × Store F P M B)
  without_reply m = m >>= (λ (w, s, reply). returns (w, s))

  abbrev pub serve : Request A → W × Store F P M B → Run (W × Store F P M B)
  serve (to_filter id args) (w, s) = without_reply (filter extenders id args w s)
  serve (to_prioritize id args) (w, s) = without_reply (prioritize extenders id args w s)
  serve (to_preempt id args) (w, s) = without_reply (preempt extenders id args w s)
  serve (to_bind id args) (w, s) = without_reply (bind extenders id args w s)

  unfoldable pub serve_all : List (Request A) → W × Store F P M B → Run (W × Store F P M B)
  unfolding filter prioritize preempt bind
  serve_all [] state = returns state
  serve_all (r ∷ rs) state = serve r state >>= serve_all rs

  -- If the call returns, the results at the key are as in `s`.
  abbrev Keeps : String → Store F P M B → Run (W × Store F P M B) → Type 0
  Keeps k s (returns (w, t)) = lookup k t ≡ lookup k s
  Keeps k s panics = Unit

  abbrev KeepsStore : String → Store F P M B → Run (Store F P M B) → Type 0
  KeepsStore k s (returns t) = lookup k t ≡ lookup k s
  KeepsStore k s panics = Unit

  KeepsStore-for_pod :
      (k : String) (pod : Option PodName) (write : Result F P M B → Result F P M B)
      (s : Store F P M B)
      → IsOther k pod
      → KeepsStore k s (for_pod pod write s)
  KeepsStore-for_pod k none write s h = tt
  KeepsStore-for_pod k (some pod) write s h =
      rw
        (
          lookup-insert (pod_key pod) k (write (or_new_data (lookup (pod_key pod) s))) s,
          eq-false_of_ne (pod_key pod) k h,
        )
        refl

  abbrev replied :
      {R : Type 0} → W → R → Store F P M B → Run (W × Store F P M B × Try (GoError E) R)
  replied w r t = returns (w, t, ok r)

  Keeps-recorded :
      {R : Type 0} (k text : String) (s : Store F P M B)
      (add : R → Store F P M B → Run (Store F P M B)) (reply : W × Try (GoError E) R)
      → ((r : R) → KeepsStore k s (add r s))
      → Keeps k s (without_reply (record_reply text add reply s))
  Keeps-recorded k text s add (w, err e) h = refl
  Keeps-recorded k text s add (w, ok r) h = added (add r s) (h r)
    where
      added :
          (m : Run (Store F P M B))
          → KeepsStore k s m
          → Keeps k s (without_reply (m >>= replied w r))
      added (returns t) same = same
      added panics u = tt

  Keeps-with_extender :
      {R : Type 0} (k : String) (s : Store F P M B) (found : Option (Extender W A F P M B E))
      (f : Extender W A F P M B E → Run (W × Store F P M B × Try (GoError E) R))
      → ((e : Extender W A F P M B E) → Keeps k s (without_reply (f e)))
      → Keeps k s (without_reply (with_extender found f))
  Keeps-with_extender k s none f h = tt
  Keeps-with_extender k s (some e) f h = h e

  Keeps-serve :
      (k : String) (r : Request A) (w : W) (s : Store F P M B)
      → IsOther k (pod_of r)
      → Keeps k s (serve r (w, s))
  unfolding filter prioritize preempt bind add_filter_result add_prioritize_result
      add_preempt_result add_bind_result
  Keeps-serve k (to_filter id args) w s h =
      Keeps-with_extender k s (extender_at extenders id) _ (λ e.
        Keeps-recorded k "call filter of specified HTTPExtender" s
          (λ result. add_filter_result args result e.name) (e.filter args w)
          (λ r. KeepsStore-for_pod k args.pod (put_filter e.name r) s h))
  Keeps-serve k (to_prioritize id args) w s h =
      Keeps-with_extender k s (extender_at extenders id) _ (λ e.
        Keeps-recorded k "call prioritize of specified HTTPExtender" s
          (λ result. add_prioritize_result args result e.name) (e.prioritize args w)
          (λ r. KeepsStore-for_pod k args.pod (put_prioritize e.name r) s h))
  Keeps-serve k (to_preempt id args) w s h =
      Keeps-with_extender k s (extender_at extenders id) _ (λ e.
        Keeps-recorded k "call preempt of specified HTTPExtender" s
          (λ result. add_preempt_result args result e.name) (e.preempt args w)
          (λ r. KeepsStore-for_pod k args.pod (put_preempt e.name r) s h))
  Keeps-serve k (to_bind id args) w s h = Keeps-with_extender k s (extender_at extenders id) _ (λ e.
      Keeps-recorded k "call bind of specified HTTPExtender" s
        (λ result. add_bind_result args.bound_pod result e.name) (e.bind args w)
        (λ r. KeepsStore-for_pod k (some args.bound_pod) (put_bind e.name r) s h))

  Keeps-bind :
      (k : String) (s : Store F P M B) (m : Run (W × Store F P M B))
      (f : W × Store F P M B → Run (W × Store F P M B))
      → Keeps k s m
      → ((v : W) (t : Store F P M B) → Keeps k t (f (v, t)))
      → Keeps k s (m >>= f)
  Keeps-bind k s (returns (v, t)) f same h = moved (f (v, t)) (h v t)
    where
      moved : (m : Run (W × Store F P M B)) → Keeps k t m → Keeps k s m
      moved (returns (u, last)) e = e ∙ same
      moved panics u = tt
  Keeps-bind k s panics f same h = tt

  serve_all-others :
      (k : String) (rs : List (Request A)) (w : W) (s : Store F P M B)
      → All (λ r. IsOther k (pod_of r)) rs
      → Keeps k s (serve_all rs (w, s))
  unfolding serve_all
  serve_all-others k [] w s h = refl
  serve_all-others k (r ∷ rs) w s (other, h) =
      Keeps-bind k s (serve r (w, s)) (serve_all rs) (Keeps-serve k r w s other)
        (λ v t. serve_all-others k rs v t h)

  -- Requests about other pods, to any extenders and of any kinds, leave a pod's results as they were,
  -- whatever the extenders reply, unless one of them panics.
  pub serve_all-lookup :
      (k : String) (rs : List (Request A)) (w v : W) (s t : Store F P M B)
      → All (λ r. IsOther k (pod_of r)) rs
      → serve_all rs (w, s) ≡ returns (v, t)
      → lookup k t ≡ lookup k s
  serve_all-lookup k rs w v s t h e = subst (Keeps k s) e (serve_all-others k rs w s h)

  abbrev annotations_of : String → String → String → String → List (String × String)
  annotations_of filters prioritizes preempts binds =
      insert extender_bind_result_annotation_key binds (
        insert extender_preempt_result_annotation_key preempts (
          insert extender_prioritize_result_annotation_key prioritizes
            (insert extender_filter_result_annotation_key filters [])))

  stored_at :
      (k : String) (r : Result F P M B) (s : Store F P M B) → lookup k (insert k r s) ≡ some r
  stored_at k r s = rw (lookup-insert k k r s, eq_refl k) refl

  -- A filter request that the extender at the index answers: the reply is returned as it is, and the
  -- annotations of its pod then have, at the key for filtering, the JSON of the results that its
  -- extenders gave before with this extender's result at its name. Marshalling is assumed not to
  -- fail.
  pub filter-get_stored_result :
      {J : Type 0} (marshal : Marshal F P M B J) (id : ℤ) (e : Extender W A F P M B E)
      (args : Args A) (pod : PodName) (w v : W) (s : Store F P M B) (result : F)
      (filters prioritizes preempts binds : String)
      → extender_at extenders id ≡ some e
      → args.pod ≡ some pod
      → e.filter args w ≡ (v, ok result)
      → let old = or_new_data (lookup (pod_key pod) s) in
        marshal.of_filters (insert e.name result old.filters) ≡ ok filters
        → marshal.of_prioritizes old.prioritizes ≡ ok prioritizes
        → marshal.of_preempts old.preempts ≡ ok preempts
        → marshal.of_binds old.binds ≡ ok binds
        → (t : Store F P M B) × (anno : List (String × String)) × (filter extenders id args w s
            ≡ returns (v, t, ok result))
          × (get_stored_result marshal pod t ≡ some anno)
          × (lookup extender_filter_result_annotation_key anno ≡ some filters)
          × (lookup extender_prioritize_result_annotation_key anno ≡ some prioritizes)
          × (lookup extender_preempt_result_annotation_key anno ≡ some preempts)
          × (lookup extender_bind_result_annotation_key anno ≡ some binds)
  unfolding filter add_filter_result get_stored_result lookup insert
  filter-get_stored_result marshal id e args pod w v s result filters prioritizes preempts binds
        found named replies a b c d =
      let old = or_new_data (lookup (pod_key pod) s) in
      let t = insert (pod_key pod) (put_filter e.name result old) s in
      (
        t,
        annotations_of filters prioritizes preempts binds,
        rw (found, replies, named) refl,
        ap (stored marshal) (stored_at (pod_key pod) (put_filter e.name result old) s)
            ∙ rw (a, b, c, d) refl,
        refl,
        refl,
        refl,
        refl,
      )
