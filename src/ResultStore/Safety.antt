-- ===== src/ResultStore/Safety.antt =====
-- No method of the store panics: no nil map is ever written to, and no missing map is.
use semvi_btp.Common.{
  ◌≡◌, refl, ◌∙◌, String, Option, none, some, List, [], ◌∷◌, false, inl, inr, Run, returns, ◌>>=◌,
  ◌==◌, arith, Ensures, Ensures-bind, Ensures-mono, Bool-cases, Option-cases,
}
use semvi_btp.Common.GoMap.{
  GoMap, nil_map, made, get, put, delete, lookup, lookup-without, IsMade, MadeOf, Values,
  Values-insert, Values-without, Values-lookup, put-IsMade,
}
use semvi_btp.Common.Int.{ℤ}
use semvi_btp.ResultStore.Defs.{Key, Result, Store, new, new_key, new_data, with_result}
use semvi_btp.ResultStore.Writes.{
  view, current, with_result_made, base, store_of, lookup-insert-base,
}
use semvi_btp.ResultStore.Calls.{
  Call, PodCall, step, run, filters, post_filters, scores, normalizes, pre_filters, pre_scores,
  permits, selects, reserves, binds, pre_binds, customs, deletes, record_at, post_filter_nodes,
  post_filter_nominated_message, add_normalized_score_result_without_lock, add_score_result,
  pre_filter_written,
}
use semvi_btp.ResultStore.Nodes.{ensure_node-HasNode, put_at-WroteAt, record_at-WroteAt}

-- Every map of the result is made, and so are the maps inside.
pub record IsFine (r : Result) : Type 0 where
  pub pre_score : IsMade r.pre_score
  pub score : MadeOf IsMade r.score
  pub final_score : MadeOf IsMade r.final_score
  pub pre_filter_status : IsMade r.pre_filter_status
  pub pre_filter_result : IsMade r.pre_filter_result
  pub filter : MadeOf IsMade r.filter
  pub post_filter : MadeOf IsMade r.post_filter
  pub permit : IsMade r.permit
  pub permit_timeout : IsMade r.permit_timeout
  pub reserve : IsMade r.reserve
  pub prebind : IsMade r.prebind
  pub bind : IsMade r.bind
  pub custom_results : IsMade r.custom_results

-- The store has a map of results, each of them fine.
abbrev pub IsSound : Store → Type 0
IsSound s = MadeOf IsFine s.results

pub new_data-IsFine : IsFine new_data
unfolding new_data
new_data-IsFine = omega arith

pub new-IsSound : (w : GoMap ℤ) → IsSound (new w)
unfolding new
new-IsSound w = tt

pub IsSound-IsMade : (m : GoMap Result) → MadeOf IsFine m → IsMade m
IsSound-IsMade nil_map h = h
IsSound-IsMade (made l) h = tt

sound_lookup :
    (m : GoMap Result) (k : Key) (r : Result) → MadeOf IsFine m → get m k ≡ some r → IsFine r
sound_lookup nil_map k r h e = absurd h
sound_lookup (made l) k r h e = Values-lookup IsFine k l h e

-- The result that a method starts from is fine.
pub current-IsFine : (s : Store) (k : Key) → IsSound s → IsFine (current s k)
current-IsFine s k h = elim (Option-cases (view s k)) [
  | inl e ↦ rw e new_data-IsFine
  | inr (r, e) ↦ rw e (sound_lookup s.results k r h e)
]

base-IsFine : (k : Key) (l : List (String × Result)) → Values IsFine l → Values IsFine (base k l)
base-IsFine k l h = elim (Option-cases (lookup k l)) [
  | inl e ↦ rw e (Values-insert IsFine k new_data l new_data-IsFine h)
  | inr (r, e) ↦ rw e h
]

-- A sound store that may differ from `s` at the key only.
pub record Kept (k : Key) (s t : Store) : Type 0 where
  pub sound : IsSound t
  pub weight : t.score_plugin_weight ≡ s.score_plugin_weight
  pub elsewhere : (j : Key) → (k == j) ≡ false → view t j ≡ view s j

Kept-made :
    (k : Key) (write : Result → Run Result) (w : GoMap ℤ) (m : GoMap Result)
    → let s : Store = record { results = m; score_plugin_weight = w } in
      MadeOf IsFine m
      → Ensures IsFine (write (current s k))
      → Ensures (Kept k s) (with_result k write s)
Kept-made k write w nil_map h p = absurd h
Kept-made k write w (made l) h p = rw (with_result_made k write w l) (
    Ensures-bind IsFine (Kept k (store_of l w)) (write (current (store_of l w) k)) _ p λ r f.
      record {
        sound = Values-insert IsFine k r (base k l) f (base-IsFine k l h);
        weight = refl;
        elsewhere = λ j n. rw (lookup-insert-base k j r l, n);
      })

with_result-Kept :
    (k : Key) (write : Result → Run Result) (s : Store)
    → IsSound s
    → ((r : Result) → IsFine r → Ensures IsFine (write r))
    → Ensures (Kept k s) (with_result k write s)
with_result-Kept k write s h p =
    Kept-made k write s.score_plugin_weight s.results h (p (current s k) (current-IsFine s k h))

-- A call that returns a value with the property ensures it.
Ensures-of_eq :
    {V : Type 0} (P : V → Type 0) {m : Run V} {v : V} → m ≡ returns v → P v → Ensures P m
Ensures-of_eq P e p = rw e p

-- A recorded text keeps the maps made.
pub record_at-MadeOf :
    (node plugin text : String) (m : GoMap (GoMap String))
    → MadeOf IsMade m
    → Ensures (MadeOf IsMade) (record_at node plugin text m)
record_at-MadeOf node plugin text m h =
    let (t, e, wrote) = record_at-WroteAt node plugin text m h in
    Ensures-of_eq (MadeOf IsMade) e wrote.still_made

post_filter_nodes-MadeOf :
    (nominated plugin : String) (nodes : List String) (m : GoMap (GoMap String))
    → MadeOf IsMade m
    → Ensures (MadeOf IsMade) (post_filter_nodes nominated plugin nodes m)
unfolding post_filter_nodes
post_filter_nodes-MadeOf nominated plugin [] m h = h
post_filter_nodes-MadeOf nominated plugin (node ∷ nodes) m h =
    let (t, e, there) = ensure_node-HasNode node m h in
    let (u, q, wrote) =
      put_at-WroteAt node plugin post_filter_nominated_message t there.still_made there.there in
    rw e (elim (Bool-cases (node == nominated)) [
      | inl hit ↦ rw hit (rw q (post_filter_nodes-MadeOf nominated plugin nodes u wrote.still_made))
      | inr miss ↦ rw miss (post_filter_nodes-MadeOf nominated plugin nodes t there.still_made)
    ])

pub Kept-trans : {k : Key} {s t u : Store} → Kept k s t → Kept k t u → Kept k s u
Kept-trans h g = record {
  sound = g.sound;
  weight = g.weight ∙ h.weight;
  elsewhere = λ j n. g.elsewhere j n ∙ h.elsewhere j n;
}

delete-Kept :
    (k : Key) (w : GoMap ℤ) (m : GoMap Result)
    → MadeOf IsFine m
    → Kept k
        (record { results = m; score_plugin_weight = w })
        (record { results = delete m k; score_plugin_weight = w })
delete-Kept k w nil_map h = absurd h
delete-Kept k w (made l) h = record {
  sound = Values-without IsFine k l h;
  weight = refl;
  elsewhere = λ j n. rw (lookup-without k j l, n);
}

module _ (k : Key) {V : Type 0} (P : GoMap V → Type 0) (m : Result → Run (GoMap V))
    (update : Result → GoMap V → Result) where
  -- A method that writes one field.
  pub field-Kept :
      (s : Store)
      → IsSound s
      → ((r : Result) → IsFine r → Ensures P (m r))
      → ((r : Result) (f : GoMap V) → IsFine r → P f → IsFine (update r f))
      → Ensures (Kept k s) (with_result k (λ r. m r >>= λ f. returns (update r f)) s)
  field-Kept s h p q =
      with_result-Kept k _ s h
        λ r fine. Ensures-bind P IsFine (m r) _ (p r fine) (λ f g. q r f fine g)

normalized-Kept :
    (ns pod node plugin : String) (n : ℤ) (s : Store)
    → IsSound s
    → Ensures
        (Kept (new_key ns pod) s)
        (add_normalized_score_result_without_lock ns pod node plugin n s)
unfolding add_normalized_score_result_without_lock
normalized-Kept ns pod node plugin n s h =
    field-Kept _ (MadeOf IsMade) _ (λ r f. record r { final_score = f }) s h
      (λ r f. record_at-MadeOf node plugin _ r.final_score f.final_score) (λ r f g p. assumption)

scores-Kept :
    (ns pod node plugin : String) (n : ℤ) (s : Store)
    → IsSound s
    → Ensures (Kept (new_key ns pod) s) (add_score_result ns pod node plugin n s)
unfolding add_score_result
scores-Kept ns pod node plugin n s h =
    Ensures-bind (Kept (new_key ns pod) s) (Kept (new_key ns pod) s) _ _
      (field-Kept _ (MadeOf IsMade) _ (λ r f. record r { score = f }) s h
        (λ r f. record_at-MadeOf node plugin _ r.score f.score) (λ r f g p. assumption))
      λ t kept.
        Ensures-mono (Kept (new_key ns pod) t) (Kept (new_key ns pod) s) _
          (λ u g. Kept-trans kept g) (normalized-Kept ns pod node plugin n t kept.sound)

pre_filters-IsFine :
    (plugin reason : String) (names : Option (List String)) (r : Result)
    → IsFine r
    → Ensures IsFine (
        put r.pre_filter_status plugin reason >>= λ status.
        pre_filter_written r status plugin names)
pre_filters-IsFine plugin reason none r f =
    Ensures-bind IsMade IsFine _ _
      (put-IsMade r.pre_filter_status plugin reason f.pre_filter_status) (λ m p. assumption)
pre_filters-IsFine plugin reason (some names) r f =
    Ensures-bind IsMade IsFine _ _
      (put-IsMade r.pre_filter_status plugin reason f.pre_filter_status)
      λ m p.
        Ensures-bind IsMade IsFine _ _
          (put-IsMade r.pre_filter_result plugin names f.pre_filter_result) (λ t q. assumption)

-- A method on a sound store does not panic, leaves a sound store, and changes neither the weights
-- nor the result of another pod.
pub step-Kept :
    (ns pod : String) (c : Call) (s : Store)
    → IsSound s
    → Ensures (Kept (new_key ns pod) s) (step ns pod c s)
unfolding step
step-Kept ns pod (filters node plugin reason) s h =
    field-Kept _ (MadeOf IsMade) _ (λ r f. record r { filter = f }) s h
      (λ r f. record_at-MadeOf node plugin _ r.filter f.filter) (λ r f g p. assumption)
step-Kept ns pod (post_filters node plugin nodes) s h =
    field-Kept _ (MadeOf IsMade) _ (λ r f. record r { post_filter = f }) s h
      (λ r f. post_filter_nodes-MadeOf node plugin nodes r.post_filter f.post_filter)
      (λ r f g p. assumption)
step-Kept ns pod (scores node plugin n) s h = scores-Kept ns pod node plugin n s h
step-Kept ns pod (normalizes node plugin n) s h = normalized-Kept ns pod node plugin n s h
step-Kept ns pod (pre_filters plugin reason names) s h =
    with_result-Kept _ _ s h (pre_filters-IsFine plugin reason names)
step-Kept ns pod (pre_scores plugin reason) s h =
    field-Kept _ IsMade _ (λ r f. record r { pre_score = f }) s h
      (λ r f. put-IsMade r.pre_score plugin reason f.pre_score) (λ r f g p. assumption)
step-Kept ns pod (permits plugin status timeout) s h = with_result-Kept _ _ s h λ r f.
    Ensures-bind IsMade IsFine _ _ (put-IsMade r.permit plugin status f.permit) λ m p.
      Ensures-bind IsMade IsFine _ _ (put-IsMade r.permit_timeout plugin timeout f.permit_timeout)
        (λ t q. assumption)
step-Kept ns pod (selects node) s h =
    with_result-Kept _ (λ r. returns (record r { selected_node = node })) s h (λ r f. assumption)
step-Kept ns pod (reserves plugin status) s h =
    field-Kept _ IsMade _ (λ r f. record r { reserve = f }) s h
      (λ r f. put-IsMade r.reserve plugin status f.reserve) (λ r f g p. assumption)
step-Kept ns pod (binds plugin status) s h =
    field-Kept _ IsMade _ (λ r f. record r { bind = f }) s h
      (λ r f. put-IsMade r.bind plugin status f.bind) (λ r f g p. assumption)
step-Kept ns pod (pre_binds plugin status) s h =
    field-Kept _ IsMade _ (λ r f. record r { prebind = f }) s h
      (λ r f. put-IsMade r.prebind plugin status f.prebind) (λ r f g p. assumption)
step-Kept ns pod (customs key text) s h =
    field-Kept _ IsMade _ (λ r f. record r { custom_results = f }) s h
      (λ r f. put-IsMade r.custom_results key text f.custom_results) (λ r f g p. assumption)
step-Kept ns pod deletes s h = delete-Kept (new_key ns pod) s.score_plugin_weight s.results h

-- The calls of a history name pods other than the key's.
abbrev pub Others : Key → List PodCall → Type 0
Others k [] = Unit
Others k ((ns, pod, c) ∷ calls) = ((new_key ns pod == k) ≡ false) × Others k calls

-- Whatever methods are called, on whatever pods and in whatever order, none panics on a sound store
-- (every map that a method writes to is made), and the store stays sound.
pub run-IsSound : (calls : List PodCall) (s : Store) → IsSound s → Ensures IsSound (run calls s)
unfolding run
run-IsSound [] s h = h
run-IsSound ((ns, pod, c) ∷ calls) s h =
    Ensures-bind (Kept (new_key ns pod) s) IsSound (step ns pod c s) (run calls)
      (step-Kept ns pod c s h) (λ t kept. run-IsSound calls t kept.sound)

-- On a sound store a history of calls on other pods returns, and leaves the pod's result as it was.
pub run-Others :
    (k : Key) (calls : List PodCall) (s : Store)
    → IsSound s
    → Others k calls
    → Ensures (λ t. view t k ≡ view s k) (run calls s)
unfolding run
run-Others k [] s h o = refl
run-Others k ((ns, pod, c) ∷ calls) s h o =
    Ensures-bind (Kept (new_key ns pod) s) (λ t. view t k ≡ view s k) (step ns pod c s) (run calls)
      (step-Kept ns pod c s h)
      λ t kept.
        Ensures-mono (λ u. view u k ≡ view t k) (λ u. view u k ≡ view s k) (run calls t)
          (λ u e. e ∙ kept.elsewhere k o.0) (run-Others k calls t kept.sound o.1)
