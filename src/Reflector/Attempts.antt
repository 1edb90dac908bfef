-- ===== src/Reflector/Attempts.antt =====
-- When the handler writes the results on the pod and the stores forget them.
use semvi_btp.Common.{
  ◌≡◌, refl, ap, sym, ◌∙◌, subst, ℕ, zero, suc, ◌≤◌, Bool, true, false, Option, none, some, ◌⊎◌,
  inl, inr, Try, ok, err, arith,
}
use semvi_btp.Common.Errors.{GoError}
use semvi_btp.Reflector.Defs.{Pod, ResultStore, World, Client, delete_all}
use semvi_btp.Reflector.History.{Json}
use semvi_btp.Reflector.Handler.{
  Backoff, retry_backoff, Attempt, Condition, ExponentialBackoff, retry_with_exponential_back_off,
  update_func, after_retry, store_all_result_to_pod,
}

module _ {P E : Type 0} where
  abbrev pub repeated :
      P × Try (GoError E) Bool → (P → P × Option (GoError E)) → P × Option (GoError E)
  repeated (q, err e) again = (q, some e)
  repeated (q, ok true) again = (q, none)
  repeated (q, ok false) again = again q

  -- What ExponentialBackoff is documented to do, without the sleeps: it calls the condition up to
  -- so many times, until it holds or fails.
  unfoldable pub repeat : GoError E → ℕ → Condition P E → P → P × Option (GoError E)
  repeat timed_out zero fn p = (p, some timed_out)
  repeat timed_out (suc n) fn p = repeated (fn p) (repeat timed_out n fn)

  abbrev pub RepeatsUpToSteps : GoError E → ExponentialBackoff P E → Type 0
  RepeatsUpToSteps timed_out exponential_backoff =
      (b : Backoff) (fn : Condition P E) (p : P)
      → exponential_backoff b fn p ≡ repeat timed_out b.steps fn p

  -- The condition does not hold at n - 1 calls in a row, and holds at the next.
  pub data Settles (fn : Condition P E) : ℕ → P → P → Type 0 where
    settled : {p q : P} → fn p ≡ (q, ok true) → Settles fn 1 p q
    unsettled :
        {n : ℕ} {p q r : P} → fn p ≡ (q, ok false) → Settles fn n q r → Settles fn (suc n) p r

  -- The calls of a repetition that ends without success: so many at most, each of which does not
  -- hold, but for a last one that may fail. It ends where the last of them left off.
  pub data Fails (fn : Condition P E) : ℕ → P → P → Type 0 where
    exhausted : {p : P} → Fails fn 0 p p
    gave_up : {n : ℕ} {p q : P} (e : GoError E) → fn p ≡ (q, err e) → Fails fn (suc n) p q
    unfinished : {n : ℕ} {p q r : P} → fn p ≡ (q, ok false) → Fails fn n q r → Fails fn (suc n) p r

  -- The result of the repetition: it holds at one of the calls, or at none, and is then where the
  -- last call left off.
  abbrev Repeated : Condition P E → ℕ → P → P × Option (GoError E) → Type 0
  Repeated fn n p (q, none) = (m : ℕ) × (m ≤ n) × Settles fn m p q
  Repeated fn n p (q, some e) = Fails fn n p q × ((m : ℕ) (r : P) → m ≤ n → Settles fn m p r → ⊥)

  never_settles :
      (fn : Condition P E) (m : ℕ) (p q r : P) (e : GoError E)
      → fn p ≡ (q, err e)
      → Settles fn m p r
      → ⊥
  never_settles fn m p q r e h (settled s) = cc
  never_settles fn m p q r e h (unsettled s rest) = cc

  settles_later :
      (fn : Condition P E) (n m : ℕ) (p q r : P)
      → fn p ≡ (q, ok false)
      → ((k : ℕ) → k ≤ n → Settles fn k q r → ⊥)
      → m ≤ suc n
      → Settles fn m p r
      → ⊥
  settles_later fn n m p q r h none_later le (settled s) = cc
  settles_later fn n m p q r h none_later le (unsettled {n = k} {q = next} s rest) =
      none_later k (omega (arith, le))
        (subst (λ x. Settles fn k x r) (ap (λ x. x.0) (sym s ∙ h)) rest)

  repeated-Repeated :
      (timed_out : GoError E) (n : ℕ) (fn : Condition P E) (p : P) (t : P × Try (GoError E) Bool)
      → fn p ≡ t
      → ((q : P) → Repeated fn n q (repeat timed_out n fn q))
      → Repeated fn (suc n) p (repeated t (repeat timed_out n fn))
  repeated-Repeated timed_out n fn p (q, err e) h all =
      (gave_up e h, λ m r le s. never_settles fn m p q r e h s)
  repeated-Repeated timed_out n fn p (q, ok true) h all = (1, omega arith, settled h)
  repeated-Repeated timed_out n fn p (q, ok false) h all = later (repeat timed_out n fn q) (all q)
    where
      later : (t : P × Option (GoError E)) → Repeated fn n q t → Repeated fn (suc n) p t
      later (r, none) (m, le, s) = (suc m, omega (arith, le), unsettled h s)
      later (r, some e) (fails, none_later) = (
        unfinished h fails,
        λ m r le s. settles_later fn n m p q r h (λ k less. none_later k r less) le s,
      )

  no_attempts : (fn : Condition P E) (m : ℕ) (p r : P) → m ≤ 0 → Settles fn m p r → ⊥
  no_attempts fn m p r le (settled s) = absurd (omega (arith, le))
  no_attempts fn m p r le (unsettled s rest) = absurd (omega (arith, le))

  repeat-Repeated :
      (timed_out : GoError E) (n : ℕ) (fn : Condition P E) (p : P)
      → Repeated fn n p (repeat timed_out n fn p)
  unfolding repeat
  repeat-Repeated timed_out zero fn p = (exhausted, λ m r le s. no_attempts fn m p r le s)
  repeat-Repeated timed_out (suc n) fn p =
      repeated-Repeated timed_out n fn p (fn p) refl (repeat-Repeated timed_out n fn)

module _ {W S R E : Type 0} (store : ResultStore S R) (json : Json E) (client : Client W S R E)
    (exponential_backoff : ExponentialBackoff (Attempt W S R) E) where
  abbrev pub start : Pod R → World W S → Attempt W S R
  start pod world = record { pod = pod; world = world }

  abbrev pub handle_pod : Pod R → World W S → World W S
  handle_pod pod world =
      store_all_result_to_pod store json client exponential_backoff (some pod) world

  handled :
      (pod : Pod R) (world : World W S) (t : Attempt W S R × Option (GoError E))
      → Repeated (update_func store json client) 6 (start pod world) t
      → ((n : ℕ) × (c : Attempt W S R) × (n ≤ 6)
          × Settles (update_func store json client) n (start pod world) c
          × (after_retry store json client t ≡ record {
            cluster = c.world.cluster;
            stores = delete_all store c.pod c.world.stores;
          }))
        ⊎ ((c : Attempt W S R) × Fails (update_func store json client) 6 (start pod world) c
            × (after_retry store json client t ≡ c.world)
            × ((n : ℕ) (d : Attempt W S R)
                → n ≤ 6
                → Settles (update_func store json client) n (start pod world) d
                → ⊥))
  unfolding delete_all
  handled pod world (c, none) (n, le, s) = inl (n, c, le, s, refl)
  handled pod world (c, some e) (fails, never) = inr (c, fails, refl, never)

  -- The handler makes six attempts at most. If one of them settles the pod, the world is as that
  -- attempt left it, but that the stores have forgotten the results of the pod as it read it. Else
  -- the attempts end at the first that returns an error, or after six that do not settle the pod, and
  -- the world, its cluster and its stores, is exactly as the last of them left it: no results are
  -- deleted after it. ExponentialBackoff calls its condition up to the given number of steps.
  pub store_all_result_to_pod-cases :
      (timed_out : GoError E)
      → RepeatsUpToSteps timed_out exponential_backoff
      → (pod : Pod R) (world : World W S)
      → ((n : ℕ) × (c : Attempt W S R) × (n ≤ 6)
          × Settles (update_func store json client) n (start pod world) c
          × (handle_pod pod world ≡ record {
            cluster = c.world.cluster;
            stores = delete_all store c.pod c.world.stores;
          }))
        ⊎ ((c : Attempt W S R) × Fails (update_func store json client) 6 (start pod world) c
            × (handle_pod pod world ≡ c.world)
            × ((n : ℕ) (d : Attempt W S R)
                → n ≤ 6
                → Settles (update_func store json client) n (start pod world) d
                → ⊥))
  unfolding store_all_result_to_pod retry_with_exponential_back_off
  store_all_result_to_pod-cases timed_out repeats pod world =
      let fn = update_func store json client in
      rw (repeats retry_backoff fn (start pod world)) (
        handled pod world (repeat timed_out 6 fn (start pod world))
          (repeat-Repeated timed_out 6 fn (start pod world)))
