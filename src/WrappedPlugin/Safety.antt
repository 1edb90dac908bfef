-- ===== src/WrappedPlugin/Safety.antt =====
-- No method of a wrapped plugin panics in the result store, whatever the original plugins and the
-- extenders do.
use semvi_btp.Common.{
  String, Bool, true, false, Run, returns, panics, Ensures, Ensures-mono, if◌then◌else◌,
}
use semvi_btp.ResultStore.{Store, new_key}
use semvi_btp.ResultStore.Calls.{Call, step, run}
use semvi_btp.ResultStore.Safety.{IsSound, Kept, step-Kept, run-IsSound}
use semvi_btp.WrappedPlugin.Action.{
  World, Action, Hook, pure, original, hook, record_call, custom_calls, stored_as, continue, ◌>>=◌,
}

module _ {E : Type 0} where
  abbrev pub IsSoundAfter : {A : Type 0} → A × World E → Type 0
  IsSoundAfter r = IsSound r.1.store

  -- On a sound store the action does not panic, and leaves a sound store.
  pub record Safe {A : Type 0} (m : Action E A) : Type 0 where
    pub at : (w : World E) → IsSound w.store → Ensures IsSoundAfter (m w)

  pub Safe-pure : {A : Type 0} (a : A) → Safe (pure a)
  unfolding pure
  Safe-pure a = record { at = λ w h. h }

  pub Safe-original : {A : Type 0} (f : E → A × E) → Safe (original f)
  unfolding original
  Safe-original f = record { at = λ w h. h }

  stored_as-IsSound :
      {A : Type 0} (a : A) (e : E) (m : Run Store)
      → Ensures IsSound m
      → Ensures IsSoundAfter (stored_as a e m)
  stored_as-IsSound a e (returns s) h = h
  stored_as-IsSound a e panics h = h

  pub Safe-record : (ns pod : String) (c : Call) → Safe (record_call ns pod c)
  unfolding record_call
  Safe-record ns pod c = record {
    at = λ w h. stored_as-IsSound tt w.env (step ns pod c w.store) (
        Ensures-mono (Kept (new_key ns pod) w.store) IsSound _ (λ t k. k.sound)
          (step-Kept ns pod c w.store h));
  }

  pub Safe-hook : {A : Type 0} (f : Hook E A) → Safe (hook f)
  unfolding hook
  Safe-hook f = record {
    at = λ w h.
        let (a, e, cs) = f w.env in
        stored_as-IsSound a e (run (custom_calls cs) w.store)
          (run-IsSound (custom_calls cs) w.store h);
  }

  continue-IsSound :
      {A B : Type 0} (r : Run (A × World E)) (f : A → Action E B)
      → Ensures IsSoundAfter r
      → ((a : A) → Safe (f a))
      → Ensures IsSoundAfter (continue r f)
  continue-IsSound (returns (a, w)) f h k = (k a).at w h
  continue-IsSound panics f h k = h

  pub Safe-bind :
      {A B : Type 0} (m : Action E A) (f : A → Action E B)
      → Safe m
      → ((a : A) → Safe (f a))
      → Safe (m >>= f)
  unfolding ◌>>=◌
  Safe-bind m f k l = record { at = λ w h. continue-IsSound (m w) f (k.at w h) l }

  pub Safe-original_then :
      {A B : Type 0} (f : E → A × E) (k : A → Action E B)
      → ((e : E) → Safe (k (f e).0))
      → Safe (original f >>= k)
  unfolding ◌>>=◌ original
  Safe-original_then f k h = record { at = λ w g. (h w.env).at (record w { env = (f w.env).1 }) g }

  pub Safe-if :
      {A : Type 0} (b : Bool) (m n : Action E A) → Safe m → Safe n → Safe (if b then m else n)
  Safe-if true m n k l = k
  Safe-if false m n k l = l

pub ruleset safe_rules = (Safe-pure, Safe-original, Safe-record, Safe-hook, Safe-bind, Safe-if)
