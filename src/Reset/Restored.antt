-- ===== src/Reset/Restored.antt =====
-- A reset brings back what the service has read.
use semvi_btp.Common.{
  ◌≡◌, refl, ap, sym, ◌∙◌, subst, String, Bool, true, false, not, Option, none, some, List, [], ◌∷◌,
  map, ◌==◌, if◌then◌else◌, Run, returns, panics, ◌>>=◌, Try, ok, err,
}
use semvi_btp.Common.GoMap.{lookup}
use semvi_btp.Common.Errors.{GoError, wrapped}
use semvi_btp.Snapshot.Apply.{wait, before, with_failure}
use semvi_btp.Reset.Defs.{
  etcd_prefix, Etcd, SchedulerService, store_all, new_reset_service, initial_data, put_task,
  put_failure, reset_with, after_puts, after_delete, reset,
}
use text.Mathlib.Text.{starts_with}
use semvi_btp.Reset.Entries.{
  Distinct, Reorders, first_found, first_found-none, Distinct-store_all, first_found-entry,
  lookup-store_all,
}

-- What is known of etcd: `view` is its content, and the calls do what they say if they do not fail.
pub record IsEtcd {W E : Type 0} (etcd : Etcd W E) (view : W → String → Option String)
    : Type 0 where
  pub gets :
      (w : W) (kvs : List (String × String))
      → etcd.get_with_prefix etcd_prefix w ≡ ok kvs
      → Distinct kvs × ((k : String) → starts_with k etcd_prefix ≡ true → lookup k kvs ≡ view w k)
  pub deletes :
      (w v : W)
      → etcd.delete_with_prefix etcd_prefix w ≡ (v, none)
      → (k : String) → starts_with k etcd_prefix ≡ true
      → view v k ≡ none
  pub puts :
      (w v : W) (k value j : String)
      → etcd.put k value w ≡ (v, none)
      → view v j ≡ (if k == j then some value else view w j)

module _ {W X E : Type 0} (etcd : Etcd W E) (schedulers : SchedulerService X E)
    (order : List (String × String) → List (String × String)) (view : W → String → Option String)
    (laws : IsEtcd etcd view) where
  -- If the puts end without an error, the key has its entry's value, or what it had.
  abbrev Puts :
      String → Option String → List (String × String) → Run (W × Option (GoError E)) → Type 0
  Puts k old kvs (returns (v, none)) = view v k ≡ first_found (lookup k kvs) old
  Puts k old kvs (returns (v, some e)) = Unit
  Puts k old kvs panics = Unit

  Puts-failed :
      (k : String) (old : Option String) (kvs : List (String × String)) (e : GoError E)
      (m : Run (W × Option (GoError E)))
      → Puts k old kvs (m >>= with_failure (some e))
  Puts-failed k old kvs e panics = tt
  Puts-failed k old kvs e (returns r) = tt

  Puts-put :
      (k j value : String) (rest : List (String × String)) (w : W) (t : W × Option E)
      → etcd.put j value w ≡ t
      → lookup j rest ≡ none
      → ((u : W) → Puts k (view u k) rest (wait (map (put_task etcd schedulers order) rest) u))
      → Puts k (view w k) ((j, value) ∷ rest) (
          before
            (put_failure etcd schedulers order j value t)
            (wait (map (put_task etcd schedulers order) rest)))
  Puts-put k j value rest w (u, some e) h alone all =
      Puts-failed k (view w k) ((j, value) ∷ rest) _
        (wait (map (put_task etcd schedulers order) rest) u)
  Puts-put k j value rest w (u, none) h alone all =
      kept (wait (map (put_task etcd schedulers order) rest) u) (all u)
    where
      kept :
          (m : Run (W × Option (GoError E)))
          → Puts k (view u k) rest m
          → Puts k (view w k) ((j, value) ∷ rest) (m >>= with_failure none)
      kept panics p = tt
      kept (returns (v, some e)) p = tt
      kept (returns (v, none)) p =
          p
          ∙ ap (first_found (lookup k rest)) (laws.puts w u j value k h)
          ∙ first_found-entry k j value rest (view w k) alone

  Puts-wait :
      (k : String) (kvs : List (String × String)) (w : W)
      → Distinct kvs
      → Puts k (view w k) kvs (wait (map (put_task etcd schedulers order) kvs) w)
  unfolding wait lookup
  Puts-wait k [] w h = refl
  Puts-wait k ((j, value) ∷ rest) w (alone, h) =
      Puts-put k j value rest w (etcd.put j value w) refl alone (λ u. Puts-wait k rest u h)

  -- If the reset ends without an error, the key has its initial value.
  abbrev Restores : String → Option String → Run (W × X × Option (GoError E)) → Type 0
  Restores k wanted (returns (v, x, none)) = view v k ≡ wanted
  Restores k wanted (returns (v, x, some e)) = Unit
  Restores k wanted panics = Unit

  Restores-after_puts :
      (k : String) (wanted : Option String) (x : X) (kvs : List (String × String))
      (m : Run (W × Option (GoError E)))
      → Puts k none kvs m
      → lookup k kvs ≡ wanted
      → Restores k wanted (m >>= after_puts etcd schedulers order x)
  Restores-after_puts k wanted x kvs panics p same = tt
  Restores-after_puts k wanted x kvs (returns (v, some e)) p same = tt
  Restores-after_puts k wanted x kvs (returns (v, none)) p same =
      by_failure (schedulers.reset_scheduler x)
    where
      by_failure :
          (t : X × Option (GoError E)) → Restores k wanted (reset_with etcd schedulers order v t)
      by_failure (y, none) = p ∙ first_found-none (lookup k kvs) ∙ same
      by_failure (y, some e) = weaken (not (schedulers.is_disabled e))
        where
          weaken :
              (b : Bool)
              → Restores k wanted
                  (returns (v, y, if b then some (wrapped "reset scheduler" e) else none))
          weaken true = tt
          weaken false = p ∙ first_found-none (lookup k kvs) ∙ same

  Restores-after_delete :
      (k : String) (wanted : Option String) (initial : List (String × String)) (w : W) (x : X)
      (t : W × Option E)
      → etcd.delete_with_prefix etcd_prefix w ≡ t
      → starts_with k etcd_prefix ≡ true
      → Distinct (order initial)
      → lookup k (order initial) ≡ wanted
      → Restores k wanted (after_delete etcd schedulers order initial x t)
  Restores-after_delete k wanted initial w x (v, some e) h has distinct same = tt
  Restores-after_delete k wanted initial w x (v, none) h has distinct same =
      let kvs = order initial in
      let m = wait (map (put_task etcd schedulers order) kvs) v in
      Restores-after_puts k wanted x kvs m
        (subst (λ o. Puts k o kvs m) (laws.deletes w v h k has) (Puts-wait k kvs v distinct)) same

  -- A reset that returns no error brings etcd back, at every key with the simulator's prefix, to what
  -- it was when the service was made, whatever happened to it since: the keys that are new are gone
  -- and the others have their old values. In whatever order the data is put, a key is put once; etcd
  -- does what its calls say if they do not fail, and the scheduler's restart does not change it.
  pub reset-restores :
      (first now last : W) (x y : X) (initial : List (String × String))
      → Reorders order
      → new_reset_service etcd schedulers order first ≡ ok initial
      → reset etcd schedulers order initial now x ≡ returns (last, y, none)
      → (k : String) → starts_with k etcd_prefix ≡ true
      → view last k ≡ view first k
  unfolding reset new_reset_service lookup
  reset-restores first now last x y initial reorders made done k has =
      by_read (etcd.get_with_prefix etcd_prefix first) refl made
    where
      by_read :
          (t : Try E (List (String × String)))
          → etcd.get_with_prefix etcd_prefix first ≡ t
          → initial_data etcd schedulers order t ≡ ok initial
          → view last k ≡ view first k
      by_read (err e) h impossible = cc
      by_read (ok kvs) h read =
          let same : store_all kvs [] ≡ initial = cc in
          let (unique, holds) = laws.gets first kvs h in
          let (distinct, keeps) =
            reorders initial (subst Distinct same (Distinct-store_all kvs [] tt)) in
          subst (Restores k (view first k)) done (
            Restores-after_delete k (view first k) initial now x
              (etcd.delete_with_prefix etcd_prefix now) refl has distinct
              (keeps k
                ∙ ap (lookup k) (sym same)
                ∙ lookup-store_all k kvs [] unique
                ∙ first_found-none (lookup k kvs)
                ∙ holds k has))
