-- ===== src/Reset/Tests.antt =====
-- An etcd of one key, which refuses to write any other.
use semvi_btp.Common.{
  ◌≡◌, refl, ap, sym, ◌∙◌, subst, String, Bool, true, false, Option, none, some, List, [], ◌∷◌,
  ◌==◌, eq_iff, if◌then◌else◌, ok,
}
use semvi_btp.Common.GoMap.{lookup, insert}
use semvi_btp.Common.Errors.{message}
use semvi_btp.Snapshot.Apply.{wait}
use semvi_btp.Reset.Defs.{Etcd, SchedulerService, store_all, new_reset_service, reset}
use semvi_btp.Reset.Entries.{Distinct, Reorders}
use semvi_btp.Reset.Restored.{IsEtcd, reset-restores}

abbrev key : String
key = "/kube-scheduler-simulator/pods/web"

abbrev entries_of : Option String → List (String × String)
entries_of none = []
entries_of (some v) = (key, v) ∷ []

abbrev written : Bool → String → Option String → Option String × Option String
written true v w = (some v, none)
written false v w = (w, some "no space")

abbrev etcd : Etcd (Option String) String
etcd = record {
  get_with_prefix = λ prefix w. ok (entries_of w);
  delete_with_prefix = λ prefix w. (none, none);
  put = λ k v w. written (k == key) v w;
}

abbrev view : Option String → String → Option String
view w k = if key == k then w else none

abbrev schedulers : SchedulerService Unit String
schedulers = record {
  reset_scheduler = λ x. (x, some (message "scheduler service is disabled"));
  is_disabled = λ e. true;
}

abbrev in_order : List (String × String) → List (String × String)
in_order m = m

in_order-Reorders : Reorders in_order
in_order-Reorders m h = (h, λ k. refl)

nothing_left : (b : Bool) → ◌≡◌ {A = Option String} (if b then none else none) none
nothing_left true = refl
nothing_left false = refl

overwritten :
    (b : Bool) (v : String) (w : Option String)
    → (if b then some v else none) ≡ (if b then some v else if b then w else none)
overwritten true v w = refl
overwritten false v w = refl

entries-lookup : (w : Option String) (k : String) → lookup k (entries_of w) ≡ view w k
unfolding lookup
entries-lookup none k = sym (nothing_left (key == k))
entries-lookup (some v) k = refl

entries-Distinct : (w : Option String) → Distinct (entries_of w)
unfolding lookup
entries-Distinct none = tt
entries-Distinct (some v) = (refl, tt)

put-view :
    (k value j : String) (w v : Option String) (b : Bool)
    → (k == key) ≡ b
    → written b value w ≡ (v, none)
    → view v j ≡ (if k == j then some value else view w j)
put-view k value j w v true e h =
    subst (λ x. view v j ≡ (if x == j then some value else view w j)) (sym ((eq_iff k key).0 e))
      (ap (λ o. view o j) (sym (ap (λ x. x.0) h)) ∙ overwritten (key == j) value w)
put-view k value j w v false e h = absurd cc

etcd-IsEtcd : IsEtcd etcd view
etcd-IsEtcd = record {
  gets = λ w kvs h.
      let same : entries_of w ≡ kvs = cc in
      (
        subst Distinct same (entries-Distinct w),
        λ k has. ap (lookup k) (sym same) ∙ entries-lookup w k,
      );
  deletes = λ w v h k has. ap (λ o. view o k) (sym (ap (λ x. x.0) h)) ∙ nothing_left (key == k);
  puts = λ w v k value j h. put-view k value j w v (k == key) refl h;
}

-- The pod was changed since: the reset brings its first value back.
reset-restores_example : view (some "web-1") key ≡ some "web-1"
unfolding new_reset_service store_all insert reset wait
reset-restores_example =
    reset-restores etcd schedulers in_order view etcd-IsEtcd (some "web-1") (some "web-2")
      (some "web-1") tt tt ((key, "web-1") ∷ []) in_order-Reorders refl refl key refl
