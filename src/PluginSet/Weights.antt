-- ===== src/PluginSet/Weights.antt =====
-- The weights that `getScorePluginWeight` hands to the result store.
use semvi_btp.Common.{
  ◌≡◌, refl, ap, sym, ◌∙◌, ◌≢◌, suc, zero, String, Option, none, some, List, [], ◌∷◌, ◌++◌, ◌==◌,
  arith, if◌then◌else◌, Bool-cases, inl, inr,
}
use semvi_btp.Common.GoMap.{
  get, lookup, insert, lookup-insert, Values, Values-insert, Values-lookup,
}
use semvi_btp.Common.Int.{ℤ, pos, negsuc, pos_part, neg_part}
use semvi_btp.WrappedPlugin.Plugin.{plugin_suffix}
use semvi_btp.PluginSet.Defs.{Plugin, Plugins, add_weights, get_score_plugin_weight, or_one}
use semvi_btp.PluginSet.Trim.{trim_suffix}

-- The first value, or the second where there is no first.
abbrev pub or_else : Option ℤ → Option ℤ → Option ℤ
or_else none b = b
or_else (some a) b = some a

-- The weight of the last plugin whose trimmed name is `n`.
abbrev pub last_weight : List Plugin → String → Option ℤ
last_weight [] n = none
last_weight (p ∷ ps) n =
    or_else (last_weight ps n)
      (if trim_suffix p.name plugin_suffix == n then some (or_one p.weight) else none)

or_else_assoc : (a b c : Option ℤ) → or_else (or_else a b) c ≡ or_else a (or_else b c)
or_else_assoc none b c = refl
or_else_assoc (some a) b c = refl

insert-or_else :
    (k n : String) (v : ℤ) (m : List (String × ℤ))
    → lookup n (insert k v m) ≡ or_else (if k == n then some v else none) (lookup n m)
insert-or_else k n v m = elim (Bool-cases (k == n)) [
  | inl e ↦ lookup-insert k n v m ∙ rw e refl
  | inr e ↦ lookup-insert k n v m ∙ rw e refl
]

lookup-add_weights :
    (ps : List Plugin) (m : List (String × ℤ)) (n : String)
    → lookup n (add_weights ps m) ≡ or_else (last_weight ps n) (lookup n m)
unfolding add_weights
lookup-add_weights [] m n = refl
lookup-add_weights (p ∷ ps) m n =
    lookup-add_weights ps (insert (trim_suffix p.name plugin_suffix) (or_one p.weight) m) n
    ∙ ap (or_else (last_weight ps n)) (insert-or_else _ n (or_one p.weight) m)
    ∙ sym (or_else_assoc (last_weight ps n) _ (lookup n m))

or_else-none : (a : Option ℤ) → or_else a none ≡ a
or_else-none none = refl
or_else-none (some a) = refl

last_weight-append :
    (ps qs : List Plugin) (n : String)
    → last_weight (ps ++ qs) n ≡ or_else (last_weight qs n) (last_weight ps n)
last_weight-append [] qs n = sym (or_else-none (last_weight qs n))
last_weight-append (p ∷ ps) qs n =
    let own = if trim_suffix p.name plugin_suffix == n then some (or_one p.weight) else none in
    ap (λ x. or_else x own) (last_weight-append ps qs n)
    ∙ or_else_assoc (last_weight qs n) (last_weight ps n) own

-- The weight of a plugin is that of the last entry for it among the MultiPoint plugins, and only
-- where these have none that of the last entry among the Score plugins; names are compared without
-- the suffix that the wrapper adds. No entry gives no weight.
pub get-get_score_plugin_weight :
    (pls : Plugins) (n : String)
    → get (get_score_plugin_weight pls) n
      ≡ or_else (last_weight pls.multi_point.enabled n) (last_weight pls.score.enabled n)
unfolding get_score_plugin_weight lookup
get-get_score_plugin_weight pls n =
    lookup-add_weights (pls.score.enabled ++ pls.multi_point.enabled) [] n
    ∙ or_else-none (last_weight (pls.score.enabled ++ pls.multi_point.enabled) n)
    ∙ last_weight-append pls.score.enabled pls.multi_point.enabled n

or_one-nonzero : (a : ℤ) → or_one a ≢ pos 0
or_one-nonzero (pos zero) = λ e. let q = ap pos_part e in omega arith
or_one-nonzero (pos (suc n)) = λ e. let q = ap pos_part e in grind arith
or_one-nonzero (negsuc n) = λ e. let q = ap neg_part e in omega arith

add_weights-nonzero :
    (ps : List Plugin) (m : List (String × ℤ))
    → Values (λ v. v ≢ pos 0) m
    → Values (λ v. v ≢ pos 0) (add_weights ps m)
unfolding add_weights
add_weights-nonzero [] m h = h
add_weights-nonzero (p ∷ ps) m h =
    add_weights-nonzero ps _
      (Values-insert (λ v. v ≢ pos 0) _ (or_one p.weight) m (or_one-nonzero p.weight) h)

-- No weight that the result store is given is zero, whatever the configuration says.
pub get_score_plugin_weight-nonzero :
    (pls : Plugins) (n : String) (v : ℤ) → get (get_score_plugin_weight pls) n ≡ some v → v ≢ pos 0
unfolding get_score_plugin_weight
get_score_plugin_weight-nonzero pls n v e =
    Values-lookup (λ v. v ≢ pos 0) n _
      (add_weights-nonzero (pls.score.enabled ++ pls.multi_point.enabled) [] tt) e
