-- ===== src/ResultStore/Nodes.antt =====
-- Writes to a map of maps, node name to plugin name to text.
use semvi_btp.Common.{
  ◌≡◌, refl, String, Option, none, some, List, [], true, ◌&&◌, inl, inr, returns, ◌==◌, eq_refl,
  eq_iff, arith, if◌then◌else◌, Option-cases,
}
use semvi_btp.Common.GoMap.{
  GoMap, nil_map, made, get, has, lookup, insert, lookup-insert, IsMade, MadeOf, Values-insert,
  Values-lookup,
}
use semvi_btp.ResultStore.Calls.{ensure_node, put_at, record_at}

abbrev pub text_in : Option (GoMap String) → String → Option String
text_in none plugin = none
text_in (some inner) plugin = get inner plugin

-- The text at a node and a plugin.
abbrev pub text_at : GoMap (GoMap String) → String → String → Option String
text_at m node plugin = text_in (get m node) plugin

abbrev pub Plain : Type 0
Plain = List (String × GoMap String)

module _ (node : String) (l : Plain) where
  pub ensure_node_missing :
      lookup node l ≡ none → ensure_node node (made l) ≡ returns (made (insert node (made []) l))
  unfolding ensure_node
  ensure_node_missing e = ground arith

  pub ensure_node_found :
      (inner : GoMap String)
      → lookup node l ≡ some inner
      → ensure_node node (made l) ≡ returns (made l)
  unfolding ensure_node
  ensure_node_found inner e = ground arith

  pub put_at_found :
      (plugin text : String) (i : List (String × String))
      → lookup node l ≡ some (made i)
      → put_at node plugin text (made l)
        ≡ returns (made (insert node (made (insert plugin text i)) l))
  unfolding put_at
  put_at_found plugin text i e = ground arith

-- The map after a write of a text, and everything else as it was.
pub record WroteAt (node plugin text : String) (m t : GoMap (GoMap String)) : Type 0 where
  pub still_made : MadeOf IsMade t
  pub texts :
      (n p : String)
      → text_at t n p ≡ (if (node == n) && (plugin == p) then some text else text_at m n p)
  pub nodes : (n : String) → has t n ≡ (if node == n then true else has m n)

-- The map after `ensure_node`.
pub record HasNode (node : String) (m t : GoMap (GoMap String)) : Type 0 where
  pub still_made : MadeOf IsMade t
  pub there : has t node ≡ true
  pub texts : (n p : String) → text_at t n p ≡ text_at m n p
  pub nodes : (n : String) → has t n ≡ (if node == n then true else has m n)

lookup_nil : (p : String) → lookup {V = String} p [] ≡ none
unfolding lookup
lookup_nil p = refl

pub ensure_node-HasNode :
    (node : String) (m : GoMap (GoMap String))
    → MadeOf IsMade m
    → (t : GoMap (GoMap String)) × (ensure_node node m ≡ returns t) × HasNode node m t
ensure_node-HasNode node nil_map h = absurd h
ensure_node-HasNode node (made l) h = elim (Option-cases (lookup node l)) [
  | inl e ↦ (
    made (insert node (made []) l),
    ensure_node_missing node l e,
    record {
      still_made = Values-insert IsMade node (made []) l tt h;
      there = simp (lookup-insert, eq_refl);
      texts = λ n p. simp lookup-insert (ground (arith, eq_iff node n, lookup_nil p));
      nodes = λ n. simp lookup-insert (ground (arith, eq_iff node n));
    },
  )
  | inr (inner, e) ↦ (
    made l,
    ensure_node_found node l inner e,
    record {
      still_made = h;
      there = ground arith;
      texts = λ n p. refl;
      nodes = λ n. ground (arith, eq_iff node n);
    },
  )
]

pub put_at-WroteAt :
    (node plugin text : String) (m : GoMap (GoMap String))
    → MadeOf IsMade m
    → has m node ≡ true
    → (t : GoMap (GoMap String)) × (put_at node plugin text m ≡ returns t)
      × WroteAt node plugin text m t
put_at-WroteAt node plugin text nil_map h e = absurd h
put_at-WroteAt node plugin text (made l) h e = elim (Option-cases (lookup node l)) [
  | inl q ↦ ground arith
  | inr (nil_map, q) ↦ absurd (Values-lookup IsMade node l h q)
  | inr (made i, q) ↦ (
    made (insert node (made (insert plugin text i)) l),
    put_at_found node l plugin text i q,
    record {
      still_made = Values-insert IsMade node (made (insert plugin text i)) l tt h;
      texts = λ n p.
          simp lookup-insert
            (ground (arith, eq_iff node n, eq_iff plugin p, lookup-insert plugin p text i));
      nodes = λ n. simp lookup-insert (ground (arith, eq_iff node n));
    },
  )
]

-- A recorded text is read back, and no other text changes.
pub record_at-WroteAt :
    (node plugin text : String) (m : GoMap (GoMap String))
    → MadeOf IsMade m
    → (t : GoMap (GoMap String)) × (record_at node plugin text m ≡ returns t)
      × WroteAt node plugin text m t
unfolding record_at
record_at-WroteAt node plugin text m h =
    let (u, e, there) = ensure_node-HasNode node m h in
    let (t, q, wrote) = put_at-WroteAt node plugin text u there.still_made there.there in
    (
      t,
      rw e q,
      record {
        still_made = wrote.still_made;
        texts = λ n p. ground (arith, wrote.texts n p, there.texts n p);
        nodes = λ n. ground (arith, wrote.nodes n, there.nodes n);
      },
    )
