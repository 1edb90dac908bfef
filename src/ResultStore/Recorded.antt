-- ===== src/ResultStore/Recorded.antt =====
-- What a method that records a text in one field of a result leaves.
use semvi_btp.Common.{
  ◌≡◌, refl, ap, sym, subst, ◌∙◌, String, Bool, true, ◌&&◌, Option, some, inl, inr, Run, returns,
  ◌>>=◌, ◌==◌, eq_iff, if◌then◌else◌, Bool-cases, Ensures,
}
use semvi_btp.Common.GoMap.{GoMap, nil_map, IsMade, MadeOf}
use semvi_btp.ResultStore.Defs.{Key, Result, Store, new_key, with_result}
use semvi_btp.ResultStore.Writes.{current, or_new, with_result-Wrote, Wrote}
use semvi_btp.ResultStore.Nodes.{text_at, WroteAt, record_at-WroteAt}
use semvi_btp.ResultStore.Safety.{IsSound, Kept, step-Kept, IsSound-IsMade}
use semvi_btp.ResultStore.Calls.{Call, step, record_at}

-- A result but for its scores and final scores, which are left out.
abbrev pub without_scores : Result → Result
without_scores r = record r { score = nil_map; final_score = nil_map }

-- Two stores with the same results of all pods but for scores and final scores, and the same weights.
abbrev pub SameButScores : Store → Store → Type 0
SameButScores s t =
    ((j : Key) → without_scores (current t j) ≡ without_scores (current s j))
    × (t.score_plugin_weight ≡ s.score_plugin_weight)

-- The texts that the store has for a pod, empty where it has no result.
abbrev pub filter_text : Store → Key → String → String → Option String
filter_text s k node plugin = text_at (current s k).filter node plugin

abbrev pub score_text : Store → Key → String → String → Option String
score_text s k node plugin = text_at (current s k).score node plugin

abbrev pub final_text : Store → Key → String → String → Option String
final_text s k node plugin = text_at (current s k).final_score node plugin

-- One more text, at the pod, the node and the plugin.
abbrev pub with_text :
    (Key → String → String → Option String)
    → Key
    → String
    → String
    → String
    → Key
    → String
    → String
    → Option String
with_text texts k node plugin text j n p =
    if (k == j) && ((node == n) && (plugin == p)) then some text else texts j n p

pub current-Wrote :
    (k j : Key) (r : Result) (s t : Store)
    → Wrote k r s t
    → current t j ≡ (if k == j then r else current s j)
current-Wrote k j r s t w = elim (Bool-cases (k == j)) [
  | inl e ↦ ap or_new (w.views j) ∙ rw e refl
  | inr e ↦ ap or_new (w.views j) ∙ rw e refl
]

module _ (k : Key) (node plugin text : String) (field : Result → GoMap (GoMap String)) where
  Wrote-field :
      (s t : Store) (r : Result) (m : GoMap (GoMap String))
      → WroteAt node plugin text (field (current s k)) m
      → field r ≡ m
      → Wrote k r s t
      → (j : Key) (n p : String)
      → text_at (field (current t j)) n p
        ≡ with_text (λ j. text_at (field (current s j))) k node plugin text j n p
  Wrote-field s t r m at e w j n p =
      let before = λ (i : Key). text_at (field (current s i)) n p in
      let answer = λ (b : Bool) (i : Key).
        if b && ((node == n) && (plugin == p)) then some text else before i in
      let now = current-Wrote k j r s t w in
      elim (Bool-cases (k == j)) [
        | inl q ↦
            ap (λ x. text_at (field x) n p) (now ∙ ap (λ b. if b then r else current s j) q)
            ∙ ap (λ x. text_at x n p) e
            ∙ at.texts n p
            ∙ ap (answer true) ((eq_iff k j).0 q)
            ∙ ap (λ b. answer b j) (sym q)
        | inr q ↦
            ap (λ x. text_at (field x) n p) (now ∙ ap (λ b. if b then r else current s j) q)
            ∙ ap (λ b. answer b j) (sym q)
      ]

-- A write keeps a field that the new result has as the old one.
pub kept_field :
    {A : Type 0} (k : Key) (field : Result → A) (s t : Store) (r : Result)
    → field r ≡ field (current s k)
    → Wrote k r s t
    → (j : Key) → field (current t j) ≡ field (current s j)
kept_field k field s t r e w j =
    let now = current-Wrote k j r s t w in
    elim (Bool-cases (k == j)) [
      | inl q ↦
          ap field (now ∙ ap (λ b. if b then r else current s j) q)
          ∙ e
          ∙ ap (λ i. field (current s i)) ((eq_iff k j).0 q)
      | inr q ↦ ap field (now ∙ ap (λ b. if b then r else current s j) q)
    ]

-- A method that records a text in a field.
pub record Recorded (k : Key) (node plugin text : String) (field : Result → GoMap (GoMap String))
    (update : Result → GoMap (GoMap String) → Result) (s t : Store) : Type 0 where
  pub wrote_to : GoMap (GoMap String)
  pub wrote : Wrote k (update (current s k) wrote_to) s t
  pub texts :
      (j : Key) (n p : String)
      → text_at (field (current t j)) n p
        ≡ with_text (λ i. text_at (field (current s i))) k node plugin text j n p

module _ (k : Key) (node plugin text : String) (field : Result → GoMap (GoMap String))
    (update : Result → GoMap (GoMap String) → Result)
    (read_back : (r : Result) (m : GoMap (GoMap String)) → field (update r m) ≡ m) where
  abbrev pub write : Result → Run Result
  write r = record_at node plugin text (field r) >>= λ m. returns (update r m)

  pub record_step :
      (s : Store)
      → IsSound s
      → MadeOf IsMade (field (current s k))
      → (t : Store) × (with_result k write s ≡ returns t)
        × Recorded k node plugin text field update s t
  record_step s h made_field =
      let (m, e, at) = record_at-WroteAt node plugin text (field (current s k)) made_field in
      let r = update (current s k) m in
      let (t, q, w) = with_result-Wrote k write s r (IsSound-IsMade s.results h) (rw e refl) in
      (
        t,
        q,
        record {
          wrote_to = m;
          wrote = w;
          texts = Wrote-field k node plugin text field s t r m at (read_back (current s k) m) w;
        },
      )

pub IsSound-after :
    (ns pod : String) (c : Call) (s t : Store) → IsSound s → step ns pod c s ≡ returns t → IsSound t
IsSound-after ns pod c s t h e =
    (subst (Ensures (Kept (new_key ns pod) s)) e (step-Kept ns pod c s h)).sound

abbrev pub set_filter : Result → GoMap (GoMap String) → Result
set_filter r m = record r { filter = m }

abbrev pub set_score : Result → GoMap (GoMap String) → Result
set_score r m = record r { score = m }

abbrev pub set_final : Result → GoMap (GoMap String) → Result
set_final r m = record r { final_score = m }
