-- ===== src/ResultStore/Keys.antt =====
-- Pods have different keys, so their results are kept apart.
use semvi_btp.Common.{◌≡◌, ◌≢◌, refl, ap, sym, ◌∙◌}
use Prim.Native.String.{String, [], ◌∷◌, ◌++◌}
use Prim.Native.Char.{Char}
use text.Mathlib.TextLemmas.{nil-append, cons-append, head-eq_of_cons-eq, tail-eq_of_cons-eq}
use semvi_btp.ResultStore.Defs.{new_key}

abbrev pub slash : Char
slash = "/"

-- The text has no slash, as the name of a namespace has none.
abbrev pub NoSlash : String → Type 0
NoSlash [] = Unit
NoSlash (c ∷ s) = (c ≢ slash) × NoSlash s

nil_key : (pod : String) → ([] ++ "/") ++ pod ≡ slash ∷ pod
nil_key pod =
    ap (λ x. x ++ pod) (nil-append "/")
    ∙ cons-append slash [] pod
    ∙ ap (λ x. slash ∷ x) (nil-append pod)

cons_key : (c : Char) (s pod : String) → ((c ∷ s) ++ "/") ++ pod ≡ c ∷ ((s ++ "/") ++ pod)
cons_key c s pod = ap (λ x. x ++ pod) (cons-append c s "/") ∙ cons-append c (s ++ "/") pod

key_parts :
    (n m p q : String)
    → NoSlash n
    → NoSlash m
    → (n ++ "/") ++ p ≡ (m ++ "/") ++ q
    → (n ≡ m) × (p ≡ q)
key_parts [] [] p q h g e = (refl, tail-eq_of_cons-eq (sym (nil_key p) ∙ e ∙ nil_key q))
key_parts [] (c ∷ m) p q h g e =
    absurd (g.0 (sym (head-eq_of_cons-eq (sym (nil_key p) ∙ e ∙ cons_key c m q))))
key_parts (c ∷ n) [] p q h g e =
    absurd (h.0 (head-eq_of_cons-eq (sym (cons_key c n p) ∙ e ∙ nil_key q)))
key_parts (c ∷ n) (d ∷ m) p q h g e =
    let same = sym (cons_key c n p) ∙ e ∙ cons_key d m q in
    let (rest, pods) = key_parts n m p q h.1 g.1 (tail-eq_of_cons-eq same) in
    (ap (λ (x : Char × String). x.0 ∷ x.1) (λ i. (head-eq_of_cons-eq same i, rest i)), pods)

-- Two pods with one key have the same namespace and the same name, if the namespaces have no slash.
pub new_key-injective :
    (namespace other_namespace pod other_pod : String)
    → NoSlash namespace
    → NoSlash other_namespace
    → new_key namespace pod ≡ new_key other_namespace other_pod
    → (namespace ≡ other_namespace) × (pod ≡ other_pod)
unfolding new_key
new_key-injective namespace other_namespace pod other_pod h g e =
    key_parts namespace other_namespace pod other_pod h g e
