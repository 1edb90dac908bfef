-- ===== src/PluginSet/Trim.antt =====
-- strings.TrimSuffix of Go's library.
use semvi_btp.Common.{◌≢◌, eq-false_of_ne, ◌≡◌, refl, ap, ◌∙◌, ◌==◌, eq_refl, arith, if◌then◌else◌}
use Prim.Native.String.{String, [], ◌∷◌, ◌++◌, count}
use Prim.Native.Char.{Char}
use text.Mathlib.TextLemmas.{nil-append, cons-append, length-cons, length-append}

unfoldable pub trim_suffix : String → String → String
trim_suffix [] suffix = []
trim_suffix (c ∷ s) suffix =
    let rest = trim_suffix s suffix in if (c ∷ s) == suffix then [] else c ∷ rest

longer : (c : Char) (s t : String) → c ∷ (s ++ t) ≢ t
longer c s t q =
    let a = ap count q in let b = length-cons c (s ++ t) in let d = length-append s t in omega arith

trim_self : (t : String) → trim_suffix t t ≡ []
unfolding trim_suffix
trim_self [] = refl
trim_self (c ∷ s) = rw (eq_refl (c ∷ s)) refl

-- A suffix that was appended is trimmed, whatever stands before it.
pub trim_suffix-append : (s t : String) → trim_suffix (s ++ t) t ≡ s
unfolding trim_suffix
trim_suffix-append [] t = ap (λ x. trim_suffix x t) (nil-append t) ∙ trim_self t
trim_suffix-append (c ∷ s) t =
    ap (λ x. trim_suffix x t) (cons-append c s t)
    ∙ ap (λ b. if b then [] else c ∷ trim_suffix (s ++ t) t)
        (eq-false_of_ne (c ∷ (s ++ t)) t (longer c s t))
    ∙ ap (λ x. c ∷ x) (trim_suffix-append s t)
