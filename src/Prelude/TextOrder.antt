-- ===== src/Prelude/TextOrder.antt =====
-- The byte order of texts, by which SQLite sorts a text column, is a total order.
use Prim.Native.Nat.{Ordering, compare as compare_ℕ}
use Prim.Native.Char.{Char, code}
use Prim.Native.String.{String, [], ◌∷◌, compare, then}
use Prim.Native.String.compare as texts
use mathlib.Core.Path.{◌≡◌, refl, ap, ◌∙◌}
use mathlib.Core.Bool.{Bool, true, false}
use native.Mathlib.Omega.{arith}

abbrev pub not_gt : Ordering → Bool
not_gt Ordering.gt = false
not_gt _ = true

-- `s` is `t` or stands before it.
unfoldable pub le_text : String → String → Bool
le_text s t = not_gt (compare s t)

le_text-nil : (t : String) → le_text [] t ≡ true
unfolding le_text
le_text-nil [] = ap not_gt texts.nil-nil
le_text-nil (d ∷ t) = ap not_gt (texts.nil-cons d t)

le_text-cons-nil : (c : Char) (s : String) → le_text (c ∷ s) [] ≡ false
unfolding le_text
le_text-cons-nil c s = ap not_gt (texts.cons-nil c s)

-- By the first characters, and by the rests where these are equal.
abbrev by_first : Ordering → Bool → Bool
by_first Ordering.lt rest = true
by_first Ordering.eq rest = rest
by_first Ordering.gt rest = false

not_gt-then : (o p : Ordering) → not_gt (then o p) ≡ by_first o (not_gt p)
not_gt-then Ordering.lt p = refl
not_gt-then Ordering.eq p = refl
not_gt-then Ordering.gt p = refl

le_text-cons :
    (c d : Char) (s t : String)
    → le_text (c ∷ s) (d ∷ t) ≡ by_first (compare_ℕ (code c) (code d)) (le_text s t)
unfolding le_text
le_text-cons c d s t =
    ap not_gt (texts.cons-cons c d s t) ∙ not_gt-then (compare_ℕ (code c) (code d)) (compare s t)

pub le_text_total : (s t : String) → le_text s t ≡ false → le_text t s ≡ true
le_text_total [] t h = cc (le_text-nil t)
le_text_total (c ∷ s) [] h = le_text-nil (c ∷ s)
le_text_total (c ∷ s) (d ∷ t) h =
    ground (arith, le_text-cons c d s t, le_text-cons d c t s, le_text_total s t)

pub le_text_trans : (s t u : String) → le_text s t ≡ true → le_text t u ≡ true → le_text s u ≡ true
le_text_trans [] t u h k = le_text-nil u
le_text_trans (c ∷ s) [] u h k = cc (le_text-cons-nil c s)
le_text_trans (c ∷ s) (d ∷ t) [] h k = cc (le_text-cons-nil d t)
le_text_trans (c ∷ s) (d ∷ t) (e ∷ u) h k =
    ground
      (arith, le_text-cons c d s t, le_text-cons d e t u, le_text-cons c e s u, le_text_trans s t u)
