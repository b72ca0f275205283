-- ===== src/Base/TextOrder.antt =====
-- `operator<` of std::string: the lexicographic order of texts. (On UTF-8 the order of the bytes is the
-- order of the code points.)
use Prim.Native.Char.{code}
use Prim.Native.String.{String, [], ◌∷◌}
use mathlib.Core.Path.{◌≡◌, refl}
use mathlib.Core.Bool.{Bool, true, false}
use native.Mathlib.Omega.{arith}
use text.Mathlib.TextEquality.{Char-path}
use swarm_db.Base.Tests.{ltb, if◌then◌else◌}

unfoldable pub text_lt : String → String → Bool
text_lt [] [] = false
text_lt [] (d ∷ t) = true
text_lt (c ∷ s) [] = false
text_lt (c ∷ s) (d ∷ t) =
    let rest = text_lt s t in
    if ltb (code c) (code d) then true else if ltb (code d) (code c) then false else rest

pub text_lt_irrefl : (s : String) → text_lt s s ≡ false
unfolding text_lt
text_lt_irrefl [] = refl
text_lt_irrefl (c ∷ s) = ground (arith, text_lt_irrefl s)

pub text_lt_trans : (s t u : String) → text_lt s t ≡ true → text_lt t u ≡ true → text_lt s u ≡ true
unfolding text_lt
text_lt_trans [] [] u h k = ground arith
text_lt_trans [] (d ∷ t) [] h k = ground arith
text_lt_trans [] (d ∷ t) (e ∷ u) h k = refl
text_lt_trans (c ∷ s) [] u h k = ground arith
text_lt_trans (c ∷ s) (d ∷ t) [] h k = ground arith
text_lt_trans (c ∷ s) (d ∷ t) (e ∷ u) h k = ground (arith, text_lt_trans s t u)

pub text_lt_connected : (s t : String) → text_lt s t ≡ false → text_lt t s ≡ false → s ≡ t
unfolding text_lt
text_lt_connected [] [] h k = refl
text_lt_connected [] (d ∷ t) h k = ground arith
text_lt_connected (c ∷ s) [] h k = ground arith
text_lt_connected (c ∷ s) (d ∷ t) h k = ground (arith, text_lt_connected s t, Char-path c d)
