-- ===== src/Registration/Laws/Unary.antt =====
-- List ℕ as a text of strokes, for concrete inputs.
use Prim.Native.Char.{code}
use Prim.Native.String.{String}
use hwfa.Common.{ℕ, zero, suc, ◌+◌, List, [], ◌∷◌, ◌≡◌, refl, ap, ◌∙◌, arith, nat_eq, if◌then◌else◌}

unfoldable pub strokes : ℕ → String → String
strokes zero s = s
strokes (suc n) s = String.◌∷◌ "a" (strokes n s)

unfoldable pub write : List ℕ → String
write [] = String.[]
write (n ∷ b) = strokes n (String.◌∷◌ "b" (write b))

unfoldable pub read_from : ℕ → String → List ℕ
read_from n String.[] = []
read_from n (String.◌∷◌ c s) =
    let more = read_from (suc n) s in
    let next = n ∷ read_from 0 s in if nat_eq (code c) b'a' then more else next

read_from-strokes :
    (m n : ℕ) (s : String) → read_from m (strokes n (String.◌∷◌ "b" s)) ≡ (m + n) ∷ read_from 0 s
unfolding read_from strokes
read_from-strokes m zero s = ap (λ k. k ∷ read_from 0 s) (omega arith)
read_from-strokes m (suc n) s =
    read_from-strokes (suc m) n s ∙ ap (λ k. k ∷ read_from 0 s) (omega arith)

pub read-write : (b : List ℕ) → read_from 0 (write b) ≡ b
unfolding write read_from
read-write [] = refl
read-write (n ∷ b) =
    read_from-strokes 0 n (write b)
    ∙ ap (λ k. k ∷ read_from 0 (write b)) (omega arith)
    ∙ ap (λ r. n ∷ r) (read-write b)
