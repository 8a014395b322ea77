-- ===== src/LineMap/Tests.antt =====
-- Runs of the line bitmap on the set of the lines 1, 2 and 3 of a block at 65536.
use libimmixcons.Base.{ℕ, zero, suc, ◌^◌, ◌<◌, refl, [], ◌∷◌, arith, get_or}
use libimmixcons.LineMap.{LineMap}
use libimmixcons.LineMap.Words.{IsLineMap}

abbrev three_lines : LineMap
three_lines = record { bitmap = 14 ∷ 0 ∷ 0 ∷ 0 ∷ [] }

three_lines-IsLineMap : IsLineMap three_lines
three_lines-IsLineMap = record { words = refl; in_word = in_word }
  where
    in_word : (i : ℕ) → get_or (14 ∷ 0 ∷ 0 ∷ 0 ∷ []) i 0 < 2 ^ 64
    in_word zero = omega arith
    in_word (suc zero) = omega arith
    in_word (suc (suc zero)) = omega arith
    in_word (suc (suc (suc zero))) = omega arith
    in_word (suc (suc (suc (suc i)))) = omega arith
