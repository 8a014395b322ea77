-- ===== src/Block/Examples.antt =====
-- Three headers of a block at 65536, for tests.
use libimmixcons.Base.{
  ℕ, zero, suc, ◌/◌, ◌%◌, ◌^◌, ◌<◌, ◌≡◌, refl, false, List, [], ◌∷◌, arith, get_or, bit-zero,
  get_or-replicate,
}
use libimmixcons.Block.{ImmixBlock}
use libimmixcons.Block.Find.{IsBlock, line}

abbrev pub block_of : List ℕ → ImmixBlock
block_of words = record {
  begin = 65536;
  line_map = record { bitmap = words };
  allocated = false;
  hole_count = 0;
  evacuation_candidate = false;
}

abbrev pub clean_block : ImmixBlock
clean_block = block_of (0 ∷ 0 ∷ 0 ∷ 0 ∷ [])

abbrev pub marked_block : ImmixBlock
marked_block = block_of (14 ∷ 0 ∷ 0 ∷ 0 ∷ [])

-- All lines marked but 64 to 127.
abbrev pub holed_block : ImmixBlock
holed_block = block_of (0xffffffffffffffff ∷ 0 ∷ 0xffffffffffffffff ∷ 0xffffffffffffffff ∷ [])

pub four_words :
    (a b c d : ℕ)
    → a < 2 ^ 64
    → b < 2 ^ 64
    → c < 2 ^ 64
    → d < 2 ^ 64
    → IsBlock (block_of (a ∷ b ∷ c ∷ d ∷ []))
four_words a b c d ha hb hc hd = record {
  lines = record { words = refl; in_word = in_word };
  aligned = refl;
}
  where
    in_word : (i : ℕ) → get_or (a ∷ b ∷ c ∷ d ∷ []) i 0 < 2 ^ 64
    in_word zero = ha
    in_word (suc zero) = hb
    in_word (suc (suc zero)) = hc
    in_word (suc (suc (suc zero))) = hd
    in_word (suc (suc (suc (suc i)))) = omega arith

pub clean_block-IsBlock : IsBlock clean_block
clean_block-IsBlock = four_words 0 0 0 0 (omega arith) (omega arith) (omega arith) (omega arith)

pub marked_block-IsBlock : IsBlock marked_block
marked_block-IsBlock = four_words 14 0 0 0 (omega arith) (omega arith) (omega arith) (omega arith)

pub holed_block-IsBlock : IsBlock holed_block
holed_block-IsBlock =
    four_words 0xffffffffffffffff 0 0xffffffffffffffff 0xffffffffffffffff (omega arith)
      (omega arith) (omega arith) (omega arith)

pub clean_line : (j : ℕ) → line clean_block j ≡ false
clean_line j = rw (get_or-replicate {A = ℕ} 4 (j / 64) 0, bit-zero (j % 64)) refl
