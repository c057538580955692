-- ===== src/InodeDisk/Codec.antt =====
-- The bytes of words, and of the structure of an inode: how many they are, and the word that is
-- read back from the first four.
use operating_system_pl_nt.Prelude.{
  ℕ, zero, suc, ◌*◌, ◌^◌, ◌<◌, ◌≡◌, refl, ap, List, [], ◌∷◌, ◌++◌, length, drop, arith,
  length-append,
}
use operating_system_pl_nt.Block.{Bytes, block_sector_size}
use operating_system_pl_nt.InodeDisk.{
  InodeDisk, bytes_of_words, first_word, words_of, to_words, to_bytes, direct_count,
}

pub words_of-length : (n : ℕ) (bytes : Bytes) → length (words_of n bytes) ≡ n
unfolding words_of
words_of-length zero bytes = refl
words_of-length (suc n) bytes = ap suc (words_of-length n (drop 4 bytes))

pub bytes_of_words-length : (ws : List ℕ) → length (bytes_of_words ws) ≡ 4 * length ws
unfolding bytes_of_words
bytes_of_words-length [] = refl
bytes_of_words-length (w ∷ ws) = omega (arith, bytes_of_words-length ws)

-- An inode fills a sector.
pub to_bytes-length :
    (d : InodeDisk)
    → length d.direct_blocks ≡ direct_count
    → length (to_bytes d) ≡ block_sector_size
unfolding to_bytes
to_bytes-length d h = omega (
  arith,
  bytes_of_words-length (to_words d),
  length-append d.direct_blocks (d.indirect_block ∷ d.double_indirect_block ∷ []),
  h,
)

-- A word in front of other bytes.
pub words_of-front :
    (w : ℕ) (rest : Bytes)
    → w < 2 ^ 32
    → (words_of 1 (bytes_of_words (w ∷ []) ++ rest) ≡ w ∷ [])
      × (drop 4 (bytes_of_words (w ∷ []) ++ rest) ≡ rest)
unfolding words_of first_word bytes_of_words
words_of-front w rest h = (ap (λ x. x ∷ []) (omega arith), refl)
