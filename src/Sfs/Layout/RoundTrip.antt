-- ===== src/Sfs/Layout/RoundTrip.antt =====
-- The byte forms of the structures of real_sfs_ds.h lose nothing.
use linuxpedia.Prelude.{
  ℕ, ◌*◌, ◌<◌, ◌≡◌, refl, ap, ap₂, ◌∙◌, sym, List, [], ◌∷◌, ◌++◌, length, length-append, replicate,
  take-append, drop-append, arith,
}
use linuxpedia.Sfs.Layout.{
  FileEntry, SuperBlock, AllWords, IsEntry, IsSuper, u32_mod, le32, words_bytes, bytes_words,
  encode_entry, decode_entry, encode_super, decode_super, super_of_words, super_words,
  entry_of_words,
}

of_le32-le32 : (w : ℕ) (r : List ℕ) → w < u32_mod → bytes_words (le32 w ++ r) ≡ w ∷ bytes_words r
unfolding bytes_words
of_le32-le32 w r h = ap (λ v. v ∷ bytes_words r) (omega arith)

pub bytes_words-words_bytes :
    (ws r : List ℕ) → AllWords ws → bytes_words (words_bytes ws ++ r) ≡ ws ++ bytes_words r
unfolding words_bytes
bytes_words-words_bytes [] r h = refl
bytes_words-words_bytes (w ∷ ws) r h =
    of_le32-le32 w (words_bytes ws ++ r) h.0 ∙ ap (◌∷◌ w) (bytes_words-words_bytes ws r h.1)

pub length-words_bytes : (ws : List ℕ) → length (words_bytes ws) ≡ 4 * length ws
unfolding words_bytes
length-words_bytes [] = refl
length-words_bytes (w ∷ ws) = omega (arith, length-words_bytes ws)

-- An entry takes up 64 bytes.
pub length-encode_entry : (fe : FileEntry) → IsEntry fe → length (encode_entry fe) ≡ 64
unfolding encode_entry
length-encode_entry fe h = omega (
  arith,
  length-append fe.name (words_bytes (fe.size ∷ fe.timestamp ∷ fe.perms ∷ fe.blocks)),
  length-words_bytes (fe.size ∷ fe.timestamp ∷ fe.perms ∷ fe.blocks),
  h.name_size,
  h.blocks_size,
)

bytes_words-words_bytes_lem : (ws : List ℕ) → AllWords ws → bytes_words (words_bytes ws) ≡ ws
unfolding words_bytes bytes_words
bytes_words-words_bytes_lem [] h = refl
bytes_words-words_bytes_lem (w ∷ ws) h =
    of_le32-le32 w (words_bytes ws) h.0 ∙ ap (◌∷◌ w) (bytes_words-words_bytes_lem ws h.1)

-- An entry that the C type can hold is read back from its bytes as it was written.
pub decode_entry-encode_entry : (fe : FileEntry) → IsEntry fe → decode_entry (encode_entry fe) ≡ fe
unfolding encode_entry decode_entry
decode_entry-encode_entry fe h =
    let ws : List ℕ = fe.size ∷ fe.timestamp ∷ fe.perms ∷ fe.blocks in
    ap₂ entry_of_words (take-append fe.name (words_bytes ws) 16 (sym h.name_size)) (
      ap bytes_words (drop-append fe.name (words_bytes ws) 16 (sym h.name_size))
      ∙ bytes_words-words_bytes_lem ws
          (h.size_word, (h.timestamp_word, (h.perms_word, h.block_words))))

-- A super block whose words fit is read back from its 512 bytes as it was written.
pub decode_super-encode_super : (sb : SuperBlock) → IsSuper sb → decode_super (encode_super sb) ≡ sb
unfolding encode_super decode_super
decode_super-encode_super sb h =
    ap super_of_words (bytes_words-words_bytes (super_words sb) (replicate 480 0) (omega arith))

pub length-encode_super : (sb : SuperBlock) → length (encode_super sb) ≡ 512
unfolding encode_super words_bytes
length-encode_super sb = refl
