-- ===== src/Sfs/Layout.antt =====
-- The on-disk structures of real_sfs_ds.h, and the bytes that `memcpy` moves them by.
-- The machine is little-endian, and a `byte4_t` is a number below 2 ^ 32.
pub mod RoundTrip
use linuxpedia.Prelude.{
  ℕ, ◌+◌, ◌*◌, ◌/◌, ◌%◌, ◌^◌, ◌<◌, ◌≡◌, Bool, List, [], ◌∷◌, ◌++◌, length, get_or, take, drop,
  replicate, ◌==◌,
}

abbrev pub simula_fs_type : ℕ
simula_fs_type = 0x13090D15

abbrev pub simula_fs_block_size : ℕ
simula_fs_block_size = 512

abbrev pub simula_fs_entry_size : ℕ
simula_fs_entry_size = 64

-- (SIMULA_FS_ENTRY_SIZE - (16 + 3 * 4)) / 4
abbrev pub simula_fs_data_block_cnt : ℕ
simula_fs_data_block_cnt = 9

abbrev pub u32_mod : ℕ
u32_mod = 2 ^ 32

-- `sfs_super_block_t`, less the reserved words, which no code reads.
pub record SuperBlock : Type 0 where
  pub type : ℕ
  pub block_size : ℕ
  pub partition_size : ℕ
  pub entry_size : ℕ
  pub entry_table_size : ℕ
  pub entry_table_block_start : ℕ
  pub entry_count : ℕ
  pub data_block_start : ℕ

-- `sfs_file_entry_t`
pub record FileEntry : Type 0 where
  pub name : List ℕ
  pub size : ℕ
  pub timestamp : ℕ
  pub perms : ℕ
  pub blocks : List ℕ

-- `memset(&fe, 0, sizeof(sfs_file_entry_t))`
abbrev pub zero_entry : FileEntry
zero_entry = record {
  name = replicate 16 0;
  size = 0;
  timestamp = 0;
  perms = 0;
  blocks = replicate 9 0;
}

-- `fe.name[0] != 0`: the entry is in use.
abbrev pub name_first : FileEntry → ℕ
name_first fe = get_or fe.name 0 0

abbrev pub le32 : ℕ → List ℕ
le32 n = n % 256 ∷ n / 256 % 256 ∷ n / 65536 % 256 ∷ n / 16777216 % 256 ∷ []

abbrev pub of_le32 : ℕ → ℕ → ℕ → ℕ → ℕ
of_le32 a b c d = a + 256 * b + 65536 * c + 16777216 * d

pub words_bytes : List ℕ → List ℕ
words_bytes [] = []
words_bytes (w ∷ ws) = le32 w ++ words_bytes ws

pub bytes_words : List ℕ → List ℕ
bytes_words (a ∷ b ∷ c ∷ d ∷ r) = of_le32 a b c d ∷ bytes_words r
bytes_words _ = []

-- The bytes of a `sfs_file_entry_t`, field by field.
unfoldable pub encode_entry : FileEntry → List ℕ
unfolding words_bytes
encode_entry fe = fe.name ++ words_bytes (fe.size ∷ fe.timestamp ∷ fe.perms ∷ fe.blocks)

abbrev pub entry_of_words : List ℕ → List ℕ → FileEntry
entry_of_words name ws = record {
  name = name;
  size = get_or ws 0 0;
  timestamp = get_or ws 1 0;
  perms = get_or ws 2 0;
  blocks = drop 3 ws;
}

-- The entry that these 64 bytes are.
unfoldable pub decode_entry : List ℕ → FileEntry
unfolding bytes_words
decode_entry bs = entry_of_words (take 16 bs) (bytes_words (drop 16 bs))

abbrev pub super_of_words : List ℕ → SuperBlock
super_of_words ws = record {
  type = get_or ws 0 0;
  block_size = get_or ws 1 0;
  partition_size = get_or ws 2 0;
  entry_size = get_or ws 3 0;
  entry_table_size = get_or ws 4 0;
  entry_table_block_start = get_or ws 5 0;
  entry_count = get_or ws 6 0;
  data_block_start = get_or ws 7 0;
}

-- The words that a `sfs_super_block_t` starts with.
unfoldable pub decode_super : List ℕ → SuperBlock
unfolding bytes_words
decode_super bs = super_of_words (bytes_words bs)

abbrev pub super_words : SuperBlock → List ℕ
super_words sb =
    sb.type ∷ sb.block_size ∷ sb.partition_size ∷ sb.entry_size ∷ sb.entry_table_size
    ∷ sb.entry_table_block_start ∷ sb.entry_count ∷ sb.data_block_start ∷ []

-- All 512 bytes of a `sfs_super_block_t`: the reserved words are 0.
unfoldable pub encode_super : SuperBlock → List ℕ
unfolding words_bytes
encode_super sb = words_bytes (super_words sb) ++ replicate 480 0

-- Every word fits 32 bits.
abbrev pub AllWords : List ℕ → Type 0
AllWords [] = Unit
AllWords (w ∷ ws) = (w < u32_mod) × AllWords ws

-- A value that the C type can hold.
pub record IsEntry (fe : FileEntry) : Type 0 where
  pub name_size : length fe.name ≡ 16
  pub size_word : fe.size < u32_mod
  pub timestamp_word : fe.timestamp < u32_mod
  pub perms_word : fe.perms < u32_mod
  pub blocks_size : length fe.blocks ≡ 9
  pub block_words : AllWords fe.blocks

pub record IsSuper (sb : SuperBlock) : Type 0 where
  pub type_word : sb.type < u32_mod
  pub block_size_word : sb.block_size < u32_mod
  pub partition_size_word : sb.partition_size < u32_mod
  pub entry_size_word : sb.entry_size < u32_mod
  pub entry_table_size_word : sb.entry_table_size < u32_mod
  pub entry_table_block_start_word : sb.entry_table_block_start < u32_mod
  pub entry_count_word : sb.entry_count < u32_mod
  pub data_block_start_word : sb.data_block_start < u32_mod
