-- ===== src/Browse/Contents.antt =====
-- sfs_read and sfs_write of browse_sfs.c: the contents of files.
pub mod Input
pub mod Pieces
pub mod Read
pub mod Write
pub mod Loop
pub mod Finish
pub mod Kept
pub mod ReadBack
use linuxpedia.Prelude.{
  ℕ, zero, suc, ◌+◌, ◌-◌, ◌*◌, ◌/◌, ◌%◌, Bool, true, false, ◌&&◌, Option, none, some, List, [], ◌∷◌,
  ◌++◌, length, set, take, drop, splice, overwrite, ◌==◌, ltb, leb, not, if◌then◌else◌,
}
use linuxpedia.Prelude.Int.{ℤ, pos, negsuc, minus_one}
use linuxpedia.Sfs.Layout.{SuperBlock, FileEntry, u32_mod}
use linuxpedia.Sfs.Entries.{to_u32}
use linuxpedia.Browse.Handle.{Browser, lseek_set, read_bytes, write_bytes, block_offset}
use linuxpedia.Browse.Table.{
  Reply, silent, printed, doesnt_exist, not_readable, not_writable, may_read, may_write,
  get_data_block, put_blocks, sfs_lookup, store_entry,
}

-- `to_read`, with `rem` bytes left.
unfoldable pub piece_size : SuperBlock → ℕ → ℕ
piece_size sb rem = if leb sb.block_size rem then sb.block_size else rem

-- What is printed of block `k`, by way of the buffer `block`.
unfoldable pub read_piece : Browser → (k to_read : ℕ) → List ℕ × Browser
read_piece b k to_read =
    let (bytes, b') = read_bytes (lseek_set b (block_offset b.sb k)) to_read in
    let block = overwrite b'.block bytes in (take to_read block, record b' { block = block })

-- The loop of sfs_read over the blocks of the entry: what is printed.
pub read_blocks : List ℕ → (rem : ℕ) → Browser → List ℕ × Browser
read_blocks [] rem b = ([], b)
read_blocks (k ∷ ks) rem b =
    let to_read = piece_size b.sb rem in
    let (out, b') = read_piece b k to_read in
    let (more, b'') = read_blocks ks (rem - to_read) b' in
    if k == 0 then ([], b) else if rem - to_read == 0 then (out, b') else (out ++ more, b'')

unfoldable pub sfs_read : Browser → List ℕ → Reply × Browser
unfolding read_blocks read_piece piece_size
sfs_read b fn =
    let (found, fe, b') = sfs_lookup b fn in
    elim found [
      | none ↦ (doesnt_exist, b')
      | some i ↦
          if not (may_read fe)
          then (not_readable, b')
          else let (bytes, b'') = read_blocks fe.blocks fe.size b' in (printed bytes, b'')
    ]

-- Standard input as what the calls of read(0, …) find there; an empty piece is its end.
abbrev pub Input : Type 0
Input = List (List ℕ)

-- read(0, …, n): a piece that is longer leaves its rest for the next call.
unfoldable pub read_input : ℕ → Input → List ℕ × Input
read_input n [] = ([], [])
read_input n (piece ∷ input) =
    if ltb n (length piece) then (take n piece, drop n piece ∷ input) else (piece, input)

-- The variables of the loop of sfs_write.
pub record Writing : Type 0 where
  pub browser : Browser
  pub blocks : List ℕ
  pub cur_read_i : ℕ
  pub to_read : ℕ
  pub total_size : ℕ
  pub block_i : ℕ

-- One full block: `none` where the loop breaks, with the state at the break.
unfoldable pub write_full : Writing → Bool × Writing
write_full w =
    if w.block_i == 9
    then (false, w)
    else let (free_i, b) = get_data_block w.browser in
      elim free_i [
        | negsuc _ ↦ (false, record w { browser = b })
        | pos k ↦ (
          true,
          record w {
            browser =
                write_bytes (lseek_set b (block_offset b.sb k)) (take b.sb.block_size b.block);
            blocks = set w.blocks w.block_i k;
            cur_read_i = 0;
            to_read = b.sb.block_size;
            total_size = w.total_size + b.sb.block_size;
            block_i = w.block_i + 1;
          },
        )
      ]

-- read(0, block + cur_read_i, to_read) has given `bytes`.
unfoldable pub take_in : Writing → List ℕ → Writing
take_in w bytes = record w {
  browser = record w.browser { block = splice w.browser.block w.cur_read_i bytes };
}

-- The while loop on fuel; `some (ended, w)` says whether it ended by the end of the input.
unfoldable pub write_loop_from : (fuel : ℕ) → Input → Writing → Option (Bool × Writing)
unfolding take_in write_full
write_loop_from zero input w = none
write_loop_from (suc fuel) input w =
    let (bytes, input') = read_input w.to_read input in
    let w' = take_in w bytes in
    elim (length bytes == 0) [
      | true ↦ some (true, w)
      | false ↦ elim (length bytes == w.to_read) [
        | true ↦
            let (written, w'') = write_full w' in
            elim written [ false ↦ some (false, w'') | true ↦ write_loop_from fuel input' w'' ]
        | false ↦ write_loop_from fuel input' (record w' {
          cur_read_i = w.cur_read_i + length bytes;
          to_read = w.to_read - length bytes;
        })
      ]
    ]

-- The part after the loop that writes a partial block. get_data_block's -1 is stored too.
unfoldable pub write_partial : Writing → Writing
write_partial w =
    if w.block_i == 9
    then w
    else let (free_i, b) = get_data_block w.browser in
      elim free_i [
        | negsuc e ↦ record w { browser = b; blocks = set w.blocks w.block_i (to_u32 (negsuc e)) }
        | pos k ↦ record w {
          browser = write_bytes (lseek_set b (block_offset b.sb k)) (take w.cur_read_i b.block);
          blocks = set w.blocks w.block_i k;
          total_size = w.total_size + w.cur_read_i;
        }
      ]

-- Every turn of the loop but the last takes a byte or more of the input.
abbrev pub input_size : Input → ℕ
input_size [] = 0
input_size (piece ∷ input) = length piece + input_size input

abbrev pub first_writing : Browser → FileEntry → Writing
first_writing b fe = record {
  browser = put_blocks fe.blocks b;
  blocks = fe.blocks;
  cur_read_i = 0;
  to_read = b.sb.block_size;
  total_size = 0;
  block_i = 0;
}

abbrev pub write_entry_of : FileEntry → Writing → ℕ → FileEntry
write_entry_of fe w now = record fe {
  size = w.total_size;
  timestamp = now % u32_mod;
  blocks = w.blocks;
}

-- The part of sfs_write after its loop.
unfoldable pub finish_write : ℕ → FileEntry → ℕ → Bool × Writing → Browser
unfolding write_partial
finish_write i fe now (ended, w) =
    let w' = if ended && not (w.cur_read_i == 0) then write_partial w else w in
    store_entry w'.browser i (write_entry_of fe w' now)

-- `none` is fuel that ran out.
unfoldable pub sfs_write : Browser → List ℕ → Input → (now : ℕ) → Option (Reply × Browser)
unfolding write_loop_from finish_write
sfs_write b fn input now =
    let (found, fe, b') = sfs_lookup b fn in
    elim found [
      | none ↦ some (doesnt_exist, b')
      | some i ↦
          if not (may_write fe)
          then some (not_writable, b')
          else elim (write_loop_from (input_size input + 1) input (first_writing b' fe)) [
            | none ↦ none
            | some result ↦ some (silent, finish_write i fe now result)
          ]
    ]
