-- ===== src/Browse/Main.antt =====
-- main and browse_sfs of browse_sfs.c: a run of the program, from its start to its end.
pub mod Start
pub mod Lifetime
use linuxpedia.Prelude.{
  ℕ, Bool, Option, none, some, List, [], replicate, overwrite, ◌==◌, not, if◌then◌else◌,
}
use linuxpedia.Sfs.Layout.{SuperBlock, simula_fs_type, decode_super}
use linuxpedia.Browse.Handle.{Browser, read_bytes}
use linuxpedia.Browse.Table.{init_browsing}
use linuxpedia.Browse.Shell.{Typed, Answer, browse_lines}

-- What a run ends with: its exit code, what it has answered, and the partition if it was opened.
pub record Ended : Type 0 where
  pub code : ℕ
  pub answers : List Answer
  pub partition : Option (List ℕ)

-- The globals at the start, with the partition just opened.
abbrev pub started : (wide : Bool) → (partition : List ℕ) → Browser
started wide partition = record {
  wide = wide;
  bytes = partition;
  pos = 0;
  sb = decode_super (replicate 512 0);
  used_blocks = [];
  block = replicate 512 0;
}

-- read(sfs_handle, &sb, sizeof(sfs_super_block_t))
unfoldable pub read_super : Browser → Browser
unfolding read_bytes decode_super
read_super b =
    let (bytes, b') = read_bytes b 512 in
    record b' { sb = decode_super (overwrite (replicate 512 0) bytes) }

-- `calloc` says whether there is memory for the tracker of used blocks; without it the program
-- exits. shut_browsing frees it. `none` is a write that ran out of fuel.
unfoldable pub browse_sfs : (calloc : Bool) → List Typed → Browser → Option Ended
browse_sfs calloc lines b = elim (init_browsing calloc b) [
  | none ↦ some (record { code = 1; answers = []; partition = some b.bytes })
  | some b' ↦ elim (browse_lines lines b') [
    | none ↦ none
    | some (answers, b'') ↦
        some (record { code = 0; answers = answers; partition = some b''.bytes })
  ]
]

-- `opened` is the partition that open gives.
unfoldable pub main :
    (argc : ℕ) → (opened : Option (List ℕ)) → (wide calloc : Bool) → List Typed → Option Ended
unfolding read_super browse_sfs
main argc opened wide calloc lines =
    if not (argc == 2)
    then some (record { code = 1; answers = []; partition = opened })
    else elim opened [
      | none ↦ some (record { code = 2; answers = []; partition = none })
      | some partition ↦
          let b = read_super (started wide partition) in
          if not (b.sb.type == simula_fs_type)
          then some (record { code = 3; answers = []; partition = some partition })
          else browse_sfs calloc lines b
    ]
