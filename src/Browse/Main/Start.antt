-- ===== src/Browse/Main/Start.antt =====
-- A start of browse_sfs.c on a partition that holds a file system, up to its first prompt.
use linuxpedia.Prelude.{
  ℕ, ◌+◌, ◌*◌, ◌≡◌, refl, ap, ◌∙◌, Bool, true, Option, none, some, List, [], length, replicate,
  take, overwrite, overwrite-all, arith, ◌==◌, eq→==, ap₂, if◌then◌else◌, not,
}
use linuxpedia.Sfs.Layout.{
  SuperBlock, FileEntry, IsSuper, simula_fs_type, encode_super, decode_super,
}
use linuxpedia.Sfs.Layout.RoundTrip.{length-encode_super, decode_super-encode_super}
use linuxpedia.Sfs.Mount.Sound.{tracker}
use linuxpedia.Browse.Handle.{Browser, read_bytes}
use linuxpedia.Browse.Table.Scan.{HasEntries, slot}
use linuxpedia.Browse.Table.Init.{init_browsing-tracker}
use linuxpedia.Browse.Shell.{Answer, Typed, browse_lines}
use linuxpedia.Browse.Main.{Ended, started, read_super, browse_sfs, main}

-- The program at its first prompt.
abbrev pub ready : Bool → List ℕ → SuperBlock → List FileEntry → Browser
ready wide bytes sb es = record {
  wide = wide;
  bytes = bytes;
  pos = slot sb 0 + sb.entry_count * 64;
  sb = sb;
  used_blocks = tracker sb es;
  block = replicate 512 0;
}

-- A partition that begins with this super block of the file system and has this table.
pub record IsPartition (bytes : List ℕ) (sb : SuperBlock) (es : List FileEntry) : Type 0 where
  pub head : take 512 bytes ≡ encode_super sb
  pub words : IsSuper sb
  pub magic : sb.type ≡ simula_fs_type
  pub table : HasEntries bytes sb es

-- What a run ends with once its session has.
abbrev pub end_of : Option (List Answer × Browser) → Option Ended
end_of none = none
end_of (some (answers, b)) = some (record { code = 0; answers = answers; partition = some b.bytes })

module _ {bytes : List ℕ} {sb : SuperBlock} {es : List FileEntry}
    (h : IsPartition bytes sb es) where
  abbrev loaded : Bool → Browser
  loaded wide = record (started wide bytes) { pos = 512; sb = sb }

  read_super-head : (wide : Bool) → read_super (started wide bytes) ≡ loaded wide
  unfolding read_super read_bytes
  read_super-head wide =
      ap
        (λ xs. record (started wide bytes) {
          pos = 0 + length xs;
          sb = decode_super (overwrite (replicate 512 0) xs);
        })
        h.head
      ∙ ap₂ (λ n t. record (started wide bytes) { pos = n; sb = t })
          (omega (arith, length-encode_super sb))
          (ap decode_super (
              overwrite-all (replicate 512 0) (encode_super sb)
                (omega (arith, length-encode_super sb)))
            ∙ decode_super-encode_super sb h.words)

  browse_sfs-ready :
      (wide : Bool) (lines : List Typed)
      → browse_sfs true lines (loaded wide) ≡ end_of (browse_lines lines (ready wide bytes sb es))
  unfolding browse_sfs
  browse_sfs-ready wide lines =
      rw (init_browsing-tracker (loaded wide) es h.table, browse_sfs)
        (ended (browse_lines lines (ready wide bytes sb es)))
    where
      ended :
          (o : Option (List Answer × Browser))
          → elim o [
            | none ↦ none
            | some (answers, b'') ↦
                some (record { code = 0; answers = answers; partition = some b''.bytes })
          ]
            ≡ end_of o
      ended none = refl
      ended (some (answers, b)) = refl

  -- What main does once it knows whether the partition has the type of the file system.
  abbrev past_check : Bool → List Typed → Browser → Option Ended
  past_check same lines b =
      if not same
      then some (record { code = 3; answers = []; partition = some bytes })
      else browse_sfs true lines b

  -- A run on a partition that holds a file system answers the lines from its first prompt on.
  pub main-ready :
      (wide : Bool) (lines : List Typed)
      → main 2 (some bytes) wide true lines ≡ end_of (browse_lines lines (ready wide bytes sb es))
  unfolding main
  main-ready wide lines =
      ap (λ b. past_check (b.sb.type == simula_fs_type) lines b) (read_super-head wide)
      ∙ ap (λ same. past_check same lines (loaded wide)) (eq→== sb.type simula_fs_type h.magic)
      ∙ browse_sfs-ready wide lines
