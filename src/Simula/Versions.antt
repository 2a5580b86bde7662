-- ===== src/Simula/Versions.antt =====
-- Versions 2.0 and 3.0 of browse_sfs.c against each other.
use linuxpedia.Prelude.{ℕ, ◌≡◌, refl, true, Option, none, some, List, not, if◌then◌else◌}
use linuxpedia.Sfs.Layout.{FileEntry}
use linuxpedia.Browse.Handle.{Browser}
use linuxpedia.Browse.Table.{
  Reply, doesnt_exist, printed, not_readable, sfs_lookup, may_read, may_write,
}
use linuxpedia.Sfs.Entries.Refine.{release}
use linuxpedia.Browse.Table
use linuxpedia.Browse.Contents
use linuxpedia.Browse.Contents.{read_blocks}
use linuxpedia.Simula.{sfs_read}

-- What version 3.0 has marked as used after a removal.
abbrev pub used_after : Browser → List ℕ → List ℕ
used_after b fn =
    let (found, fe, b') = sfs_lookup b fn in
    elim found [ none ↦ b.used_blocks | some i ↦ release fe.blocks b.used_blocks ]

read-same :
    (found : Option ℕ) (fe : FileEntry) (b : Browser)
    → may_read fe ≡ true
    → let old : Reply × Browser = elim found [
      | none ↦ (doesnt_exist, b)
      | some i ↦ let (bytes, b') = read_blocks fe.blocks fe.size b in (printed bytes, b')
    ] in
      let new : Reply × Browser = elim found [
        | none ↦ (doesnt_exist, b)
        | some i ↦
            if not (may_read fe)
            then (not_readable, b)
            else let (bytes, b') = read_blocks fe.blocks fe.size b in (printed bytes, b')
      ] in
      old ≡ new
read-same none fe b allowed = refl
read-same (some i) fe b allowed = rw allowed refl

-- A file with read permission is read alike by both versions.
pub sfs_read-versions :
    (b : Browser) (fn : List ℕ)
    → may_read (sfs_lookup b fn).1 ≡ true
    → sfs_read b fn ≡ Contents.sfs_read b fn
unfolding sfs_read Contents.sfs_read
sfs_read-versions b fn allowed =
    let (found, fe, b') = sfs_lookup b fn in read-same found fe b' allowed
