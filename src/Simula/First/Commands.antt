-- ===== src/Simula/First/Commands.antt =====
-- Each command of version 1.0 against the same one of version 3.0, where `off_t` has 32 bits.
use linuxpedia.Prelude.{
  ℕ, ◌<◌, ◌≡◌, refl, sym, ap, ◌∙◌, false, Option, none, some, List, length, set, arith,
}
use mathlib.Core.Path.{subst}
use linuxpedia.Sfs.Layout.{FileEntry, zero_entry}
use linuxpedia.Sfs.Entries.{new_entry}
use linuxpedia.Sfs.Directory.{find}
use linuxpedia.Browse.Handle.{Browser}
use linuxpedia.Browse.Table.{Reply, listed, list_lines, create_scan, sfs_list, sfs_create}
use linuxpedia.Browse.Table
use linuxpedia.Browse.Table.Scan.{HasEntries, moved, slot, seek_table}
use linuxpedia.Browse.Table.Create.{
  Stop, taken, free, full, stop_from, Creates, target, sfs_create-Creates,
}
use linuxpedia.Browse.Contents.{Input}
use linuxpedia.Browse.Shell
use linuxpedia.Browse.Shell.{
  Command, help, quit, list, unknown, create, remove, read, write, chperm, Answer, usage_shown,
  incorrect, bye, replied,
}
use linuxpedia.Simula.First
use linuxpedia.Simula.First.Alike.{other, with_dress, ended, sfs_list-other, sfs_create-other}
use linuxpedia.Simula.First.Agree.{
  Agree, remove-Agree_absent, remove-Agree_present, list_lines-moved, create_scan-wide, ended-wide,
  stop_from-free,
}
use linuxpedia.Simula.First.Shell as FirstShell
use linuxpedia.Simula.First.Shell.Known.{known}

Agree-dressed :
    (r : Reply × Browser) (used block : List ℕ) (es : List FileEntry)
    → HasEntries r.1.bytes r.1.sb es
    → r.1.wide ≡ false
    → Agree r (with_dress used block r)
Agree-dressed (a, b) used block es h narrow = record {
  reply = refl;
  pos = b.pos;
  used = used;
  block = block;
  same = refl;
  es = es;
  table = h;
  narrow = narrow;
}

module _ (b : Browser) (es : List FileEntry) (p : ℕ) (used block : List ℕ)
    (h : HasEntries b.bytes b.sb es) (narrow : b.wide ≡ false) where
  list-Agree : Agree (sfs_list b) (sfs_list (other b p used block))
  unfolding sfs_list
  list-Agree =
      let r = list_lines b.sb.entry_count zero_entry (moved b (slot b.sb 0)) in
      let same : (sfs_list b).1 ≡ moved b r.1.pos =
        ap (λ c. (list_lines b.sb.entry_count zero_entry c).1) (seek_table b h.layout)
        ∙ list_lines-moved b.sb.entry_count zero_entry (moved b (slot b.sb 0)) in
      rw (sfs_list-other used block p b h.layout) (
        Agree-dressed (sfs_list b) used block es
          (subst (λ d. HasEntries d.bytes d.sb es) (sym same) h) (ap (λ d. d.wide) same ∙ narrow))

  create-wide : (fn : List ℕ) (now : ℕ) → (sfs_create b fn now).1.wide ≡ false
  unfolding sfs_create
  create-wide fn now =
      let n = b.sb.entry_count in
      let start = moved b (slot b.sb 0) in
      ap (λ c. (ended fn now (create_scan fn n 0 zero_entry c)).1.wide) (seek_table b h.layout)
      ∙ ended-wide fn now (create_scan fn n 0 zero_entry start)
      ∙ create_scan-wide fn n 0 zero_entry start
      ∙ narrow

  create-HasEntries :
      (fn : List ℕ) (now : ℕ) (s : Stop) (r : Reply × Browser)
      → stop_from 0 fn es ≡ s
      → Creates s b es fn now r
      → (es' : List FileEntry) × HasEntries r.1.bytes r.1.sb es'
  create-HasEntries fn now taken r e made =
      (es, subst (λ d. HasEntries d.bytes d.sb es) (sym made.1) h)
  create-HasEntries fn now full r e made =
      (es, subst (λ d. HasEntries d.bytes d.sb es) (sym made.1) h)
  create-HasEntries fn now (free j) r e made =
      let here : target b j ≡ j = rw narrow refl in
      let inside : target b j < length es = omega (arith, here, stop_from-free 0 fn es j e) in
      (
        set es (target b j) (new_entry fn 7 now),
        subst (λ sb. HasEntries r.1.bytes sb (set es (target b j) (new_entry fn 7 now)))
            (sym made.2) (made.5 inside),
      )

  create-Agree :
      (fn : List ℕ) (now : ℕ)
      → Agree (sfs_create b fn now) (sfs_create (other b p used block) fn now)
  create-Agree fn now =
      let (es', h') =
        create-HasEntries fn now (stop_from 0 fn es) (sfs_create b fn now) refl
          (sfs_create-Creates b es fn now h) in
      rw (sfs_create-other used block p b h.layout fn now)
        (Agree-dressed (sfs_create b fn now) used block es' h' (create-wide fn now))

  remove-Agree_found :
      (fn : List ℕ) (o : Option (ℕ × FileEntry))
      → find fn es ≡ o
      → Agree (First.sfs_remove b fn) (Table.sfs_remove (other b p used block) fn)
  remove-Agree_found fn none e = remove-Agree_absent b es p used block h narrow fn e
  remove-Agree_found fn (some (j, x)) e = remove-Agree_present b es p used block h narrow fn j x e

  stay-Agree : (a : Answer) → Agree (a, b) (a, other b p used block)
  stay-Agree a = record {
    reply = refl;
    pos = p;
    used = used;
    block = block;
    same = refl;
    es = es;
    table = h;
    narrow = narrow;
  }

Agree-replied :
    (old new : Reply × Browser)
    → Agree old new
    → Agree (replied old.0, old.1) (replied new.0, new.1)
Agree-replied old new a = record {
  reply = ap replied a.reply;
  pos = a.pos;
  used = a.used;
  block = a.block;
  same = a.same;
  es = a.es;
  table = a.table;
  narrow = a.narrow;
}

-- A command that version 1.0 knows gives the same answer and the same partition in both.
abbrev pub Runs : Browser → Browser → Command → Input → ℕ → Type 0
Runs b d c input now =
    (new : Answer × Browser) × (Shell.run_command c input now d ≡ some new)
    × Agree (FirstShell.run_command c now b) new

module _ (b : Browser) (es : List FileEntry) (p : ℕ) (used block : List ℕ)
    (h : HasEntries b.bytes b.sb es) (narrow : b.wide ≡ false) where
  pub run_command-Runs :
      (c : Command) (input : Input) (now : ℕ)
      → known c ≡ c
      → Runs b (other b p used block) c input now
  unfolding Shell.run_command FirstShell.run_command
  run_command-Runs help input now e = (_, refl, stay-Agree b es p used block h narrow usage_shown)
  run_command-Runs quit input now e = (_, refl, stay-Agree b es p used block h narrow bye)
  run_command-Runs unknown input now e = (_, refl, stay-Agree b es p used block h narrow incorrect)
  run_command-Runs list input now e =
      (_, refl, Agree-replied _ _ (list-Agree b es p used block h narrow))
  run_command-Runs (create fn) input now e =
      (_, refl, Agree-replied _ _ (create-Agree b es p used block h narrow fn now))
  run_command-Runs (remove fn) input now e =
      (_, refl, Agree-replied _ _ (remove-Agree_found b es p used block h narrow fn _ refl))
  run_command-Runs (read fn) input now e = absurd (cc)
  run_command-Runs (write fn) input now e = absurd (cc)
  run_command-Runs (chperm perm fn) input now e = absurd (cc)
