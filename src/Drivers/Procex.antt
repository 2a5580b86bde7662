-- ===== src/Drivers/Procex.antt =====
-- device_driver_examples/bfin1/procex.c: entries below /proc, two of which can be written.
use linuxpedia.Prelude.{
  ℕ, ◌+◌, ◌≤◌, ◌≡◌, refl, ap, ◌∙◌, ◌-◌, false, le→ltb, overwrite, replicate, Option, some, List, [],
  ◌∷◌, ◌++◌, length, take, drop, if◌then◌else◌, ltb, arith, ◌==◌, Bool-cases, inl, inr, take-all,
  sym, ltb→ge,
}
use linuxpedia.Prelude.Int.{ℤ, pos, neg_efault, neg_enomem}
use linuxpedia.Prelude.CString.{c_str}
use linuxpedia.Drivers.Resources.{
  proc_dir, proc_jiffies, proc_foo, proc_bar, proc_symlink, Stack, releases, Init, fail, is_null,
  hold, Kernel,
}

unfoldable pub init_procfs_example : Kernel → Init
init_procfs_example k =
    if is_null k.proc_mkdir
    then some (neg_enomem, [])
    else let s₁ = hold k.proc_mkdir proc_dir [] in
      if is_null k.proc_jiffies_entry
      then fail neg_enomem (proc_dir ∷ []) s₁
      else let s₂ = hold k.proc_jiffies_entry proc_jiffies s₁ in
        if is_null k.proc_foo_entry
        then fail neg_enomem (proc_jiffies ∷ proc_dir ∷ []) s₂
        else let s₃ = hold k.proc_foo_entry proc_foo s₂ in
          if is_null k.proc_bar_entry
          then fail neg_enomem (proc_foo ∷ proc_jiffies ∷ proc_dir ∷ []) s₃
          else let s₄ = hold k.proc_bar_entry proc_bar s₃ in
            if is_null k.proc_symlink_entry
            then fail neg_enomem (proc_bar ∷ proc_foo ∷ proc_jiffies ∷ proc_dir ∷ []) s₄
            else some (pos 0, hold k.proc_symlink_entry proc_symlink s₄)

unfoldable pub cleanup_procfs_example : Stack → Option Stack
cleanup_procfs_example s =
    releases (proc_symlink ∷ proc_bar ∷ proc_foo ∷ proc_jiffies ∷ proc_dir ∷ []) s

abbrev pub foobar_len : ℕ
foobar_len = 8

-- `fb_data_t`: arrays of 9 bytes.
pub record FbData : Type 0 where
  pub name : List ℕ
  pub value : List ℕ

-- "%s = '%s'\n"
unfoldable pub proc_read_foobar : FbData → List ℕ
proc_read_foobar d = c_str d.name ++ (32 ∷ 61 ∷ 32 ∷ 39 ∷ []) ++ c_str d.value ++ (39 ∷ 10 ∷ [])

-- `foo_data` and `bar_data` once the files are there.
abbrev named_data : List ℕ → FbData
named_data text = record {
  name = overwrite (replicate (foobar_len + 1) 0) text;
  value = overwrite (replicate (foobar_len + 1) 0) text;
}

abbrev pub foo_data : FbData
foo_data = named_data (b'f' ∷ b'o' ∷ b'o' ∷ [])

abbrev pub bar_data : FbData
bar_data = named_data (b'b' ∷ b'a' ∷ b'r' ∷ [])

-- `buffer` has the `count` bytes, of which the first `reaches` can be read: copy_from_user puts 0
-- for the others.
unfoldable pub proc_write_foobar : (buffer : List ℕ) (reaches : ℕ) → FbData → ℤ × FbData
proc_write_foobar buffer reaches d =
    let count = length buffer in
    let len = if ltb foobar_len count then foobar_len else count in
    if ltb reaches len
    then (
      neg_efault,
      record d { value = take reaches buffer ++ replicate (len - reaches) 0 ++ drop len d.value },
    )
    else (pos len, record d { value = take len buffer ++ (0 ∷ drop (len + 1) d.value) })

c_str-ended : (xs rest : List ℕ) → c_str (xs ++ (0 ∷ rest)) ≡ c_str xs
unfolding c_str
c_str-ended [] rest = refl
c_str-ended (x ∷ xs) rest = ap (λ s. if x == 0 then [] else x ∷ s) (c_str-ended xs rest)

-- What is written is shown, cut at 8 bytes and at its first 0, behind the name.
pub proc_read_foobar-proc_write_foobar :
    (buffer : List ℕ) (reaches : ℕ) (d : FbData)
    → length buffer ≤ reaches
    → proc_read_foobar (proc_write_foobar buffer reaches d).1
      ≡ c_str d.name ++ (32 ∷ 61 ∷ 32 ∷ 39 ∷ []) ++ c_str (take 8 buffer) ++ (39 ∷ 10 ∷ [])
unfolding proc_read_foobar proc_write_foobar
proc_read_foobar-proc_write_foobar buffer reaches d readable =
    let len = if ltb foobar_len (length buffer) then foobar_len else length buffer in
    let all : ltb reaches len ≡ false = le→ltb reaches len (ground arith) in
    rw all (
      ap (λ s. c_str d.name ++ (32 ∷ 61 ∷ 32 ∷ 39 ∷ []) ++ s ++ (39 ∷ 10 ∷ []))
        (c_str-ended (take len buffer) (drop (len + 1) d.value) ∙ ap c_str (cut buffer)))
  where
    cut :
        (xs : List ℕ)
        → take (if ltb foobar_len (length xs) then foobar_len else length xs) xs ≡ take 8 xs
    cut xs = elim (Bool-cases (ltb foobar_len (length xs))) [
      | inl e ↦ rw e
      | inr e ↦
          rw e
            (take-all (length xs) xs (omega arith) ∙ sym (take-all 8 xs (ltb→ge 8 (length xs) e)))
    ]
