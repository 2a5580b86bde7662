-- ===== src/Sfs/Super/Laws.antt =====
-- Memory over the life of a mount, and the number of a block size's bits.
use native.Mathlib.Nat.{pow-suc}
use linuxpedia.Prelude.{
  ℕ, zero, suc, ◌+◌, ◌*◌, ◌/◌, ◌^◌, ◌≤◌, ◌<◌, ◌≡◌, refl, ◌⊎◌, inl, inr, Bool, true, false, not,
  none, some, [], ◌||◌, arith, Option-cases, ap, ◌∙◌, Bool-cases, ◌==◌, ==→eq, ==→ne, ne→==,
}
use linuxpedia.Prelude.Int.{pos, is_neg}
use linuxpedia.Sfs.Device.{BufferCache}
use linuxpedia.Sfs.Layout.{simula_fs_type}
use linuxpedia.Sfs.BlockIo.{Fs, read_sb_from_real_sfs}
use linuxpedia.Sfs.BlockIo.Laws.{Transfer-cases}
use linuxpedia.Sfs.Mount.{init_browsing, initial_map, mark_loop, get_bit_pos, bit_loop}
use linuxpedia.Sfs.Super.{Memory, no_memory, vfree, browsing_memory, sfs_fill_super, sfs_kill_sb}

abbrev info_only : Memory
info_only = record no_memory { info_live = true }

-- The tracker is left where init_browsing has returned 0, and only there.
browsing_memory_lem :
    {D : Type 0} ⦃cache : BufferCache D⦄ (d : D) (vmalloc : Bool)
    → ((init_browsing d vmalloc).1 ≡ none → browsing_memory d vmalloc info_only ≡ info_only)
      × ((fs : Fs D)
          → (init_browsing d vmalloc).1 ≡ some fs
          → browsing_memory d vmalloc info_only
            ≡ record { info_live = true; map_live = true; s_fs_info = true; faults = 0 })
unfolding init_browsing browsing_memory vfree
browsing_memory_lem {D = D} d vmalloc = elim (Transfer-cases (read_sb_from_real_sfs d)) [
  | inl (code, e) ↦ rw (e, init_browsing, browsing_memory) (λ h. refl, λ fs h. absurd (cc))
  | inr (sb, e) ↦ elim (Bool-cases (sb.type == simula_fs_type)) [
    | inr other ↦ rw (e, init_browsing, browsing_memory, other) (λ h. refl, λ fs h. absurd (cc))
    | inl ours ↦ elim (Bool-cases vmalloc) [
      | inr missing ↦
          rw (e, init_browsing, browsing_memory, ours, missing) (λ h. refl, λ fs h. absurd (cc))
      | inl got ↦
          let bare : Fs D = record { sb = sb; used_blocks = []; dev = d } in
          elim (Transfer-cases (mark_loop bare sb.entry_count 0 (initial_map sb))) [
            | inl (code, f) ↦
                rw (e, init_browsing, browsing_memory, ours, got, f)
                  (λ h. refl, λ fs h. absurd (cc))
            | inr (used, f) ↦
                rw (e, init_browsing, browsing_memory, ours, got, f)
                  (λ h. absurd (cc), λ fs h. refl)
          ]
    ]
  ]
]

module _ {D : Type 0} ⦃cache : BufferCache D⦄ (d : D) (kzalloc vmalloc iget fresh root : Bool) where
  -- A mount that succeeds holds `info` and its tracker; unmounting frees both, and nothing twice.
  -- A mount that fails holds nothing, and has freed nothing twice.
  pub fill_super-frees :
      let (code, info, m) = sfs_fill_super d kzalloc vmalloc iget fresh root in
      (m.faults ≡ 0)
      × (((code ≡ pos 0)
            × (m.info_live ≡ true)
            × (m.map_live ≡ true)
            × (sfs_kill_sb m
                ≡ record { info_live = false; map_live = false; s_fs_info = true; faults = 0 }))
          ⊎ ((is_neg code ≡ true) × (info ≡ none) × (m.info_live ≡ false) × (m.map_live ≡ false)))
  unfolding sfs_fill_super sfs_kill_sb
  fill_super-frees =
      let memory = browsing_memory_lem d vmalloc in
      elim (Option-cases (init_browsing d vmalloc).1) [
        | inl e ↦ rw (e, memory.0 e) (ground arith)
        | inr (fs, e) ↦ rw (e, memory.1 fs e) (ground arith)
      ]

  -- After a mount that fails once `s_fs_info` is set, sfs_kill_sb uses and frees `info` again.
  pub kill_sb-frees_twice :
      (fs : Fs D)
      → kzalloc ≡ true
      → (init_browsing d vmalloc).1 ≡ some fs
      → not iget || not root ≡ true
      → (sfs_kill_sb (sfs_fill_super d kzalloc vmalloc iget fresh root).2).faults ≡ 2
  unfolding sfs_fill_super sfs_kill_sb
  kill_sb-frees_twice fs k e h = rw (e, k, (browsing_memory_lem d vmalloc).1 fs e) (ground arith)

-- The loop counts one shift for every binary digit.
bit_loop-digits :
    (f val i : ℕ)
    → 0 < val
    → val < 2 ^ f
    → (n : ℕ) × (bit_loop (suc f) val i ≡ some (suc (i + n))) × (2 ^ n ≤ val) × (val < 2 * 2 ^ n)
unfolding bit_loop
bit_loop-digits zero val i p h = absurd (omega arith)
bit_loop-digits (suc f) val i p h = elim (Bool-cases (val / 2 == 0)) [
  | inl last ↦
      let e : val ≡ 1 = omega (arith, ==→eq (val / 2) 0 last) in
      (
        0,
        rw (ne→== val 0 (omega arith), bit_loop, last) (ap some (omega arith)),
        omega arith,
        omega arith,
      )
  | inr more ↦
      let half : val / 2 < 2 ^ f = omega (arith, h, pow-suc 2 f) in
      let (n, r, low, high) =
        bit_loop-digits f (val / 2) (i + 1) (omega (arith, ==→ne (val / 2) 0 more)) half in
      (
        suc n,
        rw (ne→== val 0 (omega arith)) (r ∙ ap some (omega arith)),
        omega (arith, low, pow-suc 2 n),
        omega (arith, high, pow-suc 2 n),
      )
]

-- Of a block size that is not 0, get_bit_pos is the position of its highest bit.
pub get_bit_pos-log2 :
    (val : ℕ)
    → 0 < val
    → val < 2 ^ 32
    → (n : ℕ) × (get_bit_pos val ≡ some (pos n)) × (2 ^ n ≤ val) × (val < 2 * 2 ^ n)
unfolding get_bit_pos
get_bit_pos-log2 val p h =
    let (n, r, low, high) = bit_loop-digits 32 val 0 p h in
    (n, rw (r, get_bit_pos) (ap (λ k. some (pos k)) (omega arith)), low, high)
