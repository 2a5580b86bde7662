-- ===== src/Sfs/Inode/Modes.antt =====
-- Permissions of an entry and mode bits of an inode, and what a failed write looks like.
use linuxpedia.Prelude.{ℕ, zero, suc, ◌<◌, ◌≡◌, refl, false, List, arith}
use linuxpedia.Prelude.Int.{minus_one, eq_ℤ}
use linuxpedia.Sfs.Device.{BufferCache}
use linuxpedia.Sfs.BlockIo.{Fs, write_to_real_sfs}
use linuxpedia.Sfs.Inode.{perms_of_mode, mode_of_perms}

-- The permissions that an entry holds survive the inode's mode bits: sfs_write_inode stores what
-- sfs_inode_lookup showed.
perms_of_mode-mode_of_perms : (perms : ℕ) → perms < 8 → perms_of_mode (mode_of_perms perms) ≡ perms
unfolding perms_of_mode mode_of_perms
perms_of_mode-mode_of_perms zero h = refl
perms_of_mode-mode_of_perms (suc zero) h = refl
perms_of_mode-mode_of_perms (suc (suc zero)) h = refl
perms_of_mode-mode_of_perms (suc (suc (suc zero))) h = refl
perms_of_mode-mode_of_perms (suc (suc (suc (suc zero)))) h = refl
perms_of_mode-mode_of_perms (suc (suc (suc (suc (suc zero))))) h = refl
perms_of_mode-mode_of_perms (suc (suc (suc (suc (suc (suc zero)))))) h = refl
perms_of_mode-mode_of_perms (suc (suc (suc (suc (suc (suc (suc zero))))))) h = refl
perms_of_mode-mode_of_perms (suc (suc (suc (suc (suc (suc (suc (suc n)))))))) h =
    absurd (omega arith)

module _ {D : Type 0} ⦃cache : BufferCache D⦄ where
  -- write_to_real_sfs never returns -1, the only value that its callers take for a failure.
  pub write_to_real_sfs-ne-minus_one :
      (fs : Fs D) (block offset : ℕ) (buf : List ℕ)
      → eq_ℤ (write_to_real_sfs fs block offset buf).0 minus_one ≡ false
  unfolding write_to_real_sfs
  write_to_real_sfs-ne-minus_one fs block offset buf = ground arith
