-- ===== src/System/Honest/Unlink.antt =====
-- `afs_unlink` of one client: what it and the other clients promise behind it.
use distributed_systems_afsv.Base.{refl, sym, Bytes, Bool-cases, inl, inr}
use mathlib.Core.Path.{subst}
use distributed_systems_afsv.Client.{Client, OpEnv}
use distributed_systems_afsv.Client.Mutate.{afs_unlink}
use distributed_systems_afsv.Hash.{Sha256}
use distributed_systems_afsv.Posix.Laws.{IsFs}
use distributed_systems_afsv.Posix.Same.{Same, Same-refl, Unlinked, refused, gone, unlink-Unlinked}
use distributed_systems_afsv.Server
use distributed_systems_afsv.Server.{Server, fs_path}
use distributed_systems_afsv.System.{Network, afs_stub}
use distributed_systems_afsv.System.Honest.{
  IsHonest, unknown-IsHonest, missing-IsHonest, IsHonest-server,
}
use distributed_systems_afsv.System.Tables.{modified_count-erase}

module _ (sha : Sha256) (root p : Bytes) (net : Network) (env : OpEnv) (s : Server)
    (c : Client) where
  abbrev left : Server
  left = (afs_unlink sha (afs_stub sha root net) env p s c).1

  pub afs_unlink-IsHonest :
      IsHonest sha root p left (afs_unlink sha (afs_stub sha root net) env p s c).2
  unfolding afs_unlink
  afs_unlink-IsHonest =
      unknown-IsHonest sha root p left (afs_unlink sha (afs_stub sha root net) env p s c).2
        (modified_count-erase sha p c.modified)

  afs_unlink-Unlinked : IsFs s.fs → Unlinked (fs_path root p) s.fs left.fs
  unfolding afs_unlink Server.unlink
  afs_unlink-Unlinked w = elim (Bool-cases net.up) [
    | inr down ↦ rw (afs_unlink, down) (refused refl)
    | inl up ↦ rw (afs_unlink, up) (unlink-Unlinked net.kernel (fs_path root p) s.fs w)
  ]

  -- The others, and the files of the server.
  pub afs_unlink-others :
      (d : Client) → IsFs s.fs → IsHonest sha root p s d → IsFs left.fs × IsHonest sha root p left d
  afs_unlink-others d w h = elim (afs_unlink-Unlinked w) [
    | gone missing well ↦ (well, missing-IsHonest sha root p left d missing)
    | refused same ↦ (
      rw same w,
      IsHonest-server sha root p s left d
          (subst (λ fs. Same (fs_path root p) s.fs fs) (sym same) (Same-refl (fs_path root p) s.fs))
          h,
    )
  ]
