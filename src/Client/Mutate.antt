-- ===== src/Client/Mutate.antt =====
-- The handlers of afs_client.cc that make and remove names: `afs_mknod`, `afs_unlink`, `afs_mkdir`
-- and `afs_rmdir`.
use distributed_systems_afsv.Base.{
  ℤ, pos, negsuc, negate, Bool, false, none, some, [], ◌∷◌, ◌==◌, if◌then◌else◌, Bytes,
}
use distributed_systems_afsv.Client.{
  Client, OpEnv, is_ok, cached, set_modified, erase_modified, erase_dirty, unlink_cache,
}
use distributed_systems_afsv.Client.Stub.{Stub}
use distributed_systems_afsv.Client.Release.{Outcome, returned, stuck}
use distributed_systems_afsv.Hash.{Sha256}
use distributed_systems_afsv.Posix.{find, create, eexist, eio}
use distributed_systems_afsv.Proto.{Response, Meta, Status}

abbrev pub is_zero : ℤ → Bool
is_zero (pos n) = n == 0
is_zero (negsuc n) = false

-- `if (res.return_code() < 0) return -res.error_number(); return res.return_code();`
abbrev pub code_of : Response → ℤ
code_of res = elim res.return_code [ pos n ↦ pos n | negsuc n ↦ negate res.error_number ]

module _ (sha : Sha256) {R : Type 0} (stub : Stub R) where
  -- On the answer to the empty upload.
  unfoldable pub made : OpEnv → Bytes → Status → Meta → R → Client → Outcome R
  made env path status meta r c =
      if is_ok status
      then returned (pos 0) r (set_modified sha env path meta.timestamp c)
      else returned (pos eio) r c

  unfoldable pub send_empty : OpEnv → Bytes → R → Client → Outcome R
  unfolding made
  send_empty env path r c = elim (stub.write (record { filepath = path; b = [] } ∷ []) r) [
    | none ↦ stuck
    | some (status, meta, r') ↦ made env path status meta r' c
  ]

  -- The local file is made with `O_CREAT | O_EXCL`; the code for a name that the server has is
  -- `EEXIST`, with no minus sign.
  unfoldable pub afs_mknod : OpEnv → Bytes → R → Client → Outcome R
  unfolding send_empty
  afs_mknod env path r c =
      if is_zero (stub.stat path r).return_code
      then returned (pos eexist) r c
      else elim env.refusal [
        | some errno ↦ returned (negate errno) r c
        | none ↦ elim (find (cached sha c path) c.fs) [
          | some i ↦ returned (negate eexist) r c
          | none ↦
              send_empty env path r (record c { fs = (create (cached sha c path) env.now c.fs).1 })
        ]
      ]

  -- The cache file and the entries of both tables go before the server is asked.
  unfoldable pub afs_unlink : OpEnv → Bytes → R → Client → ℤ × R × Client
  afs_unlink env path r c =
      let c' = erase_dirty sha path (erase_modified sha path (unlink_cache sha env path c)) in
      let (res, r') = stub.unlink path r in (code_of res, r', c')

module _ {R : Type 0} (stub : Stub R) where
  unfoldable pub afs_mkdir : Bytes → R → ℤ × R
  afs_mkdir path r = let (res, r') = stub.mkdir path r in (code_of res, r')

  unfoldable pub afs_rmdir : Bytes → R → ℤ × R
  afs_rmdir path r = let (res, r') = stub.rmdir path r in (code_of res, r')
