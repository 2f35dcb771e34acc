-- ===== src/Client/Access.antt =====
-- The handlers of afs_client.cc that read, write and look: `afs_readdir`, `afs_getattr`,
-- `afs_fsync`, `afs_read`, `afs_write`, `afs_ftruncate` and `afs_truncate`.
pub mod RoundTrip
use distributed_systems_afsv.Base.{
  ℕ, ◌+◌, ℤ, pos, negsuc, negate, Bool, true, false, Option, none, some, List, [], ◌⊎◌, inl, inr,
  leb, if◌then◌else◌, Bytes, length, take, drop,
}
use distributed_systems_afsv.Client.{Client, OpEnv, cached, set_dirty}
use distributed_systems_afsv.Client.Stub.{Stub}
use distributed_systems_afsv.Hash.{Sha256}
use distributed_systems_afsv.Posix.{Fs, find, write_at, set_size, enoent, ebadf}
use distributed_systems_afsv.Proto.{StatContent}

abbrev enomem : ℕ
enomem = 12

-- A call on a descriptor: the inode, or the errno.
abbrev pub on_fd : OpEnv → ℕ → Client → ℕ ⊎ ℕ
on_fd env fh c = elim env.refusal [
  | some errno ↦ inl errno
  | none ↦ elim (c.fds fh) [ none ↦ inl ebadf | some i ↦ inr i ]
]

module _ {R : Type 0} (stub : Stub R) where
  -- `room` is how many names the buffer of `filler` takes.
  unfoldable pub afs_readdir : ℕ → Bytes → R → ℤ × List Bytes
  afs_readdir room path r =
      let names = stub.ls path r in
      if leb (length names) room then (pos 0, names) else (negate enomem, take room names)

  -- The code, and what `stbuf` is filled from.
  unfoldable pub afs_getattr : Bytes → R → ℤ × Option StatContent
  afs_getattr path r =
      let response = stub.stat path r in
      elim response.return_code [
        | pos n ↦ (pos n, some response)
        | negsuc n ↦ (negate response.error_number, none)
      ]

unfoldable pub afs_fsync : OpEnv → ℕ → Client → ℤ
afs_fsync env fh c = elim (on_fd env fh c) [ inl errno ↦ negate errno | inr i ↦ pos 0 ]

-- The code, and the bytes that `pread` puts into the buffer.
unfoldable pub afs_read : OpEnv → ℕ → ℕ → ℕ → Client → ℤ × Bytes
afs_read env size offset fh c = elim (on_fd env fh c) [
  | inl errno ↦ (negate errno, [])
  | inr i ↦ (let b = take size (drop offset (c.fs.inodes i).content) in (pos (length b), b))
]

unfoldable pub afs_ftruncate : OpEnv → ℕ → ℕ → Client → ℤ × Client
afs_ftruncate env offset fh c = elim (on_fd env fh c) [
  | inl errno ↦ (negate errno, c)
  | inr i ↦ (pos 0, record c { fs = set_size i offset env.now c.fs })
]

module _ (sha : Sha256) where
  -- The file is marked dirty before the bytes are written.
  unfoldable pub afs_write : OpEnv → Bytes → Bytes → ℕ → ℕ → Client → ℤ × Client
  afs_write env path buf offset fh c =
      let c' = set_dirty sha env path true c in
      elim (on_fd env fh c') [
        | inl errno ↦ (negate errno, c')
        | inr i ↦ (pos (length buf), record c' { fs = write_at i offset buf env.now c'.fs })
      ]

  unfoldable pub afs_truncate : OpEnv → Bytes → ℕ → Client → ℤ × Client
  afs_truncate env path newsize c = elim env.refusal [
    | some errno ↦ (negate errno, c)
    | none ↦ elim (find (cached sha c path) c.fs) [
      | none ↦ (negate enoent, c)
      | some i ↦ (pos 0, record c { fs = set_size i newsize env.now c.fs })
    ]
  ]
