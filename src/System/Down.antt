-- ===== src/System/Down.antt =====
-- What the handlers of the client tell the user when the server does not answer, or when the local
-- system refuses to open a file.
use distributed_systems_afsv.Base.{
  ℕ, ◌≡◌, ◌⊎◌, inl, inr, refl, ap, ◌∙◌, true, false, none, some, List, [], ◌∷◌, pos, negate, arith,
  Bytes, equal, Bool-cases,
}
use distributed_systems_afsv.Client.{
  Client, OpEnv, Opened, cached, give_file, open_local, failed_fh, unlink_cache, erase_modified,
  is_ok,
}
use distributed_systems_afsv.Client.Open.{afs_open, download, receive, finish_open}
use distributed_systems_afsv.Client.Mutate.{afs_mknod, afs_unlink}
use distributed_systems_afsv.Client.Release.{returned}
use distributed_systems_afsv.Client.Stub.{Stub}
use distributed_systems_afsv.Hash.{Sha256}
use distributed_systems_afsv.Modified
use distributed_systems_afsv.Modified.{local_creat_file}
use distributed_systems_afsv.Posix.{read_file, is_file, eio, eexist}
use distributed_systems_afsv.Posix.Laws.{unlink_not_refused, read_file_missing}
use distributed_systems_afsv.Proto.{MetaContent, Status, no_stat}
use distributed_systems_afsv.Client.Access.{afs_getattr}
use distributed_systems_afsv.Server.{Server}
use distributed_systems_afsv.System.Making.{afs_getattr-found}
use distributed_systems_afsv.System.{Network, afs_stub}
use distributed_systems_afsv.System.Tables.{modified_count-erase}

module _ (sha : Sha256) (root : Bytes) (net : Network) (down : net.up ≡ false) where
  open_down :
      (env : OpEnv) (path : Bytes) (fh : ℕ) (s : Server) (c : Client)
      → Modified.count sha path c.modified ≡ true
      → equal (Modified.get sha path c.modified) local_creat_file ≡ false
      → equal [] (Modified.get sha path c.modified) ≡ false
      → afs_open sha (afs_stub sha root net) env path fh s c ≡ record {
        code = negate eio;
        fh = fh;
        client = unlink_cache sha env path (erase_modified sha path c);
      }
  unfolding afs_open download receive
  open_down env path fh s c known shared stamped = rw (afs_open, known, shared, down, stamped) refl

  -- When the server does not answer, an open of a file that has a cached copy, not locally created
  -- and with a timestamp that is not empty, returns -EIO and takes away the copy and its
  -- timestamp, whether or not the copy has writes to upload; what `is_dirty` says stays. The local
  -- system does not refuse to remove the copy.
  pub open_down_discards :
      (env : OpEnv) (path : Bytes) (fh : ℕ) (s : Server) (c : Client)
      → Modified.count sha path c.modified ≡ true
      → equal (Modified.get sha path c.modified) local_creat_file ≡ false
      → equal [] (Modified.get sha path c.modified) ≡ false
      → is_file (cached sha c path) c.fs ≡ true
      → env.unlink_refusal ≡ none
      → let after = afs_open sha (afs_stub sha root net) env path fh s c in
        (after.code ≡ negate eio)
        × (read_file (cached sha c path) after.client.fs ≡ none)
        × (Modified.count sha path after.client.modified ≡ false)
        × (after.client.dirty ≡ c.dirty)
  unfolding cached
  open_down_discards env path fh s c known shared stamped file removes =
      rw (open_down env path fh s c known shared stamped) (
        refl,
        read_file_missing _ _
            (unlink_not_refused env.unlink_refusal (cached sha c path) c.fs removes file),
        modified_count-erase sha path c.modified,
        refl,
      )

  unlink_down :
      (env : OpEnv) (path : Bytes) (s : Server) (c : Client)
      → let (code, s', c') = afs_unlink sha (afs_stub sha root net) env path s c in
        (code ≡ pos 0) × (s' ≡ s) × (Modified.count sha path c'.modified ≡ false)
  unfolding afs_unlink
  unlink_down env path s c = (rw down refl, rw down refl, modified_count-erase sha path c.modified)

  mknod_down :
      (env : OpEnv) (path : Bytes) (s : Server) (c : Client)
      → afs_mknod sha (afs_stub sha root net) env path s c ≡ returned (pos eexist) s c
  unfolding afs_mknod
  mknod_down env path s c = rw (afs_mknod, down) refl

  -- When the server does not answer, the client reports its default answers as results:
  -- `afs_unlink` returns 0, the server is as it was, and the client has no timestamp for the file;
  -- `afs_mknod` returns `EEXIST`, and changes neither client nor server; `afs_getattr` returns 0,
  -- with zeros and empty times.
  pub names_down :
      (env : OpEnv) (path : Bytes) (s : Server) (c : Client)
      → let (code, s', c') = afs_unlink sha (afs_stub sha root net) env path s c in
        ((code ≡ pos 0) × (s' ≡ s) × (Modified.count sha path c'.modified ≡ false))
        × (afs_mknod sha (afs_stub sha root net) env path s c ≡ returned (pos eexist) s c)
        × (afs_getattr (afs_stub sha root net) path s ≡ (pos 0, some no_stat))
  names_down env path s c =
      let stub = afs_stub sha root net in
      (
        unlink_down env path s c,
        mknod_down env path s c,
        afs_getattr-found stub path s (rw down refl) ∙ ap (λ r. (pos 0, some r)) (rw down refl),
      )

give_file_refused :
    (sha : Sha256) (env : OpEnv) (errno : ℕ) (path : Bytes) (c : Client)
    → env.refusal ≡ some errno
    → give_file sha env path c ≡ record { code = pos 0; fh = failed_fh; client = c }
unfolding give_file open_local
give_file_refused sha env errno path c h = ground (arith, h)

-- An open fails to get its file, or ends in `give_file`.
abbrev Gives : Sha256 → OpEnv → Bytes → Opened → Type 0
Gives sha env path o = (o.code ≡ negate eio) ⊎ ((w : Client) × (o ≡ give_file sha env path w))

receive-Gives :
    (sha : Sha256) (env : OpEnv) (path : Bytes) (fh : ℕ) (msgs : List MetaContent) (status : Status)
    (c : Client)
    → Gives sha env path (receive sha env path fh msgs status c)
unfolding receive finish_open
receive-Gives sha env path fh [] status c = inl refl
receive-Gives sha env path fh (m ∷ ms) status c = elim (Bool-cases m.file_exists) [
  | inl there ↦ elim (Bool-cases (is_ok status)) [
    | inl whole ↦ rw (there, whole) (inr (_, refl))
    | inr broken ↦ rw (there, broken) (inl refl)
  ]
  | inr missing ↦ rw missing (inr (_, refl))
]

module _ (sha : Sha256) {R : Type 0} (stub : Stub R) (env : OpEnv) (path : Bytes) where
  afs_open-Gives :
      (fh : ℕ) (r : R) (c : Client) → Gives sha env path (afs_open sha stub env path fh r c)
  unfolding afs_open download
  afs_open-Gives fh r c = elim (Bool-cases (Modified.count sha path c.modified)) [
    | inl known ↦ elim (Bool-cases (equal (Modified.get sha path c.modified) local_creat_file)) [
      | inl local ↦ rw (known, local) (inr (c, refl))
      | inr shared ↦
          elim (Bool-cases (equal (stub.stat path r).st_mtim (Modified.get sha path c.modified))) [
            | inl hit ↦ rw (known, shared, hit) (inr (c, refl))
            | inr stale ↦ rw (known, shared, stale) (receive-Gives sha env path fh _ _ _)
          ]
    ]
    | inr missing ↦ rw missing (receive-Gives sha env path fh _ _ _)
  ]

  -- When the local system refuses to open the cached copy, `afs_open` returns -EIO for a download
  -- that failed, and otherwise 0, with 2^64 - 1 in `fi->fh`.
  pub open_refused_succeeds :
      (errno fh : ℕ) (r : R) (c : Client)
      → env.refusal ≡ some errno
      → let after = afs_open sha stub env path fh r c in
        (after.code ≡ negate eio) ⊎ ((after.code ≡ pos 0) × (after.fh ≡ failed_fh))
  open_refused_succeeds errno fh r c refused = elim (afs_open-Gives fh r c) [
    | inl failed ↦ inl failed
    | inr (w, e) ↦
        let given = e ∙ give_file_refused sha env errno path w refused in
        inr (ap (λ o. o.code) given, ap (λ o. o.fh) given)
  ]
