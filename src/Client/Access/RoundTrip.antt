-- ===== src/Client/Access/RoundTrip.antt =====
-- Reading back what `afs_write` wrote, and what changes of the size do to an upload.
use distributed_systems_afsv.Base.{
  [], ◌∷◌, ℕ, zero, suc, ◌+◌, ◌-◌, ◌≡◌, refl, sym, ap, ◌∙◌, true, false, none, some, ◌++◌, pos,
  arith, Bytes, length, take, drop, replicate, take-append, drop-append, length-append, length-take,
}
use distributed_systems_afsv.Client.{Client, OpEnv, set_dirty}
use distributed_systems_afsv.Client.Access.{afs_read, afs_write, afs_truncate}
use distributed_systems_afsv.Client.Release.{returned, afs_release, close_fd}
use distributed_systems_afsv.Client.Stub.{Stub}
use distributed_systems_afsv.Dirty
use distributed_systems_afsv.Hash.{Sha256}
use distributed_systems_afsv.Posix.{Fs, write_at}
use distributed_systems_afsv.System.Tables.{dirty_get-set}

length-replicate : (n a : ℕ) → length (replicate n a) ≡ n
length-replicate zero a = refl
length-replicate (suc n) a = ap suc (length-replicate n a)

abbrev front_of : ℕ → Bytes → Bytes
front_of offset old = take offset old ++ replicate (offset - length old) 0

-- The content of a file behind a write.
abbrev pub written_over : ℕ → Bytes → Bytes → Bytes
written_over offset [] old = old
written_over offset (x ∷ xs) old =
    front_of offset old ++ (x ∷ xs ++ drop (offset + length (x ∷ xs)) old)

pub write_at-content :
    (i offset : ℕ) (b now : Bytes) (fs : Fs)
    → ((write_at i offset b now fs).inodes i).content ≡ written_over offset b (fs.inodes i).content
unfolding write_at
write_at-content i offset [] now fs = refl
write_at-content i offset (x ∷ xs) now fs = ground arith

length-front_of : (offset : ℕ) (old : Bytes) → length (front_of offset old) ≡ offset
length-front_of offset old = omega (
  arith,
  length-append (take offset old) (replicate (offset - length old) 0),
  length-take offset old,
  length-replicate (offset - length old) 0,
)

-- The bytes at `offset` are those that were written there, also behind the end of the file.
pub written_over-read :
    (offset : ℕ) (b old : Bytes) → take (length b) (drop offset (written_over offset b old)) ≡ b
written_over-read offset [] old = refl
written_over-read offset (x ∷ xs) old =
    let b = x ∷ xs in
    let rest = b ++ drop (offset + length b) old in
    ap (λ n. take (length b) (drop n (front_of offset old ++ rest)))
      (sym (length-front_of offset old))
    ∙ ap (take (length b)) (drop-append (front_of offset old) rest)
    ∙ take-append b (drop (offset + length b) old)

write_at-read :
    (i offset : ℕ) (b now : Bytes) (fs : Fs)
    → take (length b) (drop offset ((write_at i offset b now fs).inodes i).content) ≡ b
write_at-read i offset b now fs =
    ap (λ x. take (length b) (drop offset x)) (write_at-content i offset b now fs)
    ∙ written_over-read offset b (fs.inodes i).content

dirty-truncate :
    (sha : Sha256) (env : OpEnv) (path : Bytes) (size : ℕ) (c : Client)
    → (afs_truncate sha env path size c).1.dirty ≡ c.dirty
unfolding afs_truncate
dirty-truncate sha env path size c = ground arith

module _ (sha : Sha256) (env later : OpEnv) (path buf : Bytes) (offset fh i : ℕ) (c : Client)
    (works : env.refusal ≡ none) (open_fd : c.fds fh ≡ some i) where
  pub afs_write_ok : afs_write sha env path buf offset fh c ≡ (
    pos (length buf),
    record (set_dirty sha env path true c) { fs = write_at i offset buf env.now c.fs },
  )
  unfolding afs_write
  afs_write_ok = rw (afs_write, works, open_fd) refl

  afs_read_ok :
      (d : Client)
      → later.refusal ≡ none
      → d.fds fh ≡ some i
      → (b : Bytes) → take (length buf) (drop offset (d.fs.inodes i).content) ≡ b
      → afs_read later (length buf) offset fh d ≡ (pos (length b), b)
  unfolding afs_read
  afs_read_ok d works' open' b e = rw (afs_read, works', open', e) refl

  -- A write to an open descriptor marks the file for upload and returns the number of its bytes,
  -- and a read of as many bytes at the same offset returns those bytes, wherever the offset lies.
  -- The system refuses neither call.
  pub read-write :
      later.refusal ≡ none
      → let (code, after) = afs_write sha env path buf offset fh c in
        (code ≡ pos (length buf))
        × (Dirty.get sha path after.dirty ≡ true)
        × (afs_read later (length buf) offset fh after ≡ (pos (length buf), buf))
  read-write works' = rw afs_write_ok (
    refl,
    dirty_get-set sha env.dirty_env path true c.dirty,
    afs_read_ok _ works' open_fd buf (write_at-read i offset buf env.now c.fs),
  )

-- A change of the size marks nothing for upload: after `afs_truncate` of a file that is not dirty,
-- closing it returns 0 and asks the server for nothing, whatever the new size.
pub truncate_not_uploaded :
    (sha : Sha256) {R : Type 0} (stub : Stub R) (env later : OpEnv) (path : Bytes) (size fh : ℕ)
    (r : R) (c : Client)
    → Dirty.get sha path c.dirty ≡ false
    → (d : Client) × (afs_release sha stub later path fh r (afs_truncate sha env path size c).1
        ≡ returned (pos 0) r d)
unfolding afs_release
truncate_not_uploaded sha stub env later path size fh r c clean =
    let d = (afs_truncate sha env path size c).1 in
    let same : Dirty.get sha path d.dirty ≡ false =
      ap (Dirty.get sha path) (dirty-truncate sha env path size c) ∙ clean in
    (close_fd fh d, rw (afs_release, same) refl)
