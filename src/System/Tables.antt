-- ===== src/System/Tables.antt =====
-- What a client reads from its tables after it wrote to them, and from a cache file that it filled.
use distributed_systems_afsv.Base.{
  ℕ, ◌≡◌, refl, sym, ap, ◌∙◌, Bool, true, false, none, some, List, [], ◌∷◌, ◌++◌, map, append_assoc,
  append-nil, arith, Bytes, equal_refl, pos,
}
use distributed_systems_afsv.Base.Dict
use distributed_systems_afsv.Client.{Client, OpEnv, append_blocks, cached, give_file}
use distributed_systems_afsv.Client.Open.{store_blocks}
use distributed_systems_afsv.Dirty
use distributed_systems_afsv.Dirty.{IsDirty}
use distributed_systems_afsv.Dirty.Session.{lookup-set}
use distributed_systems_afsv.Hash.{Sha256, hash_path}
use distributed_systems_afsv.Journal.{Env}
use distributed_systems_afsv.Modified
use distributed_systems_afsv.Modified.{LastModified}
use distributed_systems_afsv.Modified.Calls.{lookup-set_key, lookup-erase_key}
use distributed_systems_afsv.Posix.{Fs, find, create, append, read_file}
use distributed_systems_afsv.Posix.Laws.{
  create-find, create-inode, append-find, append-inode, read_file_found,
}
use distributed_systems_afsv.Proto.{MetaContent}
use distributed_systems_afsv.Stream.{concat}

module _ (sha : Sha256) (env : Env) (path : Bytes) where
  modified_lookup-set :
      (ts : Bytes) (m : LastModified)
      → Dict.lookup (hash_path sha path) (Modified.set sha env path ts m).0.table ≡ some ts
  unfolding Modified.set
  modified_lookup-set ts m =
      let k = hash_path sha path in lookup-set_key env k k ts m ∙ rw (equal_refl k) refl

  dirty_lookup-set :
      (b : Bool) (m : IsDirty)
      → Dict.lookup (hash_path sha path) (Dirty.set sha env path b m).0.table ≡ some b
  unfolding Dirty.set
  dirty_lookup-set b m =
      let k = hash_path sha path in lookup-set env k k b m ∙ rw (equal_refl k) refl

  pub modified_get-set :
      (ts : Bytes) (m : LastModified)
      → Modified.get sha path (Modified.set sha env path ts m).0 ≡ ts
  unfolding Modified.get
  modified_get-set ts m = ground (arith, modified_lookup-set ts m)

  pub modified_count-set :
      (ts : Bytes) (m : LastModified)
      → Modified.count sha path (Modified.set sha env path ts m).0 ≡ true
  unfolding Modified.count Dict.count
  modified_count-set ts m = ground (arith, modified_lookup-set ts m)

  pub dirty_get-set :
      (b : Bool) (m : IsDirty) → Dirty.get sha path (Dirty.set sha env path b m).0 ≡ b
  unfolding Dirty.get
  dirty_get-set b m = ground (arith, dirty_lookup-set b m)

module _ (sha : Sha256) where
  modified_lookup-erase :
      (path : Bytes) (m : LastModified)
      → Dict.lookup (hash_path sha path) (Modified.erase sha path m).0.table ≡ none
  unfolding Modified.erase
  modified_lookup-erase path m =
      let k = hash_path sha path in lookup-erase_key k k m ∙ rw (equal_refl k) refl

  pub modified_count-erase :
      (path : Bytes) (m : LastModified)
      → Modified.count sha path (Modified.erase sha path m).0 ≡ false
  unfolding Modified.count Dict.count
  modified_count-erase path m = ground (arith, modified_lookup-erase path m)

  -- Opening changes no file and no table, and its code is always 0.
  pub give_file_lem :
      (env : OpEnv) (path : Bytes) (c : Client)
      → ((give_file sha env path c).code ≡ pos 0)
        × ((give_file sha env path c).client.fs ≡ c.fs)
        × ((give_file sha env path c).client.modified ≡ c.modified)
        × ((give_file sha env path c).client.dirty ≡ c.dirty)
        × ((give_file sha env path c).client.cache_root ≡ c.cache_root)
  unfolding give_file
  give_file_lem env path c = ground arith

append_blocks-find :
    (i : ℕ) (now q : Bytes) (msgs : List MetaContent) (fs : Fs)
    → find q (append_blocks i now msgs fs) ≡ find q fs
unfolding append_blocks
append_blocks-find i now q [] fs = refl
append_blocks-find i now q (m ∷ ms) fs =
    append_blocks-find i now q ms (append i m.b now fs) ∙ append-find i m.b now q fs

append_blocks-inode :
    (i : ℕ) (now : Bytes) (msgs : List MetaContent) (fs : Fs)
    → ((append_blocks i now msgs fs).inodes i).content
      ≡ (fs.inodes i).content ++ concat (map (λ m. m.b) msgs)
unfolding append_blocks concat
append_blocks-inode i now [] fs = sym (append-nil _)
append_blocks-inode i now (m ∷ ms) fs =
    let blocks = concat (map (λ m. m.b) ms) in
    append_blocks-inode i now ms (append i m.b now fs)
    ∙ ap (λ x. x ++ blocks) (append-inode i m.b now fs).0
    ∙ append_assoc (fs.inodes i).content m.b blocks

store_blocks_opened :
    (sha : Sha256) (env : OpEnv) (path : Bytes) (msgs : List MetaContent) (c : Client)
    → env.refusal ≡ none
    → (store_blocks sha env path msgs c).fs
      ≡ append_blocks
          (create (cached sha c path) env.now c.fs).0
          env.now
          msgs
          (create (cached sha c path) env.now c.fs).1
unfolding store_blocks
store_blocks_opened sha env path msgs c works = ground (arith, works)

-- A download leaves the blocks that came as the content of the cache file.
pub store_blocks-read :
    (sha : Sha256) (env : OpEnv) (path : Bytes) (msgs : List MetaContent) (c : Client)
    → env.refusal ≡ none
    → read_file (cached sha c path) (store_blocks sha env path msgs c).fs
      ≡ some (concat (map (λ m. m.b) msgs))
store_blocks-read sha env path msgs c works =
    let name = cached sha c path in
    let made = create name env.now c.fs in
    let found =
      append_blocks-find made.0 env.now name msgs made.1 ∙ create-find name env.now c.fs in
    let blocks = concat (map (λ m. m.b) msgs) in
    ap (read_file name) (store_blocks_opened sha env path msgs c works)
    ∙ read_file_found name made.0 _ found
    ∙ ap some (
        append_blocks-inode made.0 env.now msgs made.1
        ∙ ap (λ x. x ++ blocks) (create-inode name env.now c.fs).0)
