-- ===== src/System/Honest/Upload.antt =====
-- `afs_release` and `afs_mknod` of one client: what the server has behind them, and what the client
-- promises.
use distributed_systems_afsv.System.Tables.{modified_get-set}
use distributed_systems_afsv.Base.{
  ◌≢◌, ℕ, ◌<◌, ◌≡◌, refl, sym, ap, ◌∙◌, ◌⊎◌, inl, inr, true, false, none, some, [], ◌∷◌, Bytes,
  length, Bool-cases, Option-cases,
}
use mathlib.Core.Path.{subst}
use distributed_systems_afsv.Client.{Client, OpEnv, cached, set_modified, set_dirty}
use distributed_systems_afsv.Client.Mutate.{afs_mknod, is_zero, send_empty, made}
use distributed_systems_afsv.Client.Release.{
  Outcome, returned, exited, stuck, afs_release, upload, uploaded, close_fd, messages,
}
use distributed_systems_afsv.Dirty
use distributed_systems_afsv.Modified
use distributed_systems_afsv.Hash.{Sha256}
use distributed_systems_afsv.Posix.{mtime_of, find, read_file, create}
use distributed_systems_afsv.Posix.Laws.{IsFs}
use distributed_systems_afsv.Posix.Same.{Same-mtime_of, Same, Same-refl}
use distributed_systems_afsv.Proto.{FilepathContent}
use distributed_systems_afsv.Server.{Server, fs_path}
use distributed_systems_afsv.Server.Write.{after_write, after_write-Stored, after_write-IsFs}
use distributed_systems_afsv.Server.Temporary.{payload}
use distributed_systems_afsv.Stream.{concat, send_file, bufsize}
use distributed_systems_afsv.System.{Network, afs_stub}
use distributed_systems_afsv.System.Close.{IsLive, stub_write, afs_release_dirty}
use distributed_systems_afsv.System.Honest.{
  other_time-IsHonest, IsHonest, dirty-IsHonest, same-IsHonest, IsHonest-client, IsHonest-server,
  absent-IsHonest,
}
use distributed_systems_afsv.System.Making.{afs_mknod_sends, stub_write_one, create-empty}
use distributed_systems_afsv.System.Transfer.{send_file-Blocks, payload-messages}
use distributed_systems_afsv.System.Uploads.{waits, fails, goes, loses, stub_write-Uploaded}

-- What holds of the server and the client if a handler returns.
abbrev pub After : (Server → Client → Type 0) → Outcome Server → Type 0
After P (returned code s c) = P s c
After P exited = Unit
After P stuck = Unit

module _ (sha : Sha256) (root p : Bytes) (net : Network) (s : Server) where
  -- Behind a handler that uploads: the server has the file as it was, or with the time of the
  -- `Write`.
  pub data Sent (t : Server) (c : Client) : Type 0 where
    kept : Same (fs_path root p) s.fs t.fs → IsFs t.fs → IsHonest sha root p t c → Sent t c
    stored :
        mtime_of (fs_path root p) t.fs ≡ some net.write_env.now
        → IsFs t.fs
        → IsHonest sha root p t c
        → Sent t c

  -- Nothing was sent.
  silent : (c : Client) → IsFs s.fs → IsHonest sha root p s c → Sent s c
  silent c w h = kept (Same-refl (fs_path root p) s.fs) w h

  -- A stream that breaks before the end of the file cancels its call.
  abbrev pub Whole : OpEnv → Client → Type 0
  Whole env c =
      ((b : Bytes) → read_file (cached sha c p) c.fs ≡ some b → length b < env.budget)
      ⊎ (net.write_env.is_cancelled ≡ true)

  module _ (env : OpEnv) (w : IsFs s.fs)
      (new : mtime_of (fs_path root p) s.fs ≢ some net.write_env.now) where
    -- A client that has the time of a `Write` which the server does not have.
    lost-IsHonest :
        (t : Server) (c : Client)
        → Same (fs_path root p) s.fs t.fs
        → Modified.get sha p c.modified ≡ net.write_env.now
        → IsHonest sha root p t c
    lost-IsHonest t c same stamp =
        other_time-IsHonest sha root p net.write_env.now t c
          (λ e. new (sym (Same-mtime_of (fs_path root p) s.fs t.fs same) ∙ e)) stamp

    upload-Sent :
        (b : Bytes) (c : Client)
        → Dirty.get sha p c.dirty ≡ true
        → read_file (cached sha c p) c.fs ≡ some b
        → (IsLive net → length b < env.budget)
        → After Sent (upload sha (afs_stub sha root net) env p (some b) s c)
    unfolding upload uploaded cached
    upload-Sent b c dirty has room =
        elim (stub_write-Uploaded sha root net (messages p (send_file bufsize env.budget b).0) s
          w) [
            | waits h ↦ rw (upload, h) tt
            | fails status meta t h bad same well ↦
                rw (upload, h, uploaded, bad)
                  (kept (same p) well (dirty-IsHonest sha root p t c dirty))
            | loses t h stays same well ↦
                let c' = set_modified sha env p net.write_env.now (set_dirty sha env p false c) in
                rw (upload, h)
                  (kept (same p) well (
                    lost-IsHonest t c' (same p)
                      (modified_get-set sha env.modified_env p net.write_env.now c.modified)))
            | goes live free ↦
                let (all, blocks) = send_file-Blocks env.budget b (room live) in
                let sent = messages p (blocks.first ∷ blocks.more) in
                let t = after_write sha root net.write_env p sent s in
                let file = after_write-Stored sha root net.write_env p sent s in
                let whole = payload-messages p (blocks.first ∷ blocks.more) ∙ blocks.whole in
                let c' = set_modified sha env p net.write_env.now (set_dirty sha env p false c) in
                rw (upload, stub_write sha root net env p b s blocks live free)
                  (stored file.mtime (after_write-IsFs sha root net.write_env p sent s w)
                    (same-IsHonest sha root p t c' (has ∙ ap some (sym whole) ∙ sym file.content)))
          ]

    pub afs_release-Sent :
        (fh : ℕ) (c : Client)
        → Whole env c
        → IsHonest sha root p s c
        → After Sent (afs_release sha (afs_stub sha root net) env p fh s c)
    unfolding afs_release upload cached
    afs_release-Sent fh c whole h = elim (Bool-cases (Dirty.get sha p c.dirty)) [
      | inr clean ↦
          rw (afs_release, clean)
            (silent (close_fd fh c) w
              (IsHonest-client sha root p s c (close_fd fh c) refl refl refl refl h))
      | inl dirty ↦ elim (Option-cases env.refusal) [
        | inr (errno, shut) ↦ rw (afs_release, dirty, shut) tt
        | inl opens ↦ elim (Option-cases (read_file (cached sha c p) c.fs)) [
          | inl missing ↦ rw (afs_release, dirty, opens, missing) tt
          | inr (b, has) ↦
              let sends =
                afs_release_dirty sha root net env p b (afs_stub sha root net) fh s c opens dirty
                  has in
              subst (After Sent) (sym sends)
                (upload-Sent b (close_fd fh c) dirty has (λ live. room b has live))
        ]
      ]
    ]
      where
        room :
            (b : Bytes)
            → read_file (cached sha c p) c.fs ≡ some b
            → IsLive net
            → length b < env.budget
        room b has live = elim whole [ inl fits ↦ fits b has | inr stop ↦ cc (stop, live.live) ]

    send_empty-Sent :
        (c d : Client)
        → find (cached sha c p) c.fs ≡ none
        → d.modified ≡ c.modified
        → d.dirty ≡ c.dirty
        → read_file (cached sha d p) d.fs ≡ some []
        → IsHonest sha root p s c
        → After Sent (send_empty sha (afs_stub sha root net) env p s d)
    unfolding send_empty made cached
    send_empty-Sent c d missing modified dirty empty h =
        let m : FilepathContent = record { filepath = p; b = [] } in
        elim (stub_write-Uploaded sha root net (m ∷ []) s w) [
          | waits e ↦ rw (send_empty, e) tt
          | fails status meta t e bad same well ↦
              rw (send_empty, e, made, bad)
                (kept (same p) well (
                  absent-IsHonest sha root p t c d missing modified dirty
                    (IsHonest-server sha root p s t c (same p) h)))
          | loses t e stays same well ↦
              let d' = set_modified sha env p net.write_env.now d in
              rw (send_empty, e)
                (kept (same p) well (
                  lost-IsHonest t d' (same p)
                    (modified_get-set sha env.modified_env p net.write_env.now d.modified)))
          | goes live free ↦
              let t = after_write sha root net.write_env p (m ∷ []) s in
              let file = after_write-Stored sha root net.write_env p (m ∷ []) s in
              let nothing : payload (m ∷ []) ≡ [] = unfold concat in refl in
              rw (send_empty, stub_write_one sha root p net s env m refl live free)
                (stored file.mtime (after_write-IsFs sha root net.write_env p (m ∷ []) s w) (
                  same-IsHonest sha root p t (set_modified sha env p net.write_env.now d)
                    (empty ∙ ap some (sym nothing) ∙ sym file.content)))
        ]

    pub afs_mknod-Sent :
        (c : Client)
        → IsHonest sha root p s c
        → After Sent (afs_mknod sha (afs_stub sha root net) env p s c)
    unfolding afs_mknod cached
    afs_mknod-Sent c h =
        elim (Bool-cases (is_zero ((afs_stub sha root net).stat p s).return_code)) [
          | inl there ↦ rw (afs_mknod, there) (silent c w h)
          | inr new ↦ elim (Option-cases env.refusal) [
            | inr (errno, shut) ↦ rw (afs_mknod, new, shut) (silent c w h)
            | inl works ↦ elim (Option-cases (find (cached sha c p) c.fs)) [
              | inr (i, found) ↦ rw (afs_mknod, new, works, found) (silent c w h)
              | inl missing ↦
                  subst (After Sent)
                    (sym (afs_mknod_sends sha root p net s env c new works missing))
                    (send_empty-Sent c (record c { fs = (create (cached sha c p) env.now c.fs).1 })
                      missing refl refl (create-empty sha root p net s env c) h)
            ]
          ]
        ]
