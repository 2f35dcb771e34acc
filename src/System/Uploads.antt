-- ===== src/System/Uploads.antt =====
-- What a call of `Write` through the stub comes to, whatever the network and the server's system
-- do.
use distributed_systems_afsv.Base.{
  ◌≡◌, refl, true, false, none, some, List, [], Bytes, Bool-cases, inl, inr,
}
use distributed_systems_afsv.Client.{is_ok}
use distributed_systems_afsv.Hash.{Sha256}
use distributed_systems_afsv.Posix.Laws.{IsFs, create-IsFs}
use distributed_systems_afsv.Posix.Same.{Same, Same-refl}
use distributed_systems_afsv.Proto.{
  FilepathContent, Status, Meta, ok, unavailable, cancelled, not_found, no_meta,
}
use distributed_systems_afsv.Server.{Server, fs_path, temp_path, write, finish_write, first_msg}
use distributed_systems_afsv.Server.Temporary.{written, written-temp, append_all-IsFs}
use distributed_systems_afsv.Server.Write.{written-other}
use distributed_systems_afsv.System.{Network, afs_stub}
use distributed_systems_afsv.System.Close.{IsLive}

module _ (sha : Sha256) (root : Bytes) (net : Network) (msgs : List FilepathContent)
    (s : Server) where
  -- The call waits for ever; it fails and leaves every file as it was; it goes through; or it
  -- answers OK, and the file that it was for is as it was, since `rename` has failed.
  pub data Uploaded : Type 0 where
    waits : (afs_stub sha root net).write msgs s ≡ none → Uploaded
    fails :
        (status : Status) (meta : Meta) (s' : Server)
        → (afs_stub sha root net).write msgs s ≡ some (status, meta, s')
        → is_ok status ≡ false
        → ((q : Bytes) → Same (fs_path root q) s.fs s'.fs)
        → IsFs s'.fs
        → Uploaded
    goes : IsLive net → s.locked ≡ false → Uploaded
    loses :
        (s' : Server)
        → (afs_stub sha root net).write msgs s
          ≡ some (ok, record no_meta { timestamp = net.write_env.now }, s')
        → net.write_env.renames ≡ false
        → ((q : Bytes) → Same (fs_path root q) s.fs s'.fs)
        → IsFs s'.fs
        → Uploaded

  abbrev pub left : Server
  left = record {
    fs = written sha root net.write_env (first_msg msgs).filepath msgs s.fs;
    locked = false;
  }

  write_cancelled :
      s.locked ≡ false
      → net.write_env.opens ≡ true
      → net.write_env.is_cancelled ≡ true
      → write sha root net.write_env msgs s ≡ some (cancelled, [], left)
  unfolding write finish_write
  write_cancelled free opens stop = rw (write, free, opens, finish_write, stop) refl

  -- OK, and nothing is renamed.
  pub write_lost :
      s.locked ≡ false
      → net.write_env.opens ≡ true
      → net.write_env.is_cancelled ≡ false
      → net.write_env.renames ≡ false
      → write sha root net.write_env msgs s ≡ some (ok, net.write_env.now, left)
  unfolding write finish_write
  write_lost free opens live stays =
      let time = (written-temp sha root net.write_env (first_msg msgs).filepath msgs s.fs).2 in
      rw (write, free, opens, finish_write, live, stays, time) refl

  write_refused :
      s.locked ≡ false
      → net.write_env.opens ≡ false
      → write sha root net.write_env msgs s ≡ some (not_found, [], record s { locked = true })
  unfolding write
  write_refused free shut = rw (write, free, shut) refl

  write_locked : s.locked ≡ true → write sha root net.write_env msgs s ≡ none
  unfolding write
  write_locked held = rw (write, held) refl

  pub left-Same : (q : Bytes) → IsFs s.fs → Same (fs_path root q) s.fs left.fs
  left-Same q w =
      let (name, inode) =
        written-other sha root net.write_env (first_msg msgs).filepath q msgs s.fs w in
      record { name = name; inode = inode }

  pub left-IsFs : IsFs s.fs → IsFs left.fs
  left-IsFs w =
      append_all-IsFs _ net.write_env.now msgs _
        (create-IsFs (temp_path sha root (first_msg msgs).filepath) net.write_env.now s.fs w)

  pub stub_write-Uploaded : IsFs s.fs → Uploaded
  stub_write-Uploaded w = elim (Bool-cases net.up) [
    | inr down ↦
        fails unavailable no_meta s (rw down refl) refl (λ q. Same-refl (fs_path root q) s.fs) w
    | inl up ↦ elim (Bool-cases s.locked) [
      | inl held ↦ waits (rw (up, write_locked held) refl)
      | inr free ↦ elim (Bool-cases net.write_env.opens) [
        | inr refused ↦
            fails not_found (record no_meta { timestamp = [] }) (record s { locked = true })
              (rw (up, write_refused free refused) refl) refl
              (λ q. record { name = refl; inode = λ j h. refl }) w
        | inl opens ↦ elim (Bool-cases net.write_env.is_cancelled) [
          | inl stop ↦
              fails cancelled (record no_meta { timestamp = [] }) left
                (rw (up, write_cancelled free opens stop) refl) refl (λ q. left-Same q w)
                (left-IsFs w)
          | inr live ↦ elim (Bool-cases net.write_env.renames) [
            | inl renames ↦
                goes (record { up = up; opens = opens; live = live; renames = renames }) free
            | inr stays ↦
                loses left (rw (up, write_lost free opens live stays) refl) stays
                  (λ q. left-Same q w) (left-IsFs w)
          ]
        ]
      ]
    ]
  ]
