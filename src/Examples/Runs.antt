-- ===== src/Examples/Runs.antt =====
-- Several clients and a server, at concrete inputs.
use distributed_systems_afsv.Server.{fs_path}
use distributed_systems_afsv.Posix.Laws.{mtime_of_missing}
use distributed_systems_afsv.Base.{
  ℕ, ◌<◌, ◌≡◌, ◌≢◌, refl, sym, ap, ◌∙◌, some, pos, arith, Bytes, length, equal, equal_refl, inl,
  inr, codes,
}
use mathlib.Core.Option.{some-injective, none-ne-some}
use mathlib.Core.Path.{subst}
use distributed_systems_afsv.Client.{cached}
use distributed_systems_afsv.Base.Dict
use distributed_systems_afsv.Client.Access.{afs_read, afs_write}
use distributed_systems_afsv.Client.Open.{afs_open}
use distributed_systems_afsv.Hash.{hash_path, hex_string, hex_digit, c_str}
use distributed_systems_afsv.Modified
use distributed_systems_afsv.System.{afs_stub}
use distributed_systems_afsv.System.Session.{edited, write_to_read}
use distributed_systems_afsv.Posix.{mtime_of, find, read_file}
use distributed_systems_afsv.System.Close.{Closed, release_stores}
use distributed_systems_afsv.System.Honest.{missing-IsHonest}
use distributed_systems_afsv.System.Honest.Reads.{open-Reach}
use distributed_systems_afsv.System.Honest.Run.{
  IsNew, World, put, put_all, closes, Reach, here, next, IsCoherent,
}
use distributed_systems_afsv.System.Honest.Run.Coherent.{Reach-IsCoherent}
use distributed_systems_afsv.System.Making.{Looks}
use distributed_systems_afsv.System.Opening.{Fresh}
use distributed_systems_afsv.Examples.{
  sample_sha, path_a, text, one_o_clock, server_root, sample_server, dirty_client, clean_client,
  live, quiet,
}
use distributed_systems_afsv.Examples.Names.{sample_server-free}
use distributed_systems_afsv.Examples.Remote.{
  live-IsLive, one_file-IsFs, dirty_client-dirty, dirty_client-content, dirty_client-old,
  dirty_client-shared, clean_client-clean,
}

-- Client 0 has a write to upload; the others have an older copy.
abbrev start : World
start =
    put 0 dirty_client sample_server
      (record { server = sample_server; clients = λ k. clean_client })

abbrev closed : Closed sample_sha server_root live quiet path_a text 3 sample_server dirty_client
closed =
    release_stores sample_sha server_root live quiet path_a text 3 sample_server dirty_client
      live-IsLive refl refl dirty_client-dirty dirty_client-content (omega arith)

start-IsCoherent : IsCoherent sample_sha server_root path_a start
start-IsCoherent = record {
  well = one_file-IsFs _;
  honest = λ n.
      missing-IsHonest sample_sha server_root path_a sample_server (start.clients n)
        sample_server-free;
}

old : Modified.get sample_sha path_a dirty_client.modified ≢ one_o_clock
old e = cc (ap (equal one_o_clock) e, dirty_client-old, equal_refl one_o_clock)

old_everywhere : (k : ℕ) → Modified.get sample_sha path_a (start.clients k).modified ≢ one_o_clock
old_everywhere =
    put_all (λ c. Modified.get sample_sha path_a c.modified ≢ one_o_clock) 0 dirty_client
      sample_server (record { server = sample_server; clients = λ k. clean_client }) old (λ k. old)

not_there : mtime_of (fs_path server_root path_a) sample_server.fs ≢ some one_o_clock
not_there e =
    none-ne-some one_o_clock
      (sym (mtime_of_missing (fs_path server_root path_a) sample_server.fs sample_server-free) ∙ e)

start-IsNew : IsNew sample_sha server_root path_a live start
start-IsNew = record { server = not_there; clients = old_everywhere }

text-fits :
    (b : Bytes)
    → read_file (cached sample_sha dirty_client path_a) dirty_client.fs ≡ some b
    → length b < 100
text-fits b h =
    subst (λ c. length c < 100) (some-injective text b (sym dirty_client-content ∙ h)) (omega arith)

-- Client 0 closes the file.
closing : Reach sample_sha server_root path_a start (put 0 closed.client closed.server start)
closing = next here (
    closes live quiet 3 0 (pos 0) closed.server closed.client closed.result (inl text-fits)
      start-IsNew)

Reach-IsCoherent_example :
    IsCoherent sample_sha server_root path_a (put 0 closed.client closed.server start)
Reach-IsCoherent_example = Reach-IsCoherent sample_sha server_root path_a closing start-IsCoherent

open-Reach_example :
    Fresh sample_sha server_root live quiet path_a text one_o_clock 0 closed.server clean_client
open-Reach_example =
    open-Reach sample_sha server_root live quiet path_a text one_o_clock 0 start
      (put 0 closed.client closed.server start) 1 start-IsCoherent closing closed.stored refl refl
      refl (omega arith) clean_client-clean dirty_client-shared

clean_client-file : find (cached sample_sha clean_client path_a) clean_client.fs ≡ some 0
unfolding cached Dict.lookup Dict.count equal hash_path hex_string c_str hex_digit
clean_client-file = refl

-- A write of three bytes, two behind the end of the file.
abbrev gapped : Bytes
gapped =
    edited sample_sha server_root live live quiet quiet quiet quiet path_a (codes "abc") 7 3 0 0
      sample_server clean_client clean_client

write_to_read_example :
    (closed : Closed sample_sha server_root live quiet path_a gapped 3 sample_server
      (afs_write sample_sha quiet path_a (codes "abc") 7 3 clean_client).1)
    × (let o =
          afs_open sample_sha
            (afs_stub sample_sha server_root live)
            quiet
            path_a
            0
            closed.server
            clean_client in
        (o.code ≡ pos 0)
        × (afs_read quiet 3 7 o.fh o.client ≡ (pos 3, codes "abc"))
        × (afs_read quiet (length gapped) 0 o.fh o.client ≡ (pos (length gapped), gapped))
        × Looks sample_sha server_root live path_a (length gapped) one_o_clock closed.server)
write_to_read_example =
    write_to_read sample_sha server_root live live quiet quiet quiet quiet path_a (codes "abc") 7 3
      0 0 sample_server clean_client clean_client refl refl clean_client-file live-IsLive refl refl
      (omega arith) refl refl refl (omega arith) (inr (dirty_client-shared, dirty_client-old)) refl
