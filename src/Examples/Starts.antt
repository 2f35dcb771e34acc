-- ===== src/Examples/Starts.antt =====
-- The starts of the two programs at concrete inputs.
use distributed_systems_afsv.Base.{
  ◌≡◌, ◌<◌, ◌≤◌, refl, pos, negsuc, true, none, some, List, [], ◌∷◌, arith, Bytes, Bool, codes,
  length,
}
use distributed_systems_afsv.Client.{Client}
use distributed_systems_afsv.Journal.{healthy}
use distributed_systems_afsv.Start.{with_slash}
use distributed_systems_afsv.Start.Directories.{Serves, start_server-Serves}
use distributed_systems_afsv.Start.Mounted.{IsDurable, Remounted, start_client-Remounted}
use distributed_systems_afsv.Start.Options.{
  Opt, server, cache, mount, debug, foreground, overflowed, parse, new_args, slots,
}
use distributed_systems_afsv.Start.Overflow.{parse_overflows}
use distributed_systems_afsv.Start.Slots.{
  Settles, arguments, last_cache, last_mount, parse-new_args,
}
use distributed_systems_afsv.Examples.{
  sample_sha, clean_client, new_modified, one_o_clock, server_root, sample_server,
}
use distributed_systems_afsv.Examples.Remote.{one_file-IsFs}
use distributed_systems_afsv.Examples.Sessions.{new_dirty-IsDurable, new_modified-IsDurable}

abbrev program : Bytes
program = codes "afs_client"

-- afs_client -c /old -f -m /mnt -c /tmp -s host:1
abbrev options : List Opt
options =
    cache (codes "/old")
    ∷ foreground
    ∷ mount (codes "/mnt")
    ∷ cache (codes "/tmp")
    ∷ server (codes "host:1")
    ∷ []

abbrev many_options : List Opt
many_options =
    debug
    ∷ debug
    ∷ debug
    ∷ debug
    ∷ debug
    ∷ debug
    ∷ debug
    ∷ debug
    ∷ debug
    ∷ mount (codes "/mnt")
    ∷ []

options-fit : length (arguments options) < slots
unfolding arguments
options-fit = omega arith

many_options-many : slots ≤ length (arguments many_options)
unfolding arguments
many_options-many = omega arith

parse-new_args_example : Settles options (new_args program) none
parse-new_args_example = parse-new_args program options (tt, (tt, (tt, (tt, (tt, tt))))) options-fit

parse_overflows_example : parse many_options (new_args program) ≡ overflowed
parse_overflows_example =
    parse_overflows program many_options
      (tt, (tt, (tt, (tt, (tt, (tt, (tt, (tt, (tt, (tt, tt)))))))))) many_options-many

abbrev everywhere : Bytes → Bool
everywhere path = true

abbrev durable_client : Client
durable_client = record clean_client { modified = new_modified }

durable_client-IsDurable : IsDurable durable_client
durable_client-IsDurable = record {
  modified = new_modified-IsDurable;
  dirty = new_dirty-IsDurable (pos 0);
}

options-cache : last_cache options none ≡ some (codes "/tmp")
unfolding last_cache
options-cache = refl

options-mount : last_mount options none ≡ some (codes "/mnt")
unfolding last_mount
options-mount = refl

durable_client-root : durable_client.cache_root ≡ with_slash (codes "/tmp")
unfolding with_slash
durable_client-root = refl

start_client-Remounted_example :
    Remounted sample_sha durable_client healthy
      (pos 4)
      healthy
      (negsuc 6)
      (codes "/tmp")
      everywhere
      program
      options
start_client-Remounted_example =
    start_client-Remounted sample_sha durable_client healthy (pos 4) healthy (negsuc 6)
      (codes "/tmp") everywhere program (codes "/mnt") options (tt, (tt, (tt, (tt, (tt, tt)))))
      options-fit options-cache options-mount refl refl durable_client-IsDurable refl refl
      durable_client-root

start_server-Serves_example :
    Serves everywhere one_o_clock server_root refl (codes "1234" ∷ []) sample_server.fs
start_server-Serves_example =
    start_server-Serves everywhere one_o_clock server_root refl (codes "1234" ∷ []) sample_server.fs
      (one_file-IsFs _)
