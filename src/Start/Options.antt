-- ===== src/Start/Options.antt =====
-- The loop over the options in `main` of afs_client.cc.
use distributed_systems_afsv.Base.{
  ℕ, zero, suc, true, false, Option, none, some, List, [], ◌∷◌, ◌++◌, ltb, Bytes, codes, length,
}

-- What `getopt(argc, argv, "hs:c:m:df")` answers, with `optarg` where the option has one.
pub data Opt : Type 0 where
  help : Opt
  server : Bytes → Opt
  cache : Bytes → Opt
  mount : Bytes → Opt
  debug : Opt
  foreground : Opt
  unknown : Opt

-- The variables of the loop. `argv` is the part of `fuse_main_argv` that is filled, so its length
-- is `fuse_main_argc`; `mount_dir_arg_index` is `none` for -1.
pub record Args : Type 0 where
  pub argv : List Bytes
  pub mount_dir_arg_index : Option ℕ
  pub cache_root : Option Bytes
  pub server_addr : Bytes

-- The end of the loop: `exit`, a write behind the array, or the variables.
pub data Parsed : Type 0 where
  exited : ℕ → Parsed
  overflowed : Parsed
  parsed : Args → Parsed

-- `new char*[10]`
abbrev pub slots : ℕ
slots = 10

abbrev pub default_server : Bytes
default_server = codes "127.0.0.1:53706"

abbrev pub new_args : Bytes → Args
new_args argv0 = record {
  argv = argv0 ∷ [];
  mount_dir_arg_index = none;
  cache_root = none;
  server_addr = default_server;
}

-- `fuse_main_argv[fuse_main_argc++] = arg`, `none` where the array has no such slot.
unfoldable pub store : Bytes → Args → Option Args
store arg a = elim (ltb (length a.argv) slots) [
  | true ↦ some (record a { argv = a.argv ++ (arg ∷ []) })
  | false ↦ none
]

unfoldable pub parse : List Opt → Args → Parsed
parse [] a = parsed a
parse (help ∷ os) a = exited 0
parse (server addr ∷ os) a = parse os (record a { server_addr = addr })
parse (cache dir ∷ os) a = parse os (record a { cache_root = some dir })
parse (mount dir ∷ os) a = elim (store dir a) [
  | none ↦ overflowed
  | some b ↦ parse os (record b { mount_dir_arg_index = some (length a.argv) })
]
parse (debug ∷ os) a = elim (store (codes "-d") a) [ none ↦ overflowed | some b ↦ parse os b ]
parse (foreground ∷ os) a = elim (store (codes "-f") a) [ none ↦ overflowed | some b ↦ parse os b ]
parse (unknown ∷ os) a = exited 1

-- `xs[i]`, for an index in range.
unfoldable pub get_elem? : ℕ → List Bytes → Option Bytes
get_elem? n [] = none
get_elem? zero (x ∷ xs) = some x
get_elem? (suc n) (x ∷ xs) = get_elem? n xs
