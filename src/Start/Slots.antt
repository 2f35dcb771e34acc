-- ===== src/Start/Slots.antt =====
-- What the option loop of afs_client.cc leaves in its variables.
use distributed_systems_afsv.Base.{
  ℕ, zero, suc, ◌+◌, ◌≤◌, ◌<◌, ◌≡◌, refl, ap, ◌∙◌, sym, Option, none, some, List, [], ◌∷◌, ◌++◌,
  append-nil, append_assoc, arith, Bytes, codes, length, length-append, All,
}
use distributed_systems_afsv.Start.{mount_point}
use distributed_systems_afsv.Start.Options.{
  Opt, help, server, cache, mount, debug, foreground, unknown, Args, parsed, slots, new_args, store,
  parse, get_elem?,
}

-- An option that the loop goes on behind.
abbrev pub IsSetting : Opt → Type 0
IsSetting help = ⊥
IsSetting unknown = ⊥
IsSetting _ = Unit

-- The arguments for fuse_main that an option adds.
abbrev pub argument : Opt → List Bytes
argument (mount dir) = dir ∷ []
argument debug = codes "-d" ∷ []
argument foreground = codes "-f" ∷ []
argument _ = []

unfoldable pub arguments : List Opt → List Bytes
arguments [] = []
arguments (o ∷ os) = argument o ++ arguments os

-- The last option of each kind, over what was there before.
unfoldable pub last_cache : List Opt → Option Bytes → Option Bytes
last_cache [] dir = dir
last_cache (cache dir ∷ os) _ = last_cache os (some dir)
last_cache (_ ∷ os) dir = last_cache os dir

unfoldable pub last_mount : List Opt → Option Bytes → Option Bytes
last_mount [] dir = dir
last_mount (mount dir ∷ os) _ = last_mount os (some dir)
last_mount (_ ∷ os) dir = last_mount os dir

unfoldable pub last_server : List Opt → Bytes → Bytes
last_server [] addr = addr
last_server (server addr ∷ os) _ = last_server os addr
last_server (_ ∷ os) addr = last_server os addr

get_elem?-append :
    (i : ℕ) (xs ys : List Bytes) {v : Bytes}
    → get_elem? i xs ≡ some v
    → get_elem? i (xs ++ ys) ≡ some v
unfolding get_elem?
get_elem?-append i [] ys h = cc
get_elem?-append zero (x ∷ xs) ys h = h
get_elem?-append (suc i) (x ∷ xs) ys h = get_elem?-append i xs ys h

get_elem?-last : (xs : List Bytes) (v : Bytes) → get_elem? (length xs) (xs ++ (v ∷ [])) ≡ some v
unfolding get_elem?
get_elem?-last [] v = refl
get_elem?-last (x ∷ xs) v = get_elem?-last xs v

-- The index stands for `o`: it is -1, or the slot with that argument.
data Points (index : Option ℕ) (argv : List Bytes) (o : Option Bytes) : Type 0 where
  nowhere : index ≡ none → o ≡ none → Points index argv o
  somewhere :
      (i : ℕ) (v : Bytes)
      → index ≡ some i
      → get_elem? i argv ≡ some v
      → o ≡ some v
      → Points index argv o

Points-mount_point :
    (a : Args) {o : Option Bytes} → Points a.mount_dir_arg_index a.argv o → mount_point a ≡ o
unfolding mount_point
Points-mount_point a (nowhere index e) = rw (index, e) refl
Points-mount_point a (somewhere i v index slot e) = rw (index, e) slot

Points-append :
    {index : Option ℕ} {o : Option Bytes} (arg : Bytes) (argv : List Bytes)
    → Points index argv o
    → Points index (argv ++ (arg ∷ [])) o
Points-append arg argv (nowhere index e) = nowhere index e
Points-append arg argv (somewhere i v index slot e) =
    somewhere i v index (get_elem?-append i argv (arg ∷ []) slot) e

abbrev pub stored : Bytes → Args → Args
stored arg a = record a { argv = a.argv ++ (arg ∷ []) }

pub store_fits :
    (arg : Bytes) (a : Args) → length a.argv < slots → store arg a ≡ some (stored arg a)
unfolding store
store_fits arg a h = ground (arith, h)

-- What the loop leaves of the options `os`, from the variables `a` whose index stands for `o`.
pub record Settles (os : List Opt) (a : Args) (o : Option Bytes) : Type 0 where
  pub final : Args
  pub result : parse os a ≡ parsed final
  pub argv : final.argv ≡ a.argv ++ arguments os
  pub mount_point : mount_point final ≡ last_mount os o
  pub cache_root : final.cache_root ≡ last_cache os a.cache_root
  pub server_addr : final.server_addr ≡ last_server os a.server_addr

fits_store :
    (arg : Bytes) (os : List Opt) (a : Args)
    → length a.argv + suc (length (arguments os)) ≤ slots
    → (length a.argv < slots) × (length (a.argv ++ (arg ∷ [])) + length (arguments os) ≤ slots)
fits_store arg os a h = (omega (arith, h), omega (arith, h, length-append a.argv (arg ∷ [])))

-- An option that leaves the variables `b` to the rest of the loop.
Settles-cons :
    (o : Opt) (os : List Opt) (a b : Args) {m m' : Option Bytes}
    → parse (o ∷ os) a ≡ parse os b
    → b.argv ≡ a.argv ++ argument o
    → last_mount (o ∷ os) m ≡ last_mount os m'
    → last_cache (o ∷ os) a.cache_root ≡ last_cache os b.cache_root
    → last_server (o ∷ os) a.server_addr ≡ last_server os b.server_addr
    → Settles os b m'
    → Settles (o ∷ os) a m
unfolding arguments
Settles-cons o os a b step argv mounts caches servers r = record {
  final = r.final;
  result = step ∙ r.result;
  argv =
      r.argv ∙ ap (λ xs. xs ++ arguments os) argv ∙ append_assoc a.argv (argument o) (arguments os);
  mount_point = r.mount_point ∙ sym mounts;
  cache_root = r.cache_root ∙ sym caches;
  server_addr = r.server_addr ∙ sym servers;
}

parse-Settles :
    (os : List Opt) (a : Args) (m : Option Bytes)
    → All IsSetting os
    → Points a.mount_dir_arg_index a.argv m
    → length a.argv + length (arguments os) ≤ slots
    → Settles os a m
unfolding parse arguments last_mount last_cache last_server
parse-Settles [] a m h p room = record {
  final = a;
  result = refl;
  argv = sym (append-nil a.argv);
  mount_point = Points-mount_point a p;
  cache_root = refl;
  server_addr = refl;
}
parse-Settles (help ∷ os) a m h p room = absurd h.0
parse-Settles (unknown ∷ os) a m h p room = absurd h.0
parse-Settles (server addr ∷ os) a m h p room =
    let b = record a { server_addr = addr } in
    Settles-cons (server addr) os a b refl (sym (append-nil a.argv)) refl refl refl
      (parse-Settles os b m h.1 p room)
parse-Settles (cache dir ∷ os) a m h p room =
    let b = record a { cache_root = some dir } in
    Settles-cons (cache dir) os a b refl (sym (append-nil a.argv)) refl refl refl
      (parse-Settles os b m h.1 p room)
parse-Settles (mount dir ∷ os) a m h p room =
    let (fits, room') = fits_store dir os a room in
    let b : Args = record (stored dir a) { mount_dir_arg_index = some (length a.argv) } in
    let p' = somewhere (length a.argv) dir refl (get_elem?-last a.argv dir) refl in
    Settles-cons (mount dir) os a b (rw (parse, store_fits dir a fits) refl) refl refl refl refl
      (parse-Settles os b (some dir) h.1 p' room')
parse-Settles (debug ∷ os) a m h p room =
    let (fits, room') = fits_store (codes "-d") os a room in
    let b = stored (codes "-d") a in
    Settles-cons debug os a b (rw (parse, store_fits (codes "-d") a fits) refl) refl refl refl refl
      (parse-Settles os b m h.1 (Points-append (codes "-d") a.argv p) room')
parse-Settles (foreground ∷ os) a m h p room =
    let (fits, room') = fits_store (codes "-f") os a room in
    let b = stored (codes "-f") a in
    Settles-cons foreground os a b (rw (parse, store_fits (codes "-f") a fits) refl) refl refl refl
      refl (parse-Settles os b m h.1 (Points-append (codes "-f") a.argv p) room')

-- The option loop agrees with a reading of its options that has no array: for options none of
-- which is `-h` or unknown, and that add less than ten arguments for fuse_main, it ends with these
-- arguments in order behind the program's name, the slot of the mount point holds the last `-m`
-- (-1 if there is none), and `cache_root` and `server_addr` are the last `-c` and `-s`, or their
-- defaults.
pub parse-new_args :
    (argv0 : Bytes) (os : List Opt)
    → All IsSetting os
    → length (arguments os) < slots
    → Settles os (new_args argv0) none
parse-new_args argv0 os h room =
    parse-Settles os (new_args argv0) none h (nowhere refl refl) (omega (arith, room))
