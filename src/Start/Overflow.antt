-- ===== src/Start/Overflow.antt =====
-- When the option loop of afs_client.cc leaves its array.
use distributed_systems_afsv.Base.{
  suc, ◌+◌, ◌≤◌, ◌<◌, ◌≡◌, refl, ap, ◌∙◌, ◌⊎◌, inl, inr, none, some, List, [], ◌∷◌, ◌++◌, arith,
  Bytes, codes, length, length-append, All, ltb, Bool-cases,
}
use distributed_systems_afsv.Start.Options.{
  Opt, help, server, cache, mount, debug, foreground, unknown, Args, overflowed, slots, new_args,
  store, parse,
}
use distributed_systems_afsv.Start.Slots.{IsSetting, arguments, stored, store_fits}

store_full : (arg : Bytes) (a : Args) → slots ≤ length a.argv → store arg a ≡ none
unfolding store
store_full arg a h = ground (arith, h)

-- A setting that adds `arg`, whether or not it fits, with what the loop then does.
overflow_step :
    (arg : Bytes) (os : List Opt) (a b : Args)
    → b.argv ≡ a.argv ++ (arg ∷ [])
    → (slots < length b.argv + length (arguments os)
        → length b.argv ≤ slots
        → parse os b ≡ overflowed)
    → slots < length a.argv + suc (length (arguments os))
    → length a.argv ≤ slots
    → (store arg a ≡ none) ⊎ ((store arg a ≡ some (stored arg a)) × (parse os b ≡ overflowed))
overflow_step arg os a b e rest over at = elim (Bool-cases (ltb (length a.argv) slots)) [
  | inl fits ↦
      let small : length a.argv < slots = ground (arith, fits) in
      let size : length b.argv ≡ length a.argv + 1 =
        ap length e ∙ length-append a.argv (arg ∷ []) in
      inr (store_fits arg a small, rest (omega (arith, size, over)) (omega (arith, size, small)))
  | inr full ↦ inl (store_full arg a (ground (arith, full)))
]

parse-overflowed :
    (os : List Opt) (a : Args)
    → All IsSetting os
    → slots < length a.argv + length (arguments os)
    → length a.argv ≤ slots
    → parse os a ≡ overflowed
unfolding parse arguments
parse-overflowed [] a h over at = absurd (omega (arith, over, at))
parse-overflowed (help ∷ os) a h over at = absurd h.0
parse-overflowed (unknown ∷ os) a h over at = absurd h.0
parse-overflowed (server addr ∷ os) a h over at =
    parse-overflowed os (record a { server_addr = addr }) h.1 over at
parse-overflowed (cache dir ∷ os) a h over at =
    parse-overflowed os (record a { cache_root = some dir }) h.1 over at
parse-overflowed (mount dir ∷ os) a h over at =
    let b : Args = record (stored dir a) { mount_dir_arg_index = some (length a.argv) } in
    elim (overflow_step dir os a b refl (parse-overflowed os b h.1) over at) [
      | inl full ↦ rw (parse, full) refl
      | inr (fits, rest) ↦ rw (parse, fits) rest
    ]
parse-overflowed (debug ∷ os) a h over at =
    let b = stored (codes "-d") a in
    elim (overflow_step (codes "-d") os a b refl (parse-overflowed os b h.1) over at) [
      | inl full ↦ rw (parse, full) refl
      | inr (fits, rest) ↦ rw (parse, fits) rest
    ]
parse-overflowed (foreground ∷ os) a h over at =
    let b = stored (codes "-f") a in
    elim (overflow_step (codes "-f") os a b refl (parse-overflowed os b h.1) over at) [
      | inl full ↦ rw (parse, full) refl
      | inr (fits, rest) ↦ rw (parse, fits) rest
    ]

-- Options that add ten arguments or more for fuse_main, none of them `-h` or unknown, make the
-- option loop write behind its array of ten slots, whatever their order.
pub parse_overflows :
    (argv0 : Bytes) (os : List Opt)
    → All IsSetting os
    → slots ≤ length (arguments os)
    → parse os (new_args argv0) ≡ overflowed
parse_overflows argv0 os h many =
    parse-overflowed os (new_args argv0) h (omega (arith, many)) (omega arith)
