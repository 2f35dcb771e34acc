-- ===== src/Dirty/Load.antt =====
-- The constructor's loop reads back what `set`, `erase` and `do_snapshot` wrote.
use distributed_systems_afsv.Base.{
  Option-cases, inl, inr, ℕ, zero, suc, ◌<◌, ◌≡◌, ◌≢◌, ◌*◌, refl, sym, ap, ◌∙◌, Bool, true, false,
  Option, none, some, List, [], ◌∷◌, ◌++◌, append_assoc, arith, Bytes, length, take, length-append,
  take-append, All, All-append,
}
use distributed_systems_afsv.Base.Dict.{Dict}
use distributed_systems_afsv.Journal.{loaded, outcome, ended, content, getline}
use distributed_systems_afsv.Journal.Always.{getline-line}
use distributed_systems_afsv.Journal.Fuel.{length-getline}
use distributed_systems_afsv.Dirty.{
  digit, set_line, erase_line, back, load_line, load_loop, load_file,
}
use distributed_systems_afsv.Dirty.Replay.{Rec, HasKey, encode, encode_all, update, replay}

back-append : (k : Bytes) (c : ℕ) → back (k ++ c ∷ []) ≡ c
unfolding back
back-append [] c = refl
back-append (x ∷ []) c = refl
back-append (x ∷ y ∷ r) c = back-append (y ∷ r) c

-- The byte that stands for a record's state.
abbrev mark : Option Bool → ℕ
mark none = b'2'
mark (some state) = digit state

-- A record's line without its line break.
abbrev body : Rec → Bytes
body (k, o) = k ++ (b' ' ∷ mark o ∷ [])

encode-body : (r : Rec) (rest : Bytes) → encode r ++ rest ≡ body r ++ (b'\n' ∷ rest)
unfolding set_line erase_line
encode-body (k, none) rest = simp append_assoc
encode-body (k, some state) rest = simp append_assoc

length-body : (r : Rec) → HasKey r → length (body r) ≡ 66
length-body (k, o) h = omega (arith, length-append {0} k (b' ' ∷ mark o ∷ []), h.size)

back-body : (r : Rec) → back (body r) ≡ mark r.1
back-body (k, o) =
    rw (← append_assoc k (b' ' ∷ []) (mark o ∷ [])) (back-append (k ++ b' ' ∷ []) (mark o))

take-body : (r : Rec) → HasKey r → take 64 (body r) ≡ r.0
take-body (k, o) h =
    ap (λ n. take n (body (k, o))) (sym h.size) ∙ take-append k (b' ' ∷ mark o ∷ [])

body-one_line : (r : Rec) → HasKey r → All (λ c. ¬ (c ≡ b'\n')) (body r)
body-one_line (k, none) h = All-append _ k _ h.one_line (omega arith)
body-one_line (k, some true) h = All-append _ k _ h.one_line (omega arith)
body-one_line (k, some false) h = All-append _ k _ h.one_line (omega arith)

load_line-body : (r : Rec) (t : Dict Bool) → HasKey r → load_line (body r) t ≡ some (update r t)
unfolding load_line
load_line-body (k, none) t h =
    rw (length-body (k, none) h, back-body (k, none), take-body (k, none) h) refl
load_line-body (k, some true) t h =
    rw (length-body (k, some true) h, back-body (k, some true), take-body (k, some true) h) refl
load_line-body (k, some false) t h =
    rw (length-body (k, some false) h, back-body (k, some false), take-body (k, some false) h) refl

getline-body : (r : Rec) (rest : Bytes) → HasKey r → getline (encode r ++ rest) ≡ (body r, rest)
getline-body r rest h =
    ap getline (encode-body r rest) ∙ getline-line (body r) rest (body-one_line r h)

-- One round of the loop, where its line is accepted.
load_loop_round :
    (f : ℕ) (b : Bytes) (t : Dict Bool) {u : Dict Bool} {buf rest : Bytes}
    → b ≢ []
    → getline b ≡ (buf, rest)
    → load_line buf t ≡ some u
    → load_loop (suc f) b t ≡ load_loop f rest u
unfolding load_loop
load_loop_round f [] t ne g h = absurd (ne refl)
load_loop_round f (c ∷ cs) t ne g h = ground (arith, g, h)

length-encode : (r : Rec) → HasKey r → length (encode r) ≡ 67
unfolding set_line erase_line
length-encode (k, none) h = omega (arith, length-append {0} k (b' ' ∷ b'2' ∷ b'\n' ∷ []), h.size)
length-encode (k, some s) h =
    omega (arith, length-append {0} k (b' ' ∷ digit s ∷ b'\n' ∷ []), h.size)

encode-ne-nil : (r : Rec) (rest : Bytes) → HasKey r → encode r ++ rest ≢ []
encode-ne-nil r rest h e =
    omega (arith, ap length e, length-append (encode r) rest, length-encode r h)

length-encode_all : (rs : List Rec) → All HasKey rs → length (encode_all rs) ≡ 67 * length rs
unfolding encode_all
length-encode_all [] h = omega arith
length-encode_all (r ∷ rs) h =
    omega (
      arith,
      length-append (encode r) (encode_all rs),
      length-encode r h.0,
      length-encode_all rs h.1,
    )

load_loop-encode_all :
    (rs : List Rec) (f : ℕ) (t : Dict Bool)
    → length rs < f
    → All HasKey rs
    → load_loop f (encode_all rs) t ≡ loaded (replay t rs)
unfolding encode_all replay
load_loop-encode_all rs zero t lt h = elim lt [ ]
load_loop-encode_all [] (suc f) t lt h = unfold load_loop in refl
load_loop-encode_all (r ∷ rs) (suc f) t lt h =
    load_loop_round f (encode r ++ encode_all rs) t (encode-ne-nil r (encode_all rs) h.0)
      (getline-body r (encode_all rs) h.0) (load_line-body r t h.0)
    ∙ load_loop-encode_all rs f (update r t) (omega arith) h.1

-- A file that holds the lines of some records loads to the table that the records make, and a
-- file that is missing loads as an empty one.
pub load_file-encode_all :
    (file : Option Bytes) (rs : List Rec) (t : Dict Bool)
    → content file ≡ encode_all rs
    → All HasKey rs
    → load_file file t ≡ some (replay t rs)
unfolding load_file outcome
load_file-encode_all none [] t e h = unfold replay in refl
load_file-encode_all none (r ∷ rs) t e h =
    absurd (encode-ne-nil r (encode_all rs) h.0 (unfold encode_all in sym e))
load_file-encode_all (some b) rs t e h = rw e (
    ap outcome (
      load_loop-encode_all rs (suc (length (encode_all rs))) t
        (omega (arith, length-encode_all rs h)) h))

-- With fuel above the number of bytes the loop of the `is_dirty_t` constructor ends, and any two
-- such amounts of fuel give one result, whatever the bytes.
pub load_loop-fuel :
    (f g : ℕ) (b : Bytes) (t : Dict Bool)
    → length b < f
    → length b < g
    → load_loop f b t ≡ ended (outcome (load_loop g b t))
unfolding load_loop outcome ended
load_loop-fuel zero g b t p q = absurd (omega arith)
load_loop-fuel (suc f) zero b t p q = absurd (omega arith)
load_loop-fuel (suc f) (suc g) [] t p q = refl
load_loop-fuel (suc f) (suc g) (c ∷ cs) t p q =
    let line = getline (c ∷ cs) in
    let shorter = length-getline c cs in
    elim (Option-cases (load_line line.0 t)) [
      | inl failed ↦ ground (arith, failed)
      | inr (u, accepted) ↦ ground (
        arith,
        accepted,
        load_loop-fuel f g line.1 u (omega (arith, shorter)) (omega (arith, shorter)),
      )
    ]
