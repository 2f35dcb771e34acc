-- ===== src/Modified/Load.antt =====
-- The constructor's loop reads back entries of sixteen bytes, and what it makes of others.
use distributed_systems_afsv.Base.{
  Option-cases, inl, inr, ℕ, zero, suc, ◌+◌, ◌≤◌, ◌<◌, ◌≡◌, ◌≢◌, refl, sym, ap, ◌∙◌, Option, none,
  some, List, [], ◌∷◌, ◌++◌, append_assoc, append-nil, arith, Bytes, equal, ◌-◌, length, take, drop,
  replicate, length-append, take-append, length-drop, All,
}
use distributed_systems_afsv.Base.Dict.{Dict}
use distributed_systems_afsv.Hash.Keys.{IsKey}
use distributed_systems_afsv.Journal.{outcome, ended, content, getline}
use distributed_systems_afsv.Journal.Always.{getline-line}
use distributed_systems_afsv.Journal.Fuel.{length-getline}
use distributed_systems_afsv.Modified.{
  text_line, load_entry, read_into, load_loop, load_file, timespec_size,
}
use distributed_systems_afsv.Modified.Replay.{
  Rec, Readable, stamp, encode, encode_all, update, replay, last_stamp,
}

-- One round of the loop, where the name has its 64 bytes and the entry is accepted.
pub load_loop_round :
    (f : ℕ) (b ts : Bytes) (t : Dict Bytes) {u : Dict Bytes} (fn rest : Bytes)
    → b ≢ []
    → getline b ≡ (fn, rest)
    → length fn ≡ 64
    → load_entry fn (read_into ts rest) t ≡ some u
    → load_loop (suc f) b ts t ≡ load_loop f (drop (suc timespec_size) rest) (read_into ts rest) u
unfolding load_loop
load_loop_round f [] ts t fn rest ne g n h = absurd (ne refl)
load_loop_round f (c ∷ cs) ts t fn rest ne g n h = ground (arith, g, n, h)

pub drop-all : (n : ℕ) (xs : Bytes) → length xs ≡ n → drop n xs ≡ []
drop-all zero [] h = refl
drop-all zero (x ∷ xs) h = absurd (omega arith)
drop-all (suc n) [] h = refl
drop-all (suc n) (x ∷ xs) h = drop-all n xs (omega arith)

read_into-append :
    (s ts rest : Bytes)
    → length s ≡ timespec_size
    → length ts ≡ timespec_size
    → read_into ts (s ++ rest) ≡ s
unfolding read_into
read_into-append s ts rest hs ht =
    let front : take timespec_size (s ++ rest) ≡ s =
      ap (λ n. take n (s ++ rest)) (sym hs) ∙ take-append s rest in
    rw (front, hs) (ap (λ r. s ++ r) (drop-all timespec_size ts ht) ∙ append-nil s)

drop-cons : (s : Bytes) (c : ℕ) (rest : Bytes) → drop (suc (length s)) (s ++ (c ∷ rest)) ≡ rest
drop-cons [] c rest = refl
drop-cons (x ∷ s) c rest = drop-cons s c rest

drop_entry :
    (s : Bytes) (c : ℕ) (rest : Bytes)
    → length s ≡ timespec_size
    → drop (suc timespec_size) (s ++ (c ∷ rest)) ≡ rest
drop_entry s c rest h = ap (λ n. drop (suc n) (s ++ (c ∷ rest))) (sym h) ∙ drop-cons s c rest

pub length-stamp : (r : Rec) → Readable r → length (stamp r.1) ≡ timespec_size
length-stamp (k, none) h = refl
length-stamp (k, some ts) h = h.1.size

pub Readable-IsKey : (r : Rec) → Readable r → IsKey r.0
Readable-IsKey (k, none) h = h
Readable-IsKey (k, some ts) h = h.0

load_entry-update :
    (r : Rec) (t : Dict Bytes) → Readable r → load_entry r.0 (stamp r.1) t ≡ some (update r t)
unfolding load_entry equal
load_entry-update (k, none) t h = ground arith
load_entry-update (k, some ts) t h = rw (h.1.not_erased, h.1.size) refl

encode-lines :
    (r : Rec) (rest : Bytes) → encode r ++ rest ≡ r.0 ++ (b'\n' ∷ (stamp r.1 ++ (b'\n' ∷ rest)))
unfolding text_line
encode-lines (k, o) rest = simp append_assoc

text_line-ne-nil : (k rest : Bytes) → text_line k ++ rest ≢ []
unfolding text_line
text_line-ne-nil [] rest h = cc
text_line-ne-nil (c ∷ k) rest h = cc

load_loop-encode :
    (f : ℕ) (r : Rec) (rest ts : Bytes) (t : Dict Bytes)
    → Readable r
    → length ts ≡ timespec_size
    → load_loop (suc f) (encode r ++ rest) ts t ≡ load_loop f rest (stamp r.1) (update r t)
load_loop-encode f r rest ts t h ht =
    let behind = stamp r.1 ++ (b'\n' ∷ rest) in
    let read : read_into ts behind ≡ stamp r.1 =
      read_into-append (stamp r.1) ts (b'\n' ∷ rest) (length-stamp r h) ht in
    let line : getline (encode r ++ rest) ≡ (r.0, behind) =
      ap getline (encode-lines r rest) ∙ getline-line r.0 behind (Readable-IsKey r h).one_line in
    let entry : load_entry r.0 (read_into ts behind) t ≡ some (update r t) =
      rw read (load_entry-update r t h) in
    let some_bytes : encode r ++ rest ≢ [] =
      λ e. text_line-ne-nil r.0 (text_line (stamp r.1) ++ rest) (sym (append_assoc _ _ rest) ∙ e) in
    load_loop_round f (encode r ++ rest) ts t r.0 behind some_bytes line (Readable-IsKey r h).size
      entry
    ∙ rw (read, drop_entry (stamp r.1) b'\n' rest (length-stamp r h)) refl

-- The loop runs through whole entries, and then stands before what follows them.
pub load_loop-encode_all :
    (rs : List Rec) (g f : ℕ) (rest ts : Bytes) (t : Dict Bytes)
    → g ≡ length rs + f
    → All Readable rs
    → length ts ≡ timespec_size
    → load_loop g (encode_all rs ++ rest) ts t ≡ load_loop f rest (last_stamp ts rs) (replay t rs)
unfolding encode_all last_stamp replay
load_loop-encode_all [] g f rest ts t e h ht = let same : g ≡ f = omega arith in rw same refl
load_loop-encode_all (r ∷ rs) zero f rest ts t e h ht = absurd (omega arith)
load_loop-encode_all (r ∷ rs) (suc g) f rest ts t e h ht =
    ap (λ b. load_loop (suc g) b ts t) (append_assoc (encode r) (encode_all rs) rest)
    ∙ load_loop-encode g r (encode_all rs ++ rest) ts t h.0 ht
    ∙ load_loop-encode_all rs g f rest (stamp r.1) (update r t) (omega arith) h.1
        (length-stamp r h.0)

length-encode_all : (rs : List Rec) → length rs ≤ length (encode_all rs)
unfolding encode_all text_line
length-encode_all [] = omega arith
length-encode_all ((k, o) ∷ rs) = omega (
  arith,
  length-append {0} (text_line k ++ text_line (stamp o)) (encode_all rs),
  length-append {0} (text_line k) (text_line (stamp o)),
  length-append {0} k (b'\n' ∷ []),
  length-encode_all rs,
)

-- Reading whole entries and then `rest`, with the fuel that `load_file` gives.
pub load_file-append :
    (rs : List Rec) (rest : Bytes) (t : Dict Bytes)
    → All Readable rs
    → (f : ℕ) × (length rest ≤ f)
      × (load_file (some (encode_all rs ++ rest)) t
          ≡ outcome
              (load_loop (suc f) rest (last_stamp (replicate timespec_size 0) rs) (replay t rs)))
unfolding load_file
load_file-append rs rest t h =
    let n = length (encode_all rs ++ rest) in
    let long : length rs + length rest ≤ n =
      omega (arith, length-append (encode_all rs) rest, length-encode_all rs) in
    (
      n - length rs,
      omega (arith, long),
      ap outcome (
          load_loop-encode_all rs (suc n) (suc (n - length rs)) rest _ t (omega (arith, long)) h
            refl),
    )

-- A file that holds whole entries loads to the table that they make, and a file that is missing
-- loads as an empty one.
pub load_file-encode_all :
    (file : Option Bytes) (rs : List Rec) (t : Dict Bytes)
    → content file ≡ encode_all rs
    → All Readable rs
    → load_file file t ≡ some (replay t rs)
load_file-encode_all none [] t e h = unfold replay load_file in refl
load_file-encode_all none (r ∷ rs) t e h = absurd (
    text_line-ne-nil r.0 (text_line (stamp r.1) ++ encode_all rs)
      (unfold encode_all in sym (append_assoc _ _ (encode_all rs)) ∙ sym e))
load_file-encode_all (some b) rs t e h =
    let (f, enough, read) = load_file-append rs [] t h in
    ap (λ c. load_file (some c) t) (e ∙ sym (append-nil (encode_all rs)))
    ∙ read
    ∙ (unfold load_loop outcome in refl)

-- With fuel above the number of bytes the loop of the `last_modified_t` constructor ends, and any
-- two such amounts of fuel give one result, whatever the bytes.
pub load_records-fuel :
    (f g : ℕ) (b ts : Bytes) (t : Dict Bytes)
    → length b < f
    → length b < g
    → load_loop f b ts t ≡ ended (outcome (load_loop g b ts t))
unfolding load_loop outcome ended
load_records-fuel zero g b ts t p q = absurd (omega arith)
load_records-fuel (suc f) zero b ts t p q = absurd (omega arith)
load_records-fuel (suc f) (suc g) [] ts t p q = refl
load_records-fuel (suc f) (suc g) (c ∷ cs) ts t p q =
    let line = getline (c ∷ cs) in
    let ts' = read_into ts line.1 in
    let rest = drop (suc timespec_size) line.1 in
    let shorter : length rest ≤ length cs =
      omega (arith, length-getline c cs, length-drop (suc timespec_size) line.1) in
    elim (Option-cases (load_entry line.0 ts' t)) [
      | inl failed ↦ ground (arith, failed)
      | inr (u, loaded) ↦
          let rec =
            load_records-fuel f g rest ts' u (omega (arith, shorter)) (omega (arith, shorter)) in
          ground (arith, loaded, rec)
    ]
