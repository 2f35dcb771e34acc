-- ===== src/Dirty/Replay.antt =====
-- The files of the table as lists of records, and what reading them back gives.
use distributed_systems_afsv.Base.{
  ◌≡◌, ◌⊎◌, inl, inr, refl, ap, ◌∙◌, Bool, Option, none, some, List, [], ◌∷◌, ◌++◌, arith,
  if◌then◌else◌, Bool-cases, Bytes, equal, equal_iff,
}
use distributed_systems_afsv.Base.Dict
use distributed_systems_afsv.Base.Dict.{Dict, NodupKeys}
use distributed_systems_afsv.Hash.Keys.{IsKey}
use distributed_systems_afsv.Dirty.{set_line, erase_line}

-- One line of a file: the key, and the state that it gets; `none` erases it.
abbrev pub Rec : Type 0
Rec = Bytes × Option Bool

abbrev pub HasKey : Rec → Type 0
HasKey r = IsKey r.0

abbrev pub encode : Rec → Bytes
encode (k, none) = erase_line k
encode (k, some state) = set_line k state

unfoldable pub encode_all : List Rec → Bytes
encode_all [] = []
encode_all (r ∷ rs) = encode r ++ encode_all rs

abbrev pub update : Rec → Dict Bool → Dict Bool
update (k, none) t = Dict.erase k t
update (k, some state) t = Dict.insert k state t

unfoldable pub replay : Dict Bool → List Rec → Dict Bool
replay t [] = t
replay t (r ∷ rs) = replay (update r t) rs

-- The state of one key after the records: the last that names it decides.
unfoldable pub verdict : Bytes → List Rec → Option Bool → Option Bool
verdict k [] base = base
verdict k ((j, o) ∷ rs) base = verdict k rs (if equal j k then o else base)

pub lookup-replay :
    (k : Bytes) (t : Dict Bool) (rs : List Rec)
    → Dict.lookup k (replay t rs) ≡ verdict k rs (Dict.lookup k t)
unfolding replay verdict
lookup-replay k t [] = refl
lookup-replay k t ((j, none) ∷ rs) =
    lookup-replay k (Dict.erase j t) rs ∙ ap (verdict k rs) (Dict.lookup-erase j k t)
lookup-replay k t ((j, some b) ∷ rs) =
    lookup-replay k (Dict.insert j b t) rs ∙ ap (verdict k rs) (Dict.lookup-insert j k b t)

pub verdict-append :
    (k : Bytes) (rs ss : List Rec) (base : Option Bool)
    → verdict k (rs ++ ss) base ≡ verdict k ss (verdict k rs base)
unfolding verdict
verdict-append k [] ss base = refl
verdict-append k ((j, o) ∷ rs) ss base = verdict-append k rs ss (if equal j k then o else base)

pub verdict-snoc :
    (k : Bytes) (rs : List Rec) (r : Rec) (base : Option Bool)
    → verdict k (rs ++ r ∷ []) base ≡ (if equal r.0 k then r.1 else verdict k rs base)
unfolding verdict
verdict-snoc k rs r base = verdict-append k rs (r ∷ []) base

-- Either some record names the key, and the base is forgotten, or none does, and it stays.
verdict-cases :
    (k : Bytes) (rs : List Rec)
    → ((a b : Option Bool) → verdict k rs a ≡ verdict k rs b)
      ⊎ ((a : Option Bool) → verdict k rs a ≡ a)
unfolding verdict
verdict-cases k [] = inr (λ a. refl)
verdict-cases k ((j, o) ∷ rs) = elim (verdict-cases k rs) [
  | inl const ↦ inl (λ a b. const _ _)
  | inr same ↦ elim (Bool-cases (equal j k)) [
    | inl hit ↦ inl (λ a b. rw hit refl)
    | inr miss ↦ inr (λ a. rw miss (same a))
  ]
]

-- Reading the same records twice changes nothing more.
pub verdict-verdict :
    (k : Bytes) (rs : List Rec) (a : Option Bool) → verdict k rs (verdict k rs a) ≡ verdict k rs a
verdict-verdict k rs a = elim (verdict-cases k rs) [
  | inl const ↦ const _ _
  | inr same ↦ same (verdict k rs a)
]

-- The records that a snapshot writes.
unfoldable pub records : Dict Bool → List Rec
records [] = []
records ((k, state) ∷ t) = (k, some state) ∷ records t

verdict-records-none :
    (k : Bytes) (t : Dict Bool) (base : Option Bool)
    → Dict.lookup k t ≡ none
    → verdict k (records t) base ≡ base
unfolding verdict records Dict.lookup
verdict-records-none k [] base h = refl
verdict-records-none k ((j, b) ∷ t) base h = ground (arith, verdict-records-none k t base)

pub verdict-records :
    (k : Bytes) (t : Dict Bool) → NodupKeys t → verdict k (records t) none ≡ Dict.lookup k t
unfolding verdict records Dict.lookup
verdict-records k [] u = refl
verdict-records k ((j, b) ∷ t) u =
    ground (arith, equal_iff j k, verdict-records k t u.1, verdict-records-none k t (some b))
