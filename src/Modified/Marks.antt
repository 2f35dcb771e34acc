-- ===== src/Modified/Marks.antt =====
-- What a log does to a table in which it has been played before: the loader erases an entry on its
-- mark only where the table has it, and enters the mark elsewhere.
use distributed_systems_afsv.Base.{
  ◌≡◌, ◌≢◌, refl, sym, ap, ◌∙◌, Option, none, some, ◌⊎◌, inl, inr, List, [], ◌∷◌, arith, Bytes,
  if◌then◌else◌, true, false, equal, equal_iff,
}
use mathlib.Core.Path.{subst}
use distributed_systems_afsv.Base.Dict
use distributed_systems_afsv.Base.Dict.{Dict}
use distributed_systems_afsv.Modified.{erased}
use distributed_systems_afsv.Modified.Recovery.{Keyed}
use distributed_systems_afsv.Modified.Replay.{Rec, update, replay}

-- What a record does to the entry of its name.
abbrev entry : Option Bytes → Option Bytes → Option Bytes
entry (some ts) o = some ts
entry none none = some erased
entry none (some old) = none

-- What the records do to the entry of `j`.
unfoldable play : Bytes → List Rec → Option Bytes → Option Bytes
play j [] o = o
play j ((k, r) ∷ rs) o = play j rs (if equal k j then entry r o else o)

lookup-update :
    (j k : Bytes) (r : Option Bytes) (t : Dict Bytes)
    → Dict.lookup j (update (k, r) t)
      ≡ (if equal k j then entry r (Dict.lookup j t) else Dict.lookup j t)
unfolding Dict.count
lookup-update j k none t =
    ground (arith, Dict.lookup-erase k j t, Dict.lookup-insert k j erased t, equal_iff k j)
lookup-update j k (some ts) t = Dict.lookup-insert k j ts t ∙ ground (arith)

lookup-play :
    (j : Bytes) (rs : List Rec) (t : Dict Bytes)
    → Dict.lookup j (replay t rs) ≡ play j rs (Dict.lookup j t)
unfolding replay play
lookup-play j [] t = refl
lookup-play j ((k, r) ∷ rs) t =
    lookup-play j rs (update (k, r) t) ∙ ap (play j rs) (lookup-update j k r t)

-- Records with a timestamp for `j` leave one entry, whatever was there; marks alone change it to
-- and fro.
data Plays (f : Option Bytes → Option Bytes) : Type 0 where
  constant : ((o p : Option Bytes) → f o ≡ f p) → Plays f
  same : ((o : Option Bytes) → f o ≡ o) → Plays f
  flips : f none ≡ some erased → ((x : Bytes) → f (some x) ≡ none) → Plays f
  doubles : f none ≡ none → ((x : Bytes) → f (some x) ≡ some erased) → Plays f

-- One record more in front.
Plays-entry :
    (r : Option Bytes) (f : Option Bytes → Option Bytes) → Plays f → Plays (λ o. f (entry r o))
Plays-entry (some ts) f h = constant (λ o p. refl)
Plays-entry none f (constant h) = constant (λ o p. h (entry none o) (entry none p))
Plays-entry none f (same h) = flips (h (some erased)) (λ x. h none)
Plays-entry none f (flips h k) = doubles (k erased) (λ x. h)
Plays-entry none f (doubles h k) = flips (k erased) (λ x. h)

play-Plays : (j : Bytes) (rs : List Rec) → Plays (play j rs)
unfolding play
play-Plays j [] = same (λ o. refl)
play-Plays j ((k, r) ∷ rs) =
    elim (equal k j) as (λ b. Plays (λ o. play j rs (if b then entry r o else o))) [
      | true ↦ Plays-entry r (play j rs) (play-Plays j rs)
      | false ↦ play-Plays j rs
    ]

-- The entry of `j` in the table `u` that is found where `t` was meant.
abbrev pub OrMark : Option Bytes → Option Bytes → Type 0
OrMark u t = (u ≡ t) ⊎ ((t ≡ none) × (u ≡ some erased))

Plays-OrMark :
    (f : Option Bytes → Option Bytes) (o : Option Bytes)
    → Plays f
    → f o ≢ some erased
    → OrMark (f (f o)) (f o)
Plays-OrMark f o (constant h) ne = inl (h (f o) o)
Plays-OrMark f o (same h) ne = inl (h (f o))
Plays-OrMark f none (flips h k) ne = absurd (ne h)
Plays-OrMark f (some x) (flips h k) ne = inr (k x, ap f (k x) ∙ h)
Plays-OrMark f none (doubles h k) ne = inl (ap f h)
Plays-OrMark f (some x) (doubles h k) ne = absurd (ne (k x))

-- A log that made `t` is played over `t` again.
pub replay-OrMark :
    (rs : List Rec) (b t u : Dict Bytes) (j : Bytes)
    → Dict.lookup j t ≡ Dict.lookup j (replay b rs)
    → Dict.lookup j u ≡ Dict.lookup j t
    → Dict.lookup j t ≢ some erased
    → OrMark (Dict.lookup j (replay u rs)) (Dict.lookup j t)
replay-OrMark rs b t u j made alike ne =
    let f = play j rs in
    let e : Dict.lookup j t ≡ f (Dict.lookup j b) = made ∙ lookup-play j rs b in
    subst (λ o. OrMark o (Dict.lookup j t)) (sym (lookup-play j rs u ∙ ap f alike))
      (subst (λ o. OrMark (f o) o) (sym e)
        (Plays-OrMark f (Dict.lookup j b) (play-Plays j rs) (λ q. ne (e ∙ q))))

pub lookup-ne-erased : (t : Dict Bytes) (j : Bytes) → Keyed t → Dict.lookup j t ≢ some erased
unfolding Dict.lookup equal
lookup-ne-erased [] j h e = cc
lookup-ne-erased ((k, ts) ∷ t) j h e = ground (arith, lookup-ne-erased t j h.1, h.0.1.not_erased)
