-- ===== src/Journal/Always.antt =====
-- Crash points: a predicate that holds of the disk before, between and after the writes.
use distributed_systems_afsv.Base.{◌≡◌, ◌≢◌, refl, List, [], ◌∷◌, ◌++◌, arith, Bytes, All}
use distributed_systems_afsv.Journal.{Disk, Effect, apply, run, getline}

abbrev pub Always {ℓ} : (Disk → Type ℓ) → List Effect → Disk → Type ℓ
Always P [] d = P d
Always P (e ∷ es) d = P d × Always P es (apply e d)

module _ {ℓ} (P : Disk → Type ℓ) where
  pub Always-here : (es : List Effect) (d : Disk) → Always P es d → P d
  Always-here [] d h = h
  Always-here (e ∷ es) d h = h.0

  pub Always-run : (es : List Effect) (d : Disk) → Always P es d → P (run es d)
  unfolding run
  Always-run [] d h = h
  Always-run (e ∷ es) d h = Always-run es (apply e d) h.1

  pub Always-append :
      (es fs : List Effect) (d : Disk)
      → Always P es d
      → Always P fs (run es d)
      → Always P (es ++ fs) d
  unfolding run
  Always-append [] fs d h k = k
  Always-append (e ∷ es) fs d h k = (h.0, Always-append es fs (apply e d) h.1 k)

pub Always-mono {ℓ κ} :
    (P : Disk → Type ℓ) (Q : Disk → Type κ) (es : List Effect) (d : Disk)
    → ((d : Disk) → P d → Q d)
    → Always P es d
    → Always Q es d
Always-mono P Q [] d f h = f d h
Always-mono P Q (e ∷ es) d f h = (f d h.0, Always-mono P Q es (apply e d) f h.1)

pub run-append : (es fs : List Effect) (d : Disk) → run (es ++ fs) d ≡ run fs (run es d)
unfolding run
run-append [] fs d = refl
run-append (e ∷ es) fs d = run-append es fs (apply e d)

-- A line that holds no line break is read back whole.
pub getline-line :
    (k rest : Bytes) → All (λ c. c ≢ b'\n') k → getline (k ++ (b'\n' ∷ rest)) ≡ (k, rest)
unfolding getline
getline-line [] rest h = refl
getline-line (c ∷ k) rest h = ground (arith, getline-line k rest h.1, h.0)
