-- ===== src/Resolver/Topo/Walks.antt =====
-- What `topoOrder` promises, said of the dependency graph alone.
use dalec_homebrew.Prelude.{◌≡◌, List, [], ◌∷◌, ◌++◌, All, In}
use dalec_homebrew.GoString.{Bytes}

-- Names outside `seen`, none twice, each behind all of its dependencies.
abbrev pub IsOrdered : (Bytes → List Bytes) → List Bytes → List Bytes → Type 0
IsOrdered deps seen [] = Unit
IsOrdered deps seen (n ∷ ns) =
    All (λ d. In d seen) (deps n) × ¬ In n seen × IsOrdered deps (n ∷ seen) ns

abbrev pub Leads : (Bytes → List Bytes) → Bytes → List Bytes → Type 0
Leads deps n [] = Unit
Leads deps n (m ∷ ms) = In m (deps n)

-- Each name depends on the next.
abbrev pub IsChain : (Bytes → List Bytes) → List Bytes → Type 0
IsChain deps [] = Unit
IsChain deps (n ∷ ns) = Leads deps n ns × IsChain deps ns

-- A chain that comes back to its first name.
abbrev pub IsCycle : (Bytes → List Bytes) → List Bytes → Type 0
IsCycle deps p = IsChain deps p × (n : Bytes) × (mid : List Bytes) × (p ≡ n ∷ (mid ++ n ∷ []))

pub data Reach (deps : Bytes → List Bytes) (from : Bytes) : Bytes → Type 0 where
  here : Reach deps from from
  next : {m n : Bytes} → Reach deps from m → In n (deps m) → Reach deps from n
