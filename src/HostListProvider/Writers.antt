-- ===== src/HostListProvider/Writers.antt =====
-- host_list_provider.py: a topology has one writer, the one updated last, or no host at all.
use aws_advanced_python_wrap.Prelude.{ℕ, ◌≤◌, ◌≡◌, ◌⊎◌, some, List, [], ◌∷◌, ◌++◌, map, In, All}
use aws_advanced_python_wrap.Errors.{Exc}
use aws_advanced_python_wrap.Exec.{Result, ok}
use aws_advanced_python_wrap.Host
use aws_advanced_python_wrap.Host.{HostInfo}
use aws_advanced_python_wrap.HostListProvider.{
  Row, Template, create_host, writers, readers, host_map,
}
use aws_advanced_python_wrap.Dict.{Dict, values}
use aws_advanced_python_wrap.Dict

-- A host of the list that no host of the list was updated after; all have a time.
abbrev pub Latest : HostInfo → List HostInfo → Type 0
Latest w ws =
    In w ws
    × ((s : ℕ) × (w.last_update_time ≡ some s)
        × All (λ v. (t : ℕ) × (v.last_update_time ≡ some t) × (t ≤ s)) ws)

abbrev Timed : HostInfo → Type 0
Timed h = (t : ℕ) × (h.last_update_time ≡ some t)

abbrev HeadLatest : List HostInfo → List HostInfo → Type 0
HeadLatest [] ws = ws ≡ []
HeadLatest (w ∷ xs) ws = Latest w ws

-- What a topology is made of: the readers in the order of the rows, then one writer.
abbrev pub Topology : List HostInfo → List HostInfo → Type 0
Topology found hosts =
    ((writers found ≡ []) × (hosts ≡ []))
    ⊎ ((w : HostInfo) × (hosts ≡ readers found ++ w ∷ []) × Latest w (writers found))

abbrev Made : List HostInfo → List HostInfo → Result Exc (List HostInfo) → Type 0
Made hosts ws r =
    (made : List HostInfo) × (r ≡ ok made)
    × (((ws ≡ []) × (made ≡ [])) ⊎ ((w : HostInfo) × (made ≡ hosts ++ w ∷ []) × Latest w ws))

-- The hosts made of the rows, one for each address: the one made of the last row with it.
abbrev pub found : Template → ℕ → List Row → List HostInfo
found t now rows = values (host_map [] (map (create_host t now) rows))
