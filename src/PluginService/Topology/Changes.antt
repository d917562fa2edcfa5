-- ===== src/PluginService/Topology/Changes.antt =====
-- plugin_service.py: what `_update_hosts` reports, host by host.
use aws_advanced_python_wrap.Prelude.{
  ℕ, ◌≡◌, refl, ◌≢◌, ◌⊎◌, ◌↔◌, inl, inr, sym, ite, if_neg, ap, not, ◌&&◌, Option, none, some, List,
  [], ◌∷◌, ◌∙◌, String, String-discrete, arith, is_some, if◌then◌else◌,
}
use aws_advanced_python_wrap.Dict.{Dict}
use aws_advanced_python_wrap.Dict
use aws_advanced_python_wrap.Host.{HostInfo, url, get_availability, port_eq}
use aws_advanced_python_wrap.Host.Role.{unknown}
use aws_advanced_python_wrap.PluginService.Topology.{
  HostEvent, host_added, host_deleted, Changes, compare, dict_from, record_events, host_events,
  changed_hosts, added_hosts, changes, update_hosts, notify,
}

-- The host with a url.
abbrev pub find : String → List HostInfo → Option HostInfo
find u [] = none
find u (h ∷ hs) = ite (String-discrete (url h) u) (some h) (find u hs)

-- No two hosts share a url.
abbrev pub UniqueUrls : List HostInfo → Type 0
UniqueUrls [] = Unit
UniqueUrls (h ∷ hs) = (find (url h) hs ≡ none) × UniqueUrls hs

abbrev or_else {ℓ} : {A : Type ℓ} → Option A → Option A → Option A
or_else none d = d
or_else (some a) d = some a

get-dict_from :
    (u : String) (d : Dict String HostInfo) (hs : List HostInfo)
    → UniqueUrls hs
    → Dict.get String-discrete u (dict_from d hs)
      ≡ or_else (find u hs) (Dict.get String-discrete u d)
unfolding dict_from
get-dict_from u d [] h = refl
get-dict_from u d (x ∷ hs) h = ground (
  arith,
  get-dict_from u (Dict.put String-discrete (url x) x d) hs h.1,
  Dict.get-put String-discrete (url x) u x d,
)

or_else-none : (o : Option HostInfo) → or_else o none ≡ o
or_else-none none = refl
or_else-none (some h) = refl

get-dict :
    (u : String) (hs : List HostInfo)
    → UniqueUrls hs
    → Dict.get String-discrete u (dict_from [] hs) ≡ find u hs
get-dict u hs h = get-dict_from u [] hs h ∙ or_else-none (find u hs)

-- The entry that a list of events makes.
abbrev entry : List HostEvent → Option (List HostEvent) → Option (List HostEvent)
entry [] old = old
entry (e ∷ es) old = some (e ∷ es)

get-record_events :
    (u v : String) (es : List HostEvent) (ch : Changes)
    → Dict.get String-discrete u (record_events v es ch)
      ≡ ite
          (String-discrete v u)
          (entry es (Dict.get String-discrete u ch))
          (Dict.get String-discrete u ch)
unfolding record_events
get-record_events u v [] ch = ground arith
get-record_events u v (e ∷ es) ch = Dict.get-put String-discrete v u (e ∷ es) ch

entry_of :
    ℕ
    → Dict String HostInfo
    → String
    → Option HostInfo
    → Option (List HostEvent)
    → Option (List HostEvent)
entry_of now new u none old = old
entry_of now new u (some h) old = entry (host_events now h (Dict.get String-discrete u new)) old

get-changed_hosts :
    (u : String) (now : ℕ) (new : Dict String HostInfo) (hs : List HostInfo) (ch : Changes)
    → UniqueUrls hs
    → Dict.get String-discrete u (changed_hosts now new hs ch)
      ≡ entry_of now new u (find u hs) (Dict.get String-discrete u ch)
unfolding changed_hosts entry_of
get-changed_hosts u now new [] ch h = refl
get-changed_hosts u now new (x ∷ hs) ch h =
    let es = host_events now x (Dict.get String-discrete (url x) new) in
    let ih = get-changed_hosts u now new hs (record_events (url x) es ch) h.1 in
    elim (String-discrete (url x) u) [
      | yes e ↦ ground (arith, ih, get-record_events u (url x) es ch, h.0)
      | no n ↦ rw (if_neg _ n) (
          ih
          ∙ ap (entry_of now new u (find u hs))
              (get-record_events u (url x) es ch ∙ if_neg (String-discrete (url x) u) n _ _))
    ]

get-added_hosts :
    (u : String) (old new : Dict String HostInfo) (ch : Changes)
    → Dict.get String-discrete u (added_hosts old new ch) ≡ (
        if is_some (Dict.get String-discrete u new)
          && not (is_some (Dict.get String-discrete u old))
        then some (host_added ∷ [])
        else Dict.get String-discrete u ch)
unfolding added_hosts
get-added_hosts u old [] ch = refl
get-added_hosts u old ((v, h) ∷ new) ch = ground (
  arith,
  get-added_hosts u old new ch,
  get-added_hosts u old new (Dict.put String-discrete v (host_added ∷ []) ch),
  Dict.get-put String-discrete v u (host_added ∷ []) ch,
)

-- What the plugins are to hear of one url, from the host that had it and the one that has it.
abbrev pub reported : ℕ → Option HostInfo → Option HostInfo → Option (List HostEvent)
reported now none none = none
reported now none (some new) = some (host_added ∷ [])
reported now (some old) none = some (host_deleted ∷ [])
reported now (some old) (some new) = entry (compare now old new) none

report :
    (now : ℕ) (o n : Option HostInfo) (new : Dict String HostInfo) (u : String)
    → Dict.get String-discrete u new ≡ n
    → (if is_some n && not (is_some o) then some (host_added ∷ []) else entry_of now new u o none)
      ≡ reported now o n
unfolding entry_of host_events
report now none none new u e = refl
report now none (some n) new u e = refl
report now (some o) none new u e = rw e refl
report now (some o) (some n) new u e = rw e refl

-- For each url `_update_hosts` reports an addition, a deletion, or the differences between the old
-- host and the new one, and nothing for a host without a difference.
pub get-changes :
    (u : String) (now : ℕ) (old new : List HostInfo)
    → UniqueUrls old
    → UniqueUrls new
    → Dict.get String-discrete u (changes now old new) ≡ reported now (find u old) (find u new)
unfolding changes
get-changes u now old new ho hn =
    get-added_hosts u (dict_from [] old) (dict_from [] new)
      (changed_hosts now (dict_from [] new) old [])
    ∙ rw
        (get-dict u old ho, get-dict u new hn, get-changed_hosts u now (dict_from [] new) old [] ho)
        (report now (find u old) (find u new) (dict_from [] new) u (get-dict u new hn))

-- A host has no difference to report exactly when its name, its port and what its availability
-- reads stayed, and its role stayed or is now unknown.
pub compare-nil_iff :
    (now : ℕ) (a b : HostInfo)
    → (compare now a b ≡ []) ↔ (
        (a.host ≡ b.host)
        × (a.port ≡ b.port)
        × ((a.role ≡ b.role) ⊎ (b.role ≡ unknown))
        × (get_availability a now ≡ get_availability b now))
unfolding compare port_eq
compare-nil_iff now a b = ground arith

notify-cases :
    (ch : Changes) (old new : List HostInfo)
    → ((ch ≡ []) × (notify ch old new ≡ (old, none)))
      ⊎ ((ch ≢ []) × (notify ch old new ≡ (new, some ch)))
unfolding notify
notify-cases [] old new = inl (refl, refl)
notify-cases (e ∷ ch) old new = inr ((λ p. cc), refl)

-- Let no url stand twice among the old hosts, nor among the new. `_update_hosts` keeps the old hosts
-- and notifies nobody if no url has anything to report; otherwise it takes the new hosts, and the
-- changes it hands to the plugins say of each url what is to be reported of it.
pub update_hosts-cases :
    (now : ℕ) (old new : List HostInfo)
    → UniqueUrls old
    → UniqueUrls new
    → ((update_hosts now old new ≡ (old, none))
        × ((u : String) → reported now (find u old) (find u new) ≡ none))
      ⊎ ((ch : Changes) × (update_hosts now old new ≡ (new, some ch))
          × ((u : String) → Dict.get String-discrete u ch ≡ reported now (find u old) (find u new))
          × (ch ≢ []))
unfolding update_hosts
update_hosts-cases now old new ho hn = elim (notify-cases (changes now old new) old new) [
  | inl (e, r) ↦
      inl (r, λ u. sym (get-changes u now old new ho hn) ∙ ap (Dict.get String-discrete u) e)
  | inr (ne, r) ↦ inr (changes now old new, r, λ u. get-changes u now old new ho hn, ne)
]
