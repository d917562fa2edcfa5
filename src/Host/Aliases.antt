-- ===== src/Host/Aliases.antt =====
-- hostinfo.py: the alias sets and `__eq__`.
use aws_advanced_python_wrap.Prelude.{
  ◌≡◌, refl, true, not, ◌&&◌, ◌||◌, List, [], ◌∷◌, ◌++◌, String, String-discrete, arith, test,
  Bool-cases, inl, inr,
}
use aws_advanced_python_wrap.Host.{HostInfo, mem, add, discard, add_alias, remove_alias}

mem-append_one :
    (s t : String) (ts : List String)
    → mem s (ts ++ t ∷ []) ≡ mem s ts || test (String-discrete t s)
mem-append_one s t [] = ground arith
mem-append_one s t (u ∷ ts) = ground (arith, mem-append_one s t ts)

mem_of_eq :
    (s t : String) (ts : List String)
    → mem t ts ≡ true
    → mem s ts ≡ (mem s ts || test (String-discrete t s))
mem_of_eq s t ts h = ground arith

mem-add :
    (s t : String) (ts : List String) → mem s (add t ts) ≡ mem s ts || test (String-discrete t s)
unfolding add
mem-add s t ts = elim (Bool-cases (mem t ts)) [
  | inl old ↦ rw old (mem_of_eq s t ts old)
  | inr new ↦ rw new (mem-append_one s t ts)
]

mem-discard :
    (s t : String) (ts : List String)
    → mem s (discard t ts) ≡ mem s ts && not (test (String-discrete t s))
unfolding discard
mem-discard s t [] = refl
mem-discard s t (u ∷ ts) = ground (arith, mem-discard s t ts)

-- Both alias sets of a host gain exactly the given aliases.
pub mem-add_alias :
    (s : String) (as' : List String) (h : HostInfo)
    → (mem s (add_alias as' h).aliases ≡ mem s h.aliases || mem s as')
      × (mem s (add_alias as' h).all_aliases ≡ mem s h.all_aliases || mem s as')
unfolding add_alias
mem-add_alias s [] h = ground arith
mem-add_alias s (a ∷ as') h = ground (
  arith,
  mem-add_alias s as' (record h { aliases = add a h.aliases; all_aliases = add a h.all_aliases }),
  mem-add s a h.aliases,
  mem-add s a h.all_aliases,
)

-- Both alias sets of a host lose exactly the given aliases.
pub mem-remove_alias :
    (s : String) (as' : List String) (h : HostInfo)
    → (mem s (remove_alias as' h).aliases ≡ mem s h.aliases && not (mem s as'))
      × (mem s (remove_alias as' h).all_aliases ≡ mem s h.all_aliases && not (mem s as'))
unfolding remove_alias
mem-remove_alias s [] h = ground arith
mem-remove_alias s (a ∷ as') h = ground (
  arith,
  mem-remove_alias s as'
      (record h { aliases = discard a h.aliases; all_aliases = discard a h.all_aliases }),
  mem-discard s a h.aliases,
  mem-discard s a h.all_aliases,
)
