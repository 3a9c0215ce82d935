-- ===== src/NodeController/Pools/Primary.antt =====
-- Which pool a node belongs to.
use openshift_machine_config.Common.{
  ◌≡◌, Bool-cases, inl, inr, refl, ◌==◌, Bool, true, false, not, Option, none, some, List, [], ◌∷◌,
  ◌++◌, arith, All, is_empty, is_some, ◌||◌,
}
use openshift_machine_config.Kube.{Node, Pool}
use openshift_machine_config.NodeController.Pools.{
  Selector, Pools, pools, failed, not_listed, is_windows, Roles, no_roles, add_role, split_roles,
  choose_pools, when_made, matches, add_matching, matching_pools, pools_of, get_pools_for_node,
  first_pool, get_primary_pool_for_node,
}

module _ (P : Pool → Type 0) where
  abbrev Fits : Option Pool → Type 0
  Fits none = Unit
  Fits (some p) = P p

  abbrev RolesFit : Roles → Type 0
  RolesFit r = Fits r.master × Fits r.worker × All P r.custom

  All-append_one : (l : List Pool) (p : Pool) → All P l → P p → All P (l ++ p ∷ [])
  All-append_one [] p h f = (f, tt)
  All-append_one (q ∷ l) p h f = (h.0, All-append_one l p h.1 f)

  add_role-RolesFit : (r : Roles) (p : Pool) → RolesFit r → P p → RolesFit (add_role r p)
  unfolding add_role
  add_role-RolesFit r p (m, w, c) f = elim (Bool-cases (p.name == "master")) [
    | inl e ↦ rw e (f, w, c)
    | inr e ↦ elim (Bool-cases (p.name == "worker")) [
      | inl e' ↦ rw (e, e') (m, f, c)
      | inr e' ↦ rw (e, e') (m, w, All-append_one r.custom p c f)
    ]
  ]

  split_roles-RolesFit :
      (ps : List Pool) (r : Roles) → RolesFit r → All P ps → RolesFit (split_roles r ps)
  unfolding split_roles
  split_roles-RolesFit [] r f h = f
  split_roles-RolesFit (p ∷ ps) r f h =
      split_roles-RolesFit ps (add_role r p) (add_role-RolesFit r p f h.0) h.1

  choose-Fits :
      (master worker : Option Pool) (custom : List Pool)
      → Fits master
      → Fits worker
      → All P custom
      → Fits (first_pool (choose_pools master worker custom))
  unfolding choose_pools
  choose-Fits master worker (c ∷ d ∷ custom) m w h = tt
  choose-Fits none worker (c ∷ []) m w h = h.0
  choose-Fits (some p) worker (c ∷ []) m w h = m
  choose-Fits (some p) worker [] m w h = m
  choose-Fits none worker [] m w h = w

  pools_of-Fits : (l : List Pool) → All P l → Fits (first_pool (pools_of (some l)))
  pools_of-Fits [] h = tt
  pools_of-Fits (p ∷ ps) h =
      let (m, w, c) = split_roles-RolesFit (p ∷ ps) no_roles (tt, tt, tt) h in
      choose-Fits (split_roles no_roles (p ∷ ps)).master (split_roles no_roles (p ∷ ps)).worker
        (split_roles no_roles (p ∷ ps)).custom m w c

-- Some role has a pool.
abbrev taken : Roles → Bool
taken r = is_some r.master || is_some r.worker || not (is_empty r.custom)

snoc_filled : (l : List Pool) (p : Pool) → is_empty (l ++ p ∷ []) ≡ false
snoc_filled [] p = refl
snoc_filled (q ∷ l) p = refl

add_role-taken : (r : Roles) (p : Pool) → taken (add_role r p) ≡ true
unfolding add_role
add_role-taken r p = elim (Bool-cases (p.name == "master")) [
  | inl e ↦ rw e
  | inr e ↦ elim (Bool-cases (p.name == "worker")) [
    | inl e' ↦ rw (e, e') (ground arith)
    | inr e' ↦ rw (e, e') (ground (arith, snoc_filled r.custom p))
  ]
]

split_roles-taken : (ps : List Pool) (r : Roles) → taken r ≡ true → taken (split_roles r ps) ≡ true
unfolding split_roles
split_roles-taken [] r h = h
split_roles-taken (p ∷ ps) r h = split_roles-taken ps (add_role r p) (add_role-taken r p)

abbrev pub NoNil : Pools → Type 0
NoNil (failed e) = Unit
NoNil (pools l) = All (λ o. is_some o ≡ true) l

when_made-NoNil : (o : Option Pool) → All (λ o. is_some o ≡ true) (when_made o)
when_made-NoNil none = tt
when_made-NoNil (some p) = (refl, tt)

choose-NoNil :
    (master worker : Option Pool) (custom : List Pool)
    → (is_some master || is_some worker || not (is_empty custom)) ≡ true
    → NoNil (choose_pools master worker custom)
unfolding choose_pools
choose-NoNil master worker (c ∷ d ∷ custom) h = tt
choose-NoNil none worker (c ∷ []) h = (refl, when_made-NoNil worker)
choose-NoNil (some p) worker (c ∷ []) h = (refl, when_made-NoNil worker)
choose-NoNil (some p) worker [] h = (refl, tt)
choose-NoNil none (some w) [] h = (refl, tt)
choose-NoNil none none [] h = cc

pools_of-NoNil : (o : Option (List Pool)) → NoNil (pools_of o)
pools_of-NoNil none = tt
pools_of-NoNil (some []) = tt
pools_of-NoNil (some (p ∷ ps)) =
    let r = split_roles no_roles (p ∷ ps) in
    choose-NoNil r.master r.worker r.custom
      (unfold split_roles in split_roles-taken ps (add_role no_roles p) (add_role-taken no_roles p))

module _ (selector : Pool → Option Selector) where
  -- The selector of the pool is valid, not empty, and selects the node.
  abbrev pub Claims : Node → Pool → Type 0
  Claims node p =
      (s : Selector) × (selector p ≡ some s) × (s.is_empty ≡ false) × (s.selects node.labels ≡ true)

  abbrev AllClaim : Node → Option (List Pool) → Type 0
  AllClaim node none = Unit
  AllClaim node (some l) = All (Claims node) l

  matching-AllClaim :
      (node : Node) (ps : List Pool) → AllClaim node (matching_pools selector node ps)
  unfolding matching_pools matches
  matching-AllClaim node [] = tt
  matching-AllClaim node (p ∷ ps) =
      one (selector p) refl (matching_pools selector node ps) (matching-AllClaim node ps)
    where
      one :
          (o : Option Selector)
          → selector p ≡ o
          → (rest : Option (List Pool)) → AllClaim node rest
          → AllClaim node (add_matching selector node p o rest)
      one none e rest h = tt
      one (some s) e none h = tt
      one (some s) e (some l) h = elim (Bool-cases (matches selector node s)) [
        | inl m ↦ rw m ((s, e, ground arith, ground arith), h)
        | inr m ↦ rw m h
      ]

  -- The pool that a node belongs to claims it by a valid selector that is not empty, and the node
  -- runs no Windows. No pool that getPoolsForNode returns is nil.
  pub get_primary_pool_for_node-Claims :
      (listed : Option (List Pool)) (node : Node)
      → NoNil (get_pools_for_node selector listed node)
        × ((p : Pool)
            → get_primary_pool_for_node selector listed node ≡ some p
            → (is_windows node ≡ false) × Claims node p)
  unfolding get_pools_for_node get_primary_pool_for_node
  get_primary_pool_for_node-Claims listed node = elim (Bool-cases (is_windows node)) [
    | inl w ↦ rw w (tt, λ p e. cc)
    | inr w ↦ rw w (by_listed listed)
  ]
    where
      chosen :
          (o : Option (List Pool))
          → AllClaim node o
          → (p : Pool) → first_pool (pools_of o) ≡ some p
          → Claims node p
      chosen none h p e = cc
      chosen (some l) h p e =
          let fits : Fits (Claims node) (some p) = rw e at (pools_of-Fits (Claims node) l h) in fits

      by_listed :
          (o : Option (List Pool))
          → let r : Pools = elim o [
            | none ↦ failed not_listed
            | some ps ↦ pools_of (matching_pools selector node ps)
          ] in
            NoNil r × ((p : Pool) → first_pool r ≡ some p → (false ≡ false) × Claims node p)
      by_listed none = (tt, λ p e. cc)
      by_listed (some ps) =
          let o = matching_pools selector node ps in
          (pools_of-NoNil o, λ p e. (refl, chosen o (matching-AllClaim node ps) p e))
