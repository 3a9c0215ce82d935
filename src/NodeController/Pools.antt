-- ===== src/NodeController/Pools.antt =====
-- getPoolsForNode, getPrimaryPoolForNode and getNodesForPool of pkg/controller/node/node_controller.go:
-- the pool that a node belongs to, and the nodes of a pool.
pub mod Primary
use openshift_machine_config.Common.{
  ℕ, String, ◌==◌, Bool, true, false, ◌&&◌, ◌||◌, not, Option, none, some, List, [], ◌∷◌, ◌++◌,
  length, if◌then◌else◌, select,
}
use openshift_machine_config.Common.StringMap.{StringMap, get}
use openshift_machine_config.Kube.{Node, Pool}

-- What metav1.LabelSelectorAsSelector makes of the node selector of a pool: none is its error.
pub record Selector : Type 0 where
  pub is_empty : Bool
  pub selects : StringMap → Bool

pub data PoolError : Type 0 where
  not_listed invalid_selector : PoolError
  many_custom_roles : ℕ → PoolError

-- A list of pool pointers, which may be nil, or an error.
pub data Pools : Type 0 where
  pools : List (Option Pool) → Pools
  failed : PoolError → Pools

unfoldable pub is_windows : Node → Bool
is_windows node = elim (get node.labels "kubernetes.io/os") [
  | none ↦ false
  | some v ↦ v == "windows"
]

pub record Roles : Type 0 where
  pub master : Option Pool
  pub worker : Option Pool
  pub custom : List Pool

abbrev pub no_roles : Roles
no_roles = record { master = none; worker = none; custom = [] }

-- One round of the loop over the matching pools.
unfoldable pub add_role : Roles → Pool → Roles
add_role r p =
    if p.name == "master"
    then record r { master = some p }
    else if p.name == "worker"
    then record r { worker = some p }
    else record r { custom = r.custom ++ p ∷ [] }

unfoldable pub split_roles : Roles → List Pool → Roles
split_roles r [] = r
split_roles r (p ∷ ps) = split_roles (add_role r p) ps

abbrev pub when_made : Option Pool → List (Option Pool)
when_made none = []
when_made (some p) = some p ∷ []

-- The choice among the roles, where at least one pool matches.
unfoldable pub choose_pools : Option Pool → Option Pool → List Pool → Pools
choose_pools master worker (c ∷ d ∷ custom) = failed (many_custom_roles (length (c ∷ d ∷ custom)))
choose_pools none worker (c ∷ []) = pools (some c ∷ when_made worker)
choose_pools (some m) worker (c ∷ []) = pools (some m ∷ when_made worker)
choose_pools (some m) worker [] = pools (some m ∷ [])
choose_pools none worker [] = pools (worker ∷ [])

-- `pools[0]`, or nil.
abbrev pub first_pool : Pools → Option Pool
first_pool (failed e) = none
first_pool (pools []) = none
first_pool (pools (p ∷ ps)) = p

abbrev pub pools_of : Option (List Pool) → Pools
pools_of none = failed invalid_selector
pools_of (some []) = pools []
pools_of (some (p ∷ ps)) =
    let r = split_roles no_roles (p ∷ ps) in choose_pools r.master r.worker r.custom

module _ (selector : Pool → Option Selector) where
  -- An empty selector matches nothing.
  unfoldable pub matches : Node → Selector → Bool
  matches node s = not (s.is_empty || not (s.selects node.labels))

  abbrev pub add_matching : Node → Pool → Option Selector → Option (List Pool) → Option (List Pool)
  add_matching node p none rest = none
  add_matching node p (some s) none = none
  add_matching node p (some s) (some l) = some (if matches node s then p ∷ l else l)

  -- The loop over all pools; an invalid selector ends it.
  unfoldable pub matching_pools : Node → List Pool → Option (List Pool)
  matching_pools node [] = some []
  matching_pools node (p ∷ ps) = add_matching node p (selector p) (matching_pools node ps)

  -- `listed` is what the lister has, none on its error.
  unfoldable pub get_pools_for_node : Option (List Pool) → Node → Pools
  get_pools_for_node listed node =
      if is_windows node
      then pools []
      else elim listed [ none ↦ failed not_listed | some ps ↦ pools_of (matching_pools node ps) ]

  -- getPrimaryPoolForNode as getNodesForPool uses it, where an error and no pool are one.
  unfoldable pub get_primary_pool_for_node : Option (List Pool) → Node → Option Pool
  get_primary_pool_for_node listed node = first_pool (get_pools_for_node listed node)

  abbrev pub has_name : String → Option Pool → Bool
  has_name s none = false
  has_name s (some p) = p.name == s

  abbrev pub nodes_selected :
      Option (List Pool) → Pool → Option Selector → List Node → Option (List Node)
  nodes_selected listed pool none nodes = none
  nodes_selected listed pool (some s) nodes = some (
      select (λ n. has_name pool.name (get_primary_pool_for_node listed n))
        (select (λ n. s.selects n.labels) nodes))

  -- The selector of the pool lists the nodes, as nodeLister.List does.
  unfoldable pub get_nodes_for_pool : Option (List Pool) → Pool → List Node → Option (List Node)
  get_nodes_for_pool listed pool nodes = nodes_selected listed pool (selector pool) nodes
