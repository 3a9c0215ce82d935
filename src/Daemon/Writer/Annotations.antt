-- ===== src/Daemon/Writer/Annotations.antt =====
-- The annotations of a node after writes and deletions, and what they must say of a node that is done.
use openshift_machine_config.Common.{
  ◌≡◌, refl, sym, ap, ◌∙◌, String, ◌==◌, ==_iff, Bool, true, false, ◌&&◌, ◌||◌, not, is_some,
  Option, none, some, List, [], ◌∷◌, if◌then◌else◌, Bool-cases, inl, inr,
}
use openshift_machine_config.Common.StringMap.{
  StringMap, get, get_str, put, remove, is_nil, value, get-put, get-remove,
}
use openshift_machine_config.Kube.{Node, Pool}
use openshift_machine_config.Layered.{
  state_key, current_config_key, desired_config_key, current_image_key, desired_image_key,
  state_done, is_layered, has_os_image, get_os_image, is_node_mcd_state, is_node_done,
  is_node_done_at, is_image_annotation_equal_to_pool, is_desired_image_equal_to_pool,
  is_current_image_equal_to_pool, is_done_at,
}
use openshift_machine_config.Daemon.Writer.{put_all, remove_all}

-- What stands at a key after the writes, and after the deletions.
abbrev pub written : List (String × String) → String → Option String → Option String
written [] k base = base
written ((j, v) ∷ annos) k base = written annos k (if j == k then some v else base)

abbrev pub deleted : List String → String → Option String → Option String
deleted [] k base = base
deleted (j ∷ ks) k base = deleted ks k (if j == k then none else base)

pub get-put_all :
    (annos : List (String × String)) (m : StringMap) (k : String)
    → get (put_all annos m) k ≡ written annos k (get m k)
unfolding put_all
get-put_all [] m k = refl
get-put_all ((j, v) ∷ annos) m k =
    get-put_all annos (put m j v) k ∙ ap (written annos k) (get-put m j v k)

pub get-remove_all :
    (ks : List String) (m : StringMap) (k : String)
    → get (remove_all ks m) k ≡ deleted ks k (get m k)
unfolding remove_all
get-remove_all [] m k = refl
get-remove_all (j ∷ ks) m k =
    get-remove_all ks (remove m j) k ∙ ap (deleted ks k) (get-remove m j k)

-- The image that the pool wants, empty where it wants none.
abbrev pub pool_image : Pool → String
pool_image pool = if is_layered pool && has_os_image pool then get_os_image pool else ""

-- What the annotations must say of a node that is done.
pub done_by :
    (n : Node) (pool : Pool)
    → is_nil n.annotations ≡ false
    → (pool.configuration.name == "") ≡ false
    → get n.annotations state_key ≡ some state_done
    → get n.annotations current_config_key ≡ some pool.configuration.name
    → get n.annotations desired_config_key ≡ some pool.configuration.name
    → is_image_annotation_equal_to_pool n desired_image_key pool ≡ true
    → is_image_annotation_equal_to_pool n current_image_key pool ≡ true
    → is_done_at n pool ≡ true
unfolding is_done_at is_node_done_at is_node_done is_node_mcd_state is_desired_image_equal_to_pool
    is_current_image_equal_to_pool get_str
done_by n pool made named state current desired wanted running =
    let name = pool.configuration.name in
    let same = (==_iff name name).1 refl in
    rw (made, state, current, desired, named, same, wanted, running) refl

pub image_by :
    (n : Node) (pool : Pool) (k : String) (o : Option String)
    → get n.annotations k ≡ o
    → value o ≡ pool_image pool
    → is_image_annotation_equal_to_pool n k pool ≡ true
unfolding is_image_annotation_equal_to_pool
image_by n pool k o e h = rw e (go (is_layered pool && has_os_image pool) h)
  where
    go :
        (b : Bool)
        → value o ≡ (if b then get_os_image pool else "")
        → (if b then get_os_image pool == value o else (value o == "") || not (is_some o)) ≡ true
    go true h = (==_iff (get_os_image pool) (value o)).1 (sym h)
    go false h = rw ((==_iff (value o) "").1 h) refl

pub value_running : (t : String) → value (if t == "" then none else some t) ≡ t
value_running t = elim (Bool-cases (t == "")) [
  | inl e ↦ rw e (sym ((==_iff t "").0 e))
  | inr e ↦ rw e refl
]

pub value_wanted :
    (b : Bool) (t : String)
    → let image = if b then t else "" in
      value (if image == "" then none else if b then some t else none) ≡ image
value_wanted true t = value_running t
value_wanted false t = refl
