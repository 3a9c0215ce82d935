-- ===== src/Operator/Pools/Rounds.antt =====
-- When a round of the poll for the required pools is the last one.
use openshift_machine_config.Common.{
  ◌≡◌, refl, ap, ◌∙◌, ◌↔◌, Bool, true, false, ◌&&◌, not, Option, none, some, List, All,
  if◌then◌else◌,
}
use openshift_machine_config.Kube.{Pool}
use openshift_machine_config.Operator.Pools.{
  Wanted, Poll, ready, again, metrics_error, Round, is_reported, poll_listed, poll_round,
}
use openshift_machine_config.Operator.Pools.Valid.{HasArrived, poll_pools-ready_iff}

poll_listed-ready_iff :
    (w : Wanted) (o : Option (List Pool))
    → (poll_listed (some w) o ≡ ready)
      ↔ ((pools : List Pool) × (o ≡ some pools) × All (HasArrived w) pools)
poll_listed-ready_iff w none = ((λ e. absurd (cc e)), (λ h. absurd (cc h.1)))
poll_listed-ready_iff w (some pools) =
    let (out, back) = poll_pools-ready_iff w pools in
    (
      (λ e. (pools, refl, out e)),
      (λ h. ap (λ o. poll_listed (some w) o) h.1 ∙ (poll_pools-ready_iff w h.0).1 h.2),
    )

poll_head_iff :
    (metrics blocked : Bool) (p : Poll)
    → ((if not metrics then metrics_error else if blocked then again else p) ≡ ready)
      ↔ ((metrics ≡ true) × (blocked ≡ false) × (p ≡ ready))
poll_head_iff false blocked p = ((λ e. absurd (cc e)), (λ h. absurd (cc h.0)))
poll_head_iff true true p = ((λ e. absurd (cc e)), (λ h. absurd (cc h.1)))
poll_head_iff true false p = ((λ e. (refl, refl, e)), (λ h. h.2))

-- With the image URLs read, a round of the poll ends the wait for the required pools exactly where the
-- metrics are synced, the error that an earlier round has left, if there is one, is reported to the
-- cluster operator, and the pools are listed, of which no pool is degraded and every required pool has
-- a valid configuration, a generation that was seen, and updated nodes. A configuration is valid
-- exactly where the pool names one and its nodes are at one with sources, each config of these is of
-- the version of the controller (a source may name none), and the rendered one has the image of the
-- release, or one that overrides it, and names the release.
pub poll_round-ready_iff :
    (w : Wanted) (r : Round)
    → (poll_round (some w) r ≡ ready) ↔ (
        (r.metrics_synced ≡ true)
        × ((r.has_last_error && not (is_reported r.error_report)) ≡ false)
        × ((pools : List Pool) × (r.listed ≡ some pools) × All (HasArrived w) pools))
unfolding poll_round
poll_round-ready_iff w r =
    let (out, back) =
      poll_head_iff r.metrics_synced (r.has_last_error && not (is_reported r.error_report))
        (poll_listed (some w) r.listed) in
    let (seen, unseen) = poll_listed-ready_iff w r.listed in
    (
      (λ e. let (m, b, l) = out e in (m, b, seen l)),
      (λ h. let (m, b, l) = h in back (m, b, unseen l)),
    )
