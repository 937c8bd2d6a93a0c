-- ===== src/Api/Router/Serves.antt =====
-- internal/api/router.go: what every route does with a request.
use pauli.Api.Router.Pages.{
  Fits, Handles, query-Untouched, list_attestation_rewards-Lists, list_blocks-Lists,
  list_sync_committee_rewards-Lists,
}
use pauli.Api.Router.Handles.{
  list_rewards-Handles, list_rewards_scoped-Handles, latest_snapshot-Handles,
  list_snapshots-Handles, count_snapshots-Handles, list_validators-Handles,
}
use pauli.Common.{
  ◌≢◌, ◌⊎◌, ◌∙◌, ◌++◌, inl, inr, length-map, ◌≡◌, refl, sym, true, Option, none, some, List, [],
  ◌∷◌, All, arith,
}
use pauli.Text.{Text, text}
use pauli.Exec.{Result, ok, err, Exec, pure, annotate}
use pauli.Exec.Post.{Post, Post-bind, Post-recover}
use pauli.Storage.{World, Db, Repository, query}
use pauli.Storage.Reads
use pauli.Storage.Reads.SyncCommittee.{list_sync_committee_rewards}
use pauli.Storage.Reads.{
  ValidatorSnapshot, later_epoch, first_row, get_latest_snapshot, scope_encodes,
  list_validator_snapshots, snapshot_of, snapshot_rows, distinct_validators, AttestationReward,
  SyncCommitteeReward, list_attestation_rewards, list_blocks, listed_block, block_rows, scan_rows,
  scan_attestation, attestation_rows,
}
use pauli.Api.{
  parse_epoch_window, parse_slot_window, list_rewards_scoped, latest_snapshot, list_snapshots,
  count_snapshots, list_validators, Request, Response, bad_request, not_found, internal, page,
  value, list_rewards,
}
use pauli.Common.Orders.{In, All-at_In}
use pauli.Storage.Connection.{select_one, health_check}
use pauli.Api.Router.{
  validator_routes, query_routes, snapshot_routes, reward_routes, usable, healthz, spec_routes,
  mount_openapi_spec, new_router, Row, Answer, json, status_only, raw, Route, map_response, as_json,
}

abbrev pub AnswerFits : Answer → Type 0
AnswerFits (json response) = Fits response
AnswerFits (status_only code) = (code ≡ 200) ⊎ (code ≡ 503)
AnswerFits (raw code content_type body) = (code ≡ 200) × (body ≢ [])

-- A route has answered, with pages that keep to their limit, and the tables are as they were.
abbrev pub Serves : Db → Result Answer × World → Type 0
Serves db = Post (λ answer w. AnswerFits answer × (w.db ≡ db)) (λ w. ⊥)

map_response-Fits : {A B : Type 0} (f : A → B) (x : Response A) → Fits x → Fits (map_response f x)
map_response-Fits f (bad_request m) h = tt
map_response-Fits f (not_found m) h = tt
map_response-Fits f internal h = tt
map_response-Fits f (page rows limit offset count) h =
    (h.0 ∙ sym (length-map rows f), omega (arith, length-map rows f, h.1), h.2)
map_response-Fits f (value a) h = tt

as_json-Serves :
    {A : Type 0} (db : Db) (f : A → Row) (m : Exec World (Response A)) (w : World)
    → Handles db (m w)
    → Serves db (as_json f m w)
as_json-Serves {A} db f m w = go (m w)
  where
    go : (x : Result (Response A) × World) → Handles db x → Serves db (as_json f (λ _. x) w)
    go (ok response, v) h = (map_response-Fits f response h.0, h.1)
    go (err e, v) h = h

healthz-Serves : (r : Repository) (c : Request) (w : World) → Serves w.db (healthz r c w)
unfolding healthz health_check
healthz-Serves r c w =
    Post-recover (λ _ v. v.db ≡ w.db) (λ answer v. AnswerFits answer × (v.db ≡ w.db))
      (λ v. v.db ≡ w.db) (λ v. ⊥) (health_check r) (λ healthy. pure (status_only 200))
      (λ e. pure (status_only 503)) w
      (Post-bind (λ _ v. v.db ≡ w.db) (λ _ v. v.db ≡ w.db) (λ v. v.db ≡ w.db)
        (annotate (text "postgres health check failed") (query r true select_one)) (λ one. pure tt)
        w (query-Untouched r true (text "postgres health check failed") w select_one)
        (λ one v e. e))
      (λ _ v e. (inl refl, e)) (λ er v e. (inr refl, e))

-- The property of every route's handler at every request and every state.
abbrev AllServe : List Route → Type 0
AllServe routes =
    All (λ (route : Route). (c : Request) (w : World) → Serves w.db (route.handler c w)) routes

AllServe-append : (xs ys : List Route) → AllServe xs → AllServe ys → AllServe (xs ++ ys)
AllServe-append [] ys h k = k
AllServe-append (x ∷ xs) ys h k = (h.0, AllServe-append xs ys h.1 k)

mount_openapi_spec-AllServe :
    (read_file : Text → Option Text) → AllServe (mount_openapi_spec read_file)
unfolding mount_openapi_spec
mount_openapi_spec-AllServe read_file =
    go (read_file (text "docs/openapi.yaml")) (read_file (text "./docs/openapi.yaml"))
  where
    go : (o p : Option Text) → AllServe (spec_routes (usable o (usable p none)))
    go none none = tt
    go none (some []) = tt
    go none (some (x ∷ xs)) = ((λ c w. ((refl, cc), refl)), tt)
    go (some []) none = tt
    go (some []) (some []) = tt
    go (some []) (some (x ∷ xs)) = ((λ c w. ((refl, cc), refl)), tt)
    go (some (x ∷ xs)) p = ((λ c w. ((refl, cc), refl)), tt)

-- A handler whose answer is sent as JSON.
served :
    {A : Type 0} (f : A → Row) (m : Request → Exec World (Response A))
    → ((c : Request) (w : World) → Handles w.db (m c w))
    → (c : Request) (w : World) → Serves w.db (as_json f (m c) w)
served f m h c w = as_json-Serves w.db f (m c) w (h c w)

module _ (r : Repository) where
  query_routes-AllServe : AllServe (query_routes r)
  query_routes-AllServe = (
    served Row.validator (list_validators (Reads.list_validators r)) (list_validators-Handles r),
    (
      served Row.attestation
          (λ c. list_rewards parse_epoch_window (list_attestation_rewards r) c none)
          (λ c.
            list_rewards-Handles parse_epoch_window _ (list_attestation_rewards-Lists r) c none),
      (
        served Row.block (λ c. list_rewards parse_slot_window (list_blocks r) c none)
            (λ c. list_rewards-Handles parse_slot_window _ (list_blocks-Lists r) c none),
        (
          served Row.sync_reward
              (λ c. list_rewards parse_slot_window (list_sync_committee_rewards r) c none)
              (λ c.
                list_rewards-Handles parse_slot_window _ (list_sync_committee_rewards-Lists r) c
                  none),
          tt,
        ),
      ),
    ),
  )

  snapshot_routes-AllServe : AllServe (snapshot_routes r)
  snapshot_routes-AllServe = (
    served Row.snapshot (latest_snapshot (get_latest_snapshot r)) (latest_snapshot-Handles r),
    (
      served Row.snapshot (list_snapshots (list_validator_snapshots r)) (list_snapshots-Handles r),
      (
        served Row.row_count (count_snapshots (Reads.count_snapshots r))
            (count_snapshots-Handles r),
        tt,
      ),
    ),
  )

  reward_routes-AllServe : AllServe (reward_routes r)
  reward_routes-AllServe = (
    served Row.attestation (list_rewards_scoped parse_epoch_window (list_attestation_rewards r))
        (list_rewards_scoped-Handles parse_epoch_window _ (list_attestation_rewards-Lists r)),
    (
      served Row.block (list_rewards_scoped parse_slot_window (list_blocks r))
          (list_rewards_scoped-Handles parse_slot_window _ (list_blocks-Lists r)),
      (
        served Row.sync_reward
            (list_rewards_scoped parse_slot_window (list_sync_committee_rewards r))
            (list_rewards_scoped-Handles parse_slot_window _ (list_sync_committee_rewards-Lists r)),
        tt,
      ),
    ),
  )

new_router-AllServe :
    (r : Repository) (read_file : Text → Option Text) → AllServe (new_router r read_file)
unfolding new_router
new_router-AllServe r read_file = (
  healthz-Serves r,
  AllServe-append (mount_openapi_spec read_file) (query_routes r ++ validator_routes r)
      (mount_openapi_spec-AllServe read_file)
      (AllServe-append (query_routes r) (validator_routes r) (query_routes-AllServe r) (
        AllServe-append (snapshot_routes r) (reward_routes r) (snapshot_routes-AllServe r)
          (reward_routes-AllServe r))),
)

-- Every route of NewRouter, whatever the request and the state, answers it and leaves the tables
-- as they were; a page of an answer counts its rows, which are no more than its limit, from 1 to
-- 1000; an answer of a bare status is 200 or 503, and a served document is not empty.
pub new_router-Serves :
    (r : Repository) (read_file : Text → Option Text) (route : Route) (c : Request) (w : World)
    → In route (new_router r read_file)
    → Serves w.db (route.handler c w)
new_router-Serves r read_file route c w found =
    All-at_In _ route (new_router r read_file) found (new_router-AllServe r read_file) c w
