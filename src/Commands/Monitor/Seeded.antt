-- ===== src/Commands/Monitor/Seeded.antt =====
-- cmd/pauli/main.go and monitor.go: where the monitor begins, and what its start leaves alone.
use pauli.Common.{
  ◌∙◌, ◌++◌, ℕ, ◌-◌, ◌^◌, ◌≡◌, refl, sym, subst, ◌⊎◌, inl, inr, List, [], ◌∷◌, Option, none, some,
  true,
}
use pauli.Text.{text}
use pauli.Exec.{Result, ok, err, Exec, pure, annotate, recover, ◌>>=◌}
use pauli.Exec.Post.{Post, Post-bind, Post-annotate, Post-recover, Post-state, Post-weaken}
use pauli.Storage.{slot, Db, World, query, Repository, Fate, answered, refused, reply_lost}
use pauli.Storage.Keeps.{Keeps, keeps_rules}
use pauli.Storage.Progress.{max_indexed_slot, max_progress, max_position}
use pauli.Storage.Progress.Highest.{IsHighest, max_position-IsHighest}
use pauli.Storage.Reads.{count_snapshots}
use pauli.Storage.Connection.{Store, health_check}
use pauli.Config.{Config, load}
use pauli.Beacon.Node.{is_node_synced}
use pauli.Beacon.Requests
use pauli.Indexing.{fetch}
use pauli.Indexing.Calls.{Keeps-fetch}
use pauli.Realtime.{State, new_state}
use pauli.Monitor.Startup.{
  Startup, prepare, init_beacon_network_clock, log_node_sync_status, set_last_processed_slot,
}
use pauli.Commands.{Process, Setup, on_world, load_config, open_store}
use pauli.Commands.Apart.{Spares, spared_bind, opened_bind, spares_rules, clock-Keeps}
use pauli.Commands.Monitor.{probe, count_probe, validator_probe, start_up}

-- The cursor that a highest slot gives: unset, the largest uint64, where no slot is marked.
abbrev pub cursor_of : Option ℕ → ℕ
cursor_of none = 2 ^ 64 - 1
cursor_of (some p) = p

-- Some statement is not answered.
abbrev pub Unanswered : Repository → Type 0
Unanswered repo = (n : ℕ) × ((repo.fate n ≡ refused) ⊎ (repo.fate n ≡ reply_lost))

-- The cursor is at the highest slot that is marked, and unset if none is; or it is unset because a
-- statement was not answered.
abbrev pub Seeded : Repository → Db → State → Type 0
Seeded repo db state =
    ((o : Option ℕ) × IsHighest slot db.progress o × (state.last_processed_slot ≡ cursor_of o))
    ⊎ ((state.last_processed_slot ≡ cursor_of none) × Unanswered repo)

-- A query that can be encoded fails only where it is not answered.
query-Answered :
    {A : Type 0} (r : Repository) (read : Db → A) (w : World)
    → Post
        (λ a w'. (a ≡ read w.db) × (w'.db ≡ w.db))
        (λ w'. Unanswered r × (w'.db ≡ w.db))
        (query r true read w)
unfolding query
query-Answered {A} r read w = go (r.fate w.calls) refl
  where
    go :
        (f : Fate)
        → r.fate w.calls ≡ f
        → Post
            (λ a w'. (a ≡ read w.db) × (w'.db ≡ w.db))
            (λ w'. Unanswered r × (w'.db ≡ w.db))
            (query (record r { fate = λ _. f }) true read w)
    go answered e = (refl, refl)
    go refused e = ((w.calls, inl e), refl)
    go reply_lost e = ((w.calls, inr e), refl)

module _ (s : Startup) (db : Db) where
  -- What the seed is: the highest slot that is marked, or nothing where the query is not answered.
  abbrev IsSeed : Option ℕ → World → Type 0
  IsSeed o w =
      ((o ≡ max_position slot db.progress) ⊎ ((o ≡ none) × Unanswered s.repo)) × (w.db ≡ db)

  abbrev Missing : World → Type 0
  Missing w = Unanswered s.repo × (w.db ≡ db)

  max_indexed_slot-IsSeed :
      (w : World)
      → w.db ≡ db
      → Post IsSeed (λ w'. w'.db ≡ db) (recover (max_indexed_slot s.repo) pure (λ e. pure none) w)
  unfolding max_indexed_slot max_progress
  max_indexed_slot-IsSeed w e =
      Post-recover IsSeed IsSeed Missing (λ w'. w'.db ≡ db) (max_indexed_slot s.repo) pure
        (λ er. pure none) w
        (Post-annotate IsSeed Missing (text "max indexer progress " ++ text "slot")
          (query s.repo true (λ d. max_position slot d.progress)) w
          (Post-weaken {R = IsSeed} {F = Missing}
            (query s.repo true (λ d. max_position slot d.progress) w)
            (λ o w' h. (inl (h.0 ∙ λ i. max_position slot (e i).progress), h.1 ∙ e))
            (λ w' h. (h.0, h.1 ∙ e)) (query-Answered s.repo (λ d. max_position slot d.progress) w)))
        (λ o w' h. h) (λ er w' h. (inr (refl, h.0), h.1))

  cursor-Seeded :
      (o : Option ℕ) (w : World)
      → (o ≡ max_position slot db.progress) ⊎ ((o ≡ none) × Unanswered s.repo)
      → Seeded s.repo db (set_last_processed_slot s o (new_state w))
  unfolding set_last_processed_slot new_state
  cursor-Seeded none w (inl e) = inl (
    none,
    subst (IsHighest slot db.progress) (sym e) (max_position-IsHighest slot db.progress),
    refl,
  )
  cursor-Seeded none w (inr h) = inr (refl, h.1)
  cursor-Seeded (some q) w (inl e) = inl (
    some q,
    subst (IsHighest slot db.progress) (sym e) (max_position-IsHighest slot db.progress),
    refl,
  )
  cursor-Seeded (some q) w (inr h) = absurd (cc (h.0))

  sync-Keeps : Keeps (λ d. d ≡ db) (log_node_sync_status s)
  unfolding log_node_sync_status
  sync-Keeps = search (keeps_rules, Keeps-fetch)

  prepare-Seeded :
      (w : World)
      → w.db ≡ db
      → Post (λ state w'. Seeded s.repo db state × (w'.db ≡ db)) (λ w'. w'.db ≡ db) (prepare s w)
  unfolding prepare
  prepare-Seeded w e =
      Post-bind (λ _ w1. w1.db ≡ db) (λ state w'. Seeded s.repo db state × (w'.db ≡ db))
        (λ w'. w'.db ≡ db) (init_beacon_network_clock s) _ w
        (Post-state (λ w'. w'.db ≡ db) (init_beacon_network_clock s w) ((clock-Keeps s).stays w e))
        (λ _ w1 e1.
          Post-bind (λ _ w2. w2.db ≡ db) (λ state w'. Seeded s.repo db state × (w'.db ≡ db))
            (λ w'. w'.db ≡ db) (log_node_sync_status s) _ w1
            (Post-state (λ w'. w'.db ≡ db) (log_node_sync_status s w1) (sync-Keeps.stays w1 e1))
            (λ _ w2 e2.
              Post-bind IsSeed (λ state w'. Seeded s.repo db state × (w'.db ≡ db))
                (λ w'. w'.db ≡ db) (recover (max_indexed_slot s.repo) pure (λ er. pure none)) _ w2
                (max_indexed_slot-IsSeed w2 e2) (λ o w3 h. (cursor-Seeded o w3 h.0, h.1))))

module _ {F P Pool S : Type 0} (u : Setup F P Pool S) (db : Db) where
  probe-Spares : {A : Type 0} (m : Exec World A) → Keeps (λ d. d ≡ db) m → Spares db (probe u m)
  probe-Spares m k = search (spares_rules, k)

  count_probe-Spares : (vs : List ℕ) → Spares db (count_probe u vs)
  unfolding count_snapshots
  count_probe-Spares [] = search spares_rules
  count_probe-Spares (v ∷ vs) = probe-Spares (count_snapshots u.repo v) (search keeps_rules)

  validator_probe-Spares : (cfg : Config F) (vs : List ℕ) → Spares db (validator_probe u cfg vs)
  validator_probe-Spares cfg [] = search spares_rules
  validator_probe-Spares cfg (v ∷ vs) = probe-Spares _ (Keeps-fetch _)

  health-Spares :
      Spares {P = P} {S = S} db
        (annotate (text "database health check failed") (on_world (health_check u.repo)))
  unfolding health_check
  health-Spares = search (spares_rules, keeps_rules)

-- What is left when the monitor's goroutines begin.
abbrev pub Started :
    {P S Pool : Type 0} → Repository → Db → Store Pool × State → Process P S → Type 0
Started repo db (store, state) p = Seeded repo db state × (p.world.db ≡ db)

launched :
    {P S Pool : Type 0} (store : Store Pool) (s : Startup) (db : Db) (p : Process P S)
    → p.world.db ≡ db
    → Post
        (Started s.repo db)
        (λ p'. p'.world.db ≡ db)
        ((annotate (text "failed to start monitor") (on_world (prepare s)) >>= λ state.
            pure (store, state))
          p)
launched {P} {S} store s db p e = go (prepare s p.world) (prepare-Seeded s db p.world e)
  where
    go :
        (x : Result State × World)
        → Post (λ state w'. Seeded s.repo db state × (w'.db ≡ db)) (λ w'. w'.db ≡ db) x
        → Post
            (Started s.repo db)
            (λ p'. p'.world.db ≡ db)
            ((annotate (text "failed to start monitor") (on_world {P = P} {S = S} (λ _. x))
                >>= λ state. pure (store, state))
              p)
    go (ok state, w) h = h
    go (err er, w) h = h

module _ {F P Pool S : Type 0} (u : Setup F P Pool S) (cfg : Config F)
    (loads : load u.nonpositive_rate u.default_rate u.parsed ≡ ok cfg) where
  -- Whatever the database and the node answer: after the store is opened and the migrations have
  -- run, the start-up of the monitor changes none of the indexer's tables, also where it fails; and
  -- where it does not, the realtime runner's cursor is the highest slot that is marked, or the
  -- largest uint64 if none is or if the repository leaves a statement unanswered.
  pub start_up-Started :
      (p : Process P S)
      → Post
          (Started u.repo (open_store u cfg p).1.world.db)
          (λ p'. p'.world.db ≡ (open_store u cfg p).1.world.db)
          (start_up u p)
  unfolding start_up load_config
  start_up-Started p =
      let db : Db = (open_store u cfg p).1.world.db in
      rw loads (
        opened_bind (Started u.repo db) (open_store u cfg) _ p (λ store p2 e2.
          spared_bind db (Started u.repo db)
            (annotate (text "database health check failed") (on_world (health_check u.repo))) _ p2
            (health-Spares u db) e2
            (λ healthy p3 e3.
              spared_bind db (Started u.repo db) (count_probe u cfg.validators) _ p3
                (count_probe-Spares u db cfg.validators) e3
                (λ counted p4 e4.
                  spared_bind db (Started u.repo db)
                    (probe u (fetch (is_node_synced (u.gets (Requests.new_client cfg))))) _ p4
                    (probe-Spares u db _ (Keeps-fetch _)) e4
                    (λ synced p5 e5.
                      spared_bind db (Started u.repo db) (validator_probe u cfg cfg.validators) _ p5
                        (validator_probe-Spares u db cfg cfg.validators) e5
                        (λ fetched p6 e6.
                          launched store
                            (record { gets = u.gets (Requests.new_client cfg); repo = u.repo }) db
                            p6 e6))))))
