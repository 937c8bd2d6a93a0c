-- ===== src/Commands/Apart.antt =====
-- cmd/pauli and cmd/pauli-backfill: the steps of a start-up that do not touch the indexer's tables.
use pauli.Common.{◌≡◌, refl}
use pauli.Text.{Text}
use pauli.Exec.{
  Error, Result, ok, err, Exec, pure, annotate, continue, ◌>>=◌, lift, resume, recover,
}
use pauli.Exec.Post.{Post, Post-bind, Post-state}
use pauli.Storage.{Db, World}
use pauli.Storage.Keeps.{Keeps, keeps_rules}
use pauli.Indexing.Calls.{Keeps-fetch}
use pauli.Monitor.Startup.{Startup, init_beacon_network_clock}
use pauli.Commands.{Process, on_pools, on_world}

-- However the step ends, the indexer's tables are these if they were before.
pub record Spares {P S A : Type 0} (db : Db) (m : Exec (Process P S) A) : Type 0 where
  pub stays : (p : Process P S) → p.world.db ≡ db → (m p).1.world.db ≡ db

module _ {P S A : Type 0} {db : Db} where
  pub Spares-pure : (a : A) → Spares db (pure {S = Process P S} a)
  Spares-pure a = record { stays = λ p e. e }

  pub Spares-lift : (x : Result A) → Spares db (lift {S = Process P S} x)
  Spares-lift x = record { stays = λ p e. e }

  pub Spares-annotate :
      (context : Text) (m : Exec (Process P S) A) → Spares db m → Spares db (annotate context m)
  Spares-annotate context m k = record { stays = k.stays }

  pub Spares-on_pools : (m : Exec P A) → Spares {S = S} db (on_pools m)
  Spares-on_pools m = record { stays = λ p e. e }

  pub Spares-on_world :
      (m : Exec World A) → Keeps (λ d. d ≡ db) m → Spares {P = P} {S = S} db (on_world m)
  Spares-on_world m k = record { stays = λ p e. k.stays p.world e }

module _ {P S A B : Type 0} {db : Db} where
  Spares-continue :
      (x : Result A) (f : A → Exec (Process P S) B)
      → ((a : A) → Spares db (f a))
      → Spares db (continue x f)
  Spares-continue (ok a) f k = k a
  Spares-continue (err e) f k = record { stays = λ p e. e }

  pub Spares-bind :
      (m : Exec (Process P S) A) (f : A → Exec (Process P S) B)
      → Spares db m
      → ((a : A) → Spares db (f a))
      → Spares db (m >>= f)
  Spares-bind m f km kf = record {
    stays = λ p e. (Spares-continue (m p).0 f kf).stays (m p).1 (km.stays p e);
  }

  Spares-resume :
      (x : Result A) (done : A → Exec (Process P S) B) (failed : Error → Exec (Process P S) B)
      → ((a : A) → Spares db (done a))
      → ((e : Error) → Spares db (failed e))
      → Spares db (resume x done failed)
  Spares-resume (ok a) done failed kd kf = kd a
  Spares-resume (err e) done failed kd kf = kf e

  pub Spares-recover :
      (m : Exec (Process P S) A) (done : A → Exec (Process P S) B)
      (failed : Error → Exec (Process P S) B)
      → Spares db m
      → ((a : A) → Spares db (done a))
      → ((e : Error) → Spares db (failed e))
      → Spares db (recover m done failed)
  Spares-recover m done failed km kd kf = record {
    stays = λ p e. (Spares-resume (m p).0 done failed kd kf).stays (m p).1 (km.stays p e);
  }

-- A step that spares the tables, in front of the rest.
pub spared_bind :
    {P S A B : Type 0} (db : Db) (Q : B → Process P S → Type 0) (m : Exec (Process P S) A)
    (f : A → Exec (Process P S) B) (p : Process P S)
    → Spares db m
    → p.world.db ≡ db
    → ((a : A) (p1 : Process P S) → p1.world.db ≡ db → Post Q (λ p'. p'.world.db ≡ db) (f a p1))
    → Post Q (λ p'. p'.world.db ≡ db) ((m >>= f) p)
spared_bind db Q m f p k e =
    Post-bind (λ _ p1. p1.world.db ≡ db) Q (λ p'. p'.world.db ≡ db) m f p
      (Post-state (λ p'. p'.world.db ≡ db) (m p) (k.stays p e))

-- A step in front of the rest, which starts from the tables that the step leaves.
pub opened_bind :
    {P S A B : Type 0} (Q : B → Process P S → Type 0) (m : Exec (Process P S) A)
    (f : A → Exec (Process P S) B) (p : Process P S)
    → ((a : A) (p1 : Process P S)
        → p1.world.db ≡ (m p).1.world.db
        → Post Q (λ p'. p'.world.db ≡ (m p).1.world.db) (f a p1))
    → Post Q (λ p'. p'.world.db ≡ (m p).1.world.db) ((m >>= f) p)
opened_bind Q m f p =
    Post-bind (λ _ p1. p1.world.db ≡ (m p).1.world.db) Q (λ p'. p'.world.db ≡ (m p).1.world.db) m f
      p (Post-state (λ p'. p'.world.db ≡ (m p).1.world.db) (m p) refl)

pub ruleset spares_rules = (
  Spares-pure, Spares-lift, Spares-annotate, Spares-on_pools, Spares-on_world, Spares-bind,
  Spares-recover,
)

pub clock-Keeps : {db : Db} (s : Startup) → Keeps (λ d. d ≡ db) (init_beacon_network_clock s)
unfolding init_beacon_network_clock
clock-Keeps s = search (keeps_rules, Keeps-fetch)
