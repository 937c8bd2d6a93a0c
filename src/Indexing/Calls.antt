-- ===== src/Indexing/Calls.antt =====
-- A client's call within a step, in the rules for postconditions and for what the tables keep.
use pauli.Common.{ℕ}
use pauli.Exec.{Result, ok, err}
use pauli.Exec.Post.{Post}
use pauli.Storage.{Db, World, Repository, at}
use pauli.Storage.Keeps.{Keeps}
use pauli.Beacon.{Fetch}
use pauli.Indexing.{fetch, time_now}

module _ {A : Type 0} (m : Fetch A) where
  pub fetch-Post :
      (Q : A → World → Type 0) (E : World → Type 0) (w : World)
      → ((a : A) (n : ℕ) → Q a (at n w.db))
      → ((n : ℕ) → E (at n w.db))
      → Post Q E (fetch m w)
  unfolding fetch
  fetch-Post Q E w done failed = go (m w.calls)
    where
      go : (x : Result A × ℕ) → Post Q E (fetch (λ _. x) w)
      go (ok a, n) = done a n
      go (err e, n) = failed n

module _ {A : Type 0} {P : Db → Type 0} where
  pub Keeps-fetch : (m : Fetch A) → Keeps P (fetch m)
  unfolding fetch
  Keeps-fetch m = record { stays = λ w h. h }

pub Keeps-time_now : {P : Db → Type 0} (r : Repository) → Keeps P (time_now r)
Keeps-time_now r = record { stays = λ w h. h }

pub time_now-Post :
    (r : Repository) (Q : ℕ → World → Type 0) (E : World → Type 0) (w : World)
    → ((now : ℕ) → Q now w)
    → Post Q E (time_now r w)
time_now-Post r Q E w h = h (r.clock w.calls)
