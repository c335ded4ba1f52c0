-- ===== src/Task/World/Places.antt =====
-- The request in a place of the world, which others leave alone.
use oldman_agent.Prelude.{
  ℕ, zero, suc, ◌+◌, ◌≡◌, false, List, [], ◌∷◌, ◌++◌, length, map, eqb, String, ◌==◌, arith,
  if◌then◌else◌,
}
use oldman_agent.Db.{Db}
use oldman_agent.Task.World.{
  Running, Happening, arrive, resume, leave, stop, stepped, resume_at, gone_on, go_on_at,
}

-- `P` holds of the request in that place, which is there.
abbrev pub At {ℓ} : {R : Type 0} → ℕ → (Running R → Type ℓ) → List (Running R) → Type ℓ
At i P [] = ⊥ × Unit {ℓ}
At zero P (t ∷ ts) = P t
At (suc i) P (t ∷ ts) = At i P ts

-- The task is not cancelled.
abbrev pub NotStopped : String → List Happening → Type 0
NotStopped id [] = Unit
NotStopped id (arrive other request ∷ hs) = NotStopped id hs
NotStopped id (resume j ∷ hs) = NotStopped id hs
NotStopped id (leave j ∷ hs) = NotStopped id hs
NotStopped id (stop other ∷ hs) = ((id == other) ≡ false) × NotStopped id hs

-- How often the request is resumed.
abbrev pub resumes : ℕ → List Happening → ℕ
resumes i [] = 0
resumes i (arrive id request ∷ hs) = resumes i hs
resumes i (leave j ∷ hs) = resumes i hs
resumes i (resume j ∷ hs) = let later = resumes i hs in if eqb i j then later + 1 else later
resumes i (stop id ∷ hs) = resumes i hs

module _ {ℓ} {R : Type 0} (P : Running R → Type ℓ) where
  pub At-append :
      (i : ℕ) (ts : List (Running R)) (t : Running R) → At i P ts → At i P (ts ++ t ∷ [])
  At-append i [] t h = absurd h.0
  At-append zero (u ∷ ts) t h = h
  At-append (suc i) (u ∷ ts) t h = At-append i ts t h

  pub At-append_new :
      (f : Running R → Running R) (ts : List (Running R)) (t : Running R)
      → P t
      → At (length ts) P (map f ts ++ t ∷ [])
  At-append_new f [] t h = h
  At-append_new f (u ∷ ts) t h = At-append_new f ts t h

  -- What the `finally` does not change.
  pub At-go_on :
      (i j : ℕ) (ts : List (Running R))
      → ((t : Running R) → P t → P (gone_on t))
      → At i P ts
      → At i P (go_on_at j ts)
  unfolding go_on_at
  At-go_on i j [] f h = h
  At-go_on zero zero (t ∷ ts) f h = f t h
  At-go_on zero (suc j) (t ∷ ts) f h = h
  At-go_on (suc i) zero (t ∷ ts) f h = h
  At-go_on (suc i) (suc j) (t ∷ ts) f h = At-go_on i j ts f h

  pub At-each :
      (f : Running R → Running R) (i : ℕ) (ts : List (Running R))
      → ((t : Running R) → P t → P (f t))
      → At i P ts
      → At i P (map f ts)
  At-each f i [] k h = h
  At-each f zero (t ∷ ts) k h = k t h
  At-each f (suc i) (t ∷ ts) k h = At-each f i ts k h

  pub At-resume_other :
      (i j : ℕ) (db : Db R) (ts : List (Running R))
      → eqb i j ≡ false
      → At i P ts
      → At i P (resume_at j db ts).tasks
  unfolding resume_at
  At-resume_other i j db [] other h = h
  At-resume_other zero zero db (t ∷ ts) other h = absurd (ground arith)
  At-resume_other zero (suc j) db (t ∷ ts) other h = h
  At-resume_other (suc i) zero db (t ∷ ts) other h = h
  At-resume_other (suc i) (suc j) db (t ∷ ts) other h = At-resume_other i j db ts (ground arith) h

-- The request after one segment.
abbrev pub resumed : {R : Type 0} → Db R → Running R → Running R
resumed db t =
    let (p, s) = stepped t.cancelling t.process (record { db = db; queue = t.queue }) in
    record t { queue = s.queue; process = p }

module _ {ℓ} {R : Type 0} (P Q : Running R → Type ℓ) where
  -- A request that is resumed.
  pub At-resume :
      (i : ℕ) (db : Db R) (ts : List (Running R))
      → ((t : Running R) → P t → Q (resumed db t))
      → At i P ts
      → At i Q (resume_at i db ts).tasks
  unfolding resume_at
  At-resume i db [] f h = h
  At-resume zero db (t ∷ ts) f h = f t h
  At-resume (suc i) db (t ∷ ts) f h = At-resume i db ts f h

module _ {ℓ κ} {R : Type 0} (P : Running R → Type ℓ) (Q : Running R → Type κ) where
  pub At-map :
      (i : ℕ) (ts : List (Running R)) → ((t : Running R) → P t → Q t) → At i P ts → At i Q ts
  At-map i [] f h = (h.0, tt)
  At-map zero (t ∷ ts) f h = f t h
  At-map (suc i) (t ∷ ts) f h = At-map i ts f h
