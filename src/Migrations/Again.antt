-- ===== src/Migrations/Again.antt =====
-- Running the migrations once more.
use oldman_agent.Prelude.{
  ℕ, String, ◌≡◌, refl, ap, ◌∙◌, true, ◌||◌, List, [], ◌∷◌, ◌++◌, All, arith, if◌then◌else◌,
}
use mathlib.Core.Path.{subst}
use oldman_agent.Exec.{Exec, Result, ok, err, pure, ◌>>=◌}
use oldman_agent.Exec.Ends.{
  Ends, Ends-pure, Ends-gets, Ends-raise_if, Ends-modify, Ends-if, Ends-weaken, Ends-bind,
  Ends-then, Ends-transact,
}
use oldman_agent.Migrations.{
  SqlFile, Migration, discover_migrations, has_version, Schema, record_version, migrate, apply_each,
  apply_migrations,
}

-- Every version of the one list is in the other.
abbrev pub Within : List ℕ → List ℕ → Type 0
Within xs ys = (v : ℕ) → has_version v xs ≡ true → has_version v ys ≡ true

-- A call that finished has recorded all the versions, and no call forgets one.
pub record Recorded {T : Type 0} (ms : List Migration) (before after : Schema T) : Type 0 where
  pub all_recorded : All (λ m. has_version m.version after.versions ≡ true) ms
  pub none_forgotten : Within before.versions after.versions

has_version-append :
    (v : ℕ) (xs ys : List ℕ) → has_version v (xs ++ ys) ≡ (has_version v xs || has_version v ys)
unfolding has_version
has_version-append v [] ys = refl
has_version-append v (x ∷ xs) ys = ground (arith, has_version-append v xs ys)

All-grows :
    (ms : List Migration) (xs ys : List ℕ)
    → Within xs ys
    → All (λ m. has_version m.version xs ≡ true) ms
    → All (λ m. has_version m.version ys ≡ true) ms
All-grows [] xs ys w h = tt
All-grows (m ∷ ms) xs ys w h = (w m.version h.0, All-grows ms xs ys w h.1)

Recorded-append :
    {T : Type 0} (m : Migration) (s s1 : Schema T)
    → s1.versions ≡ s.versions ++ m.version ∷ []
    → Recorded (m ∷ []) s s1
unfolding has_version
Recorded-append m s s1 h = record {
  all_recorded =
      (rw h (has_version-append m.version s.versions (m.version ∷ []) ∙ ground arith), tt);
  none_forgotten =
      λ v k. rw h (has_version-append v s.versions (m.version ∷ []) ∙ ground (arith, k));
}

module _ {T : Type 0} (run_sql : String → Exec T (Unit {0})) where
  -- After a migration that finished.
  abbrev Migrated : Migration → Schema T → Result (Unit {0}) → Schema T → Type 0
  Migrated m s (ok _) s' = Recorded (m ∷ []) s s'
  Migrated m s (err e) s' = s' ≡ s

  -- The versions are as they were, but for the one recorded at the end.
  abbrev Extended : ℕ → List ℕ → Result (Unit {0}) → Schema T → Type 0
  Extended v before (ok _) s' = s'.versions ≡ before ++ v ∷ []
  Extended v before (err e) s' = Unit

  record_version-Extended :
      (v : ℕ) (s : Schema T) (before : List ℕ)
      → s.versions ≡ before
      → Ends (record_version run_sql v) s (Extended v before)
  unfolding record_version
  record_version-Extended v s before h = Ends-bind _ _ s _ (
      Ends-gets _ s _ (
        Ends-bind _ _ s _
          (Ends-raise_if _ _ s _ (λ _. tt) (λ _. Ends-modify _ s _ (ap (λ l. l ++ v ∷ []) h)))))

  migrate-Migrated : (m : Migration) (s : Schema T) → Ends (migrate run_sql m) s (Migrated m s)
  unfolding migrate
  migrate-Migrated m s =
      Ends-transact _ s (Migrated m s) (Extended m.version s.versions)
        (Ends-then _ _ s (λ _ s'. s'.versions ≡ s.versions) _ (record { at = refl })
          (λ _ s1 h. record_version-Extended m.version s1 s.versions h) (λ e s1 h. tt))
        (λ _ s1 h. Recorded-append m s s1 h) (λ e. refl)

  Skipped-Recorded :
      (m : Migration) (s : Schema T)
      → has_version m.version s.versions ≡ true
      → Recorded (m ∷ []) s s
  Skipped-Recorded m s h = record { all_recorded = (h, tt); none_forgotten = λ v k. k }

  -- Versions are never forgotten, and all are recorded if the loop comes to its end.
  abbrev Looped : List Migration → Schema T → Result (Unit {0}) → Schema T → Type 0
  Looped ms s (ok _) s' = Recorded ms s s'
  Looped ms s (err e) s' = Within s.versions s'.versions

  one_of_each-Looped :
      (applied : List ℕ) (m : Migration) (s : Schema T)
      → Within applied s.versions
      → Ends
          (if has_version m.version applied then pure tt else migrate run_sql m)
          s
          (Looped (m ∷ []) s)
  one_of_each-Looped applied m s w =
      Ends-if (has_version m.version applied) _ _ s _
        (λ known. Ends-pure _ s _ (Skipped-Recorded m s (w m.version known)))
        (λ _. Ends-weaken _ s _ (migrate-Migrated m s) loosened)
    where
      loosened :
          (r : Result (Unit {0})) (s' : Schema T) → Migrated m s r s' → Looped (m ∷ []) s r s'
      loosened (ok u) s' h = h
      loosened (err e) s' h = λ v k. rw h k

  apply_each-Looped :
      (applied : List ℕ) (ms : List Migration) (s : Schema T)
      → Within applied s.versions
      → Ends (apply_each run_sql applied ms) s (Looped ms s)
  unfolding apply_each
  apply_each-Looped applied [] s w =
      Ends-pure _ s _ (record { all_recorded = tt; none_forgotten = λ v k. k })
  apply_each-Looped applied (m ∷ ms) s w =
      Ends-then _ _ s (Looped (m ∷ []) s) _ (one_of_each-Looped applied m s w)
        (λ _ s1 one.
          Ends-weaken _ s1 _ (apply_each-Looped applied ms s1 (λ v k. one.none_forgotten v (w v k)))
            (joined s1 one))
        (λ e s1 h. h)
    where
      joined :
          (s1 : Schema T)
          → Recorded (m ∷ []) s s1
          → (r : Result (Unit {0})) (s' : Schema T) → Looped ms s1 r s'
          → Looped (m ∷ ms) s r s'
      joined s1 one (ok u) s' h = record {
        all_recorded = (h.none_forgotten m.version one.all_recorded.0, h.all_recorded);
        none_forgotten = λ v k. h.none_forgotten v (one.none_forgotten v k);
      }
      joined s1 one (err e) s' h = λ v k. h v (one.none_forgotten v k)

  apply_each_known :
      (applied : List ℕ) (ms : List Migration) (s : Schema T)
      → All (λ m. has_version m.version applied ≡ true) ms
      → apply_each run_sql applied ms s ≡ (ok tt, s)
  unfolding apply_each ◌>>=◌
  apply_each_known applied [] s h = refl
  apply_each_known applied (m ∷ ms) s h = rw h.0 (apply_each_known applied ms s h.1)

  -- After a run of the migrations that finished, with every script's effect whatever it is, a second
  -- run over the same files finishes and changes nothing.
  pub apply_migrations_again :
      (files : List SqlFile) (s s' : Schema T)
      → apply_migrations run_sql files s ≡ (ok tt, s')
      → apply_migrations run_sql files s' ≡ (ok tt, s')
  unfolding apply_migrations ◌>>=◌
  apply_migrations_again files s s' e =
      apply_each_known s'.versions (discover_migrations files) s' done.all_recorded
    where
      done : Recorded (discover_migrations files) s s'
      done =
          subst (λ r. Looped (discover_migrations files) s r.0 r.1) e
            (apply_each-Looped s.versions (discover_migrations files) s (λ v k. k)).at
