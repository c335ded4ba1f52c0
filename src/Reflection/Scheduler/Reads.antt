-- ===== src/Reflection/Scheduler/Reads.antt =====
-- The reads of a reflection write nothing.
use oldman_agent.Prelude.{ℕ, String, ◌≡◌, refl, sym, Option, none, Option-cases, inl, inr}
use mathlib.Core.Path.{subst}
use oldman_agent.Exec.{Exec, Error, Result, ok, err, ◌>>=◌}
use oldman_agent.Exec.Ends.{Ends, Ends-pure, Ends-raise, Ends-gets, Ends-bind, Ends-then}
use oldman_agent.Archive.{Archive, Scope, agent_scope, pair_scope, society_scope}
use oldman_agent.Reflection.Pair.{split_pair, unpack_pair}
use oldman_agent.Reflection.State.{count_events_since, get_trigger_state}
use oldman_agent.Reflection.Scheduler.{recent_rows, fetch_recent_events}

-- An error is only that of a subject without a colon.
abbrev pub Blames : {A : Type 0} → String → Result A → Type 0
Blames subject (ok a) = Unit
Blames subject (err e) = split_pair subject ≡ none

-- Nothing is written.
abbrev pub ReadsOnly : {A : Type 0} → String → Archive → Result A → Archive → Type 0
ReadsOnly subject before r after = (after ≡ before) × Blames subject r

module _ {A : Type 0} where
  pub Ends-parts :
      (fault : Error) (subject : String) (f : String × String → Exec Archive A) (s : Archive)
      (Q : Result A → Archive → Type 0)
      → (split_pair subject ≡ none → Q (err fault) s)
      → ((parts : String × String) → Ends (f parts) s Q)
      → Ends (unpack_pair fault (split_pair subject) >>= f) s Q
  Ends-parts fault subject f s Q h k = elim (Option-cases (split_pair subject)) [
    | inl missing ↦ rw missing (Ends-bind _ _ s _ (Ends-raise _ s _ (h missing)))
    | inr (parts, found) ↦ rw found (Ends-bind _ _ s _ (Ends-pure _ s _ (k parts)))
  ]

count_events_since-ReadsOnly :
    (scope : Scope) (subject : String) (since : Option ℕ) (s : Archive)
    → Ends (count_events_since scope subject since) s (ReadsOnly subject s)
unfolding count_events_since
count_events_since-ReadsOnly agent_scope subject since s = Ends-gets _ s _ (refl, tt)
count_events_since-ReadsOnly pair_scope subject since s =
    Ends-parts _ subject _ s _ (λ h. (refl, h)) (λ parts. Ends-gets _ s _ (refl, tt))
count_events_since-ReadsOnly society_scope subject since s = Ends-gets _ s _ (refl, tt)

module _ {A B : Type 0} where
  -- A call that reads, and what follows it.
  pub Ends-read :
      (subject : String) (m : Exec Archive A) (f : A → Exec Archive B) (s : Archive)
      (Q : Result B → Archive → Type 0)
      → Ends m s (ReadsOnly subject s)
      → ((a : A) → Ends (f a) s Q)
      → ((e : Error) → split_pair subject ≡ none → Q (err e) s)
      → Ends (m >>= f) s Q
  Ends-read subject m f s Q h k l =
      Ends-then m f s _ Q h (λ a s' p. subst (λ t. Ends (f a) t Q) (sym p.0) (k a))
        (λ e s' p. subst (λ t. Q (err e) t) (sym p.0) (l e p.1))

pub get_trigger_state-ReadsOnly :
    (scope : Scope) (subject : String) (s : Archive)
    → Ends (get_trigger_state scope subject) s (ReadsOnly subject s)
unfolding get_trigger_state
get_trigger_state-ReadsOnly scope subject s = Ends-bind _ _ s _ (
    Ends-gets _ s _ (
      Ends-read subject _ _ s _ (count_events_since-ReadsOnly scope subject _ s)
        (λ count. Ends-pure _ s _ (refl, tt)) (λ e h. (refl, h))))

recent_rows-ReadsOnly :
    (scope : Scope) (subject : String) (n : ℕ) (s : Archive)
    → Ends (recent_rows scope subject n) s (ReadsOnly subject s)
recent_rows-ReadsOnly agent_scope subject n s = Ends-gets _ s _ (refl, tt)
recent_rows-ReadsOnly pair_scope subject n s =
    Ends-parts _ subject _ s _ (λ h. (refl, h)) (λ parts. Ends-gets _ s _ (refl, tt))
recent_rows-ReadsOnly society_scope subject n s = Ends-gets _ s _ (refl, tt)

pub fetch_recent_events-ReadsOnly :
    (scope : Scope) (subject : String) (n : ℕ) (s : Archive)
    → Ends (fetch_recent_events scope subject n) s (ReadsOnly subject s)
unfolding fetch_recent_events
fetch_recent_events-ReadsOnly scope subject n s =
    Ends-read subject _ _ s _ (recent_rows-ReadsOnly scope subject n s)
      (λ rows. Ends-pure _ s _ (refl, tt)) (λ e h. (refl, h))
