-- ===== src/Books/Inserts.antt =====
-- The inserts of app/credits/ledger.py, as rules for what holds after them.
use oldman_agent.Prelude.{ℕ, ◌+◌, String, [], ◌∷◌, ◌++◌}
use oldman_agent.Exec.Rules.{Wp, Wp-bind, Wp-raise_if, Wp-modify}
use oldman_agent.Books.{Books, CreditsTransaction, uuid4, insert_balance, insert_transaction}

pub Wp-uuid4 :
    (s : Books) (Q : String → Books → Type 0)
    → Q (s.fresh s.drawn) (record s { drawn = s.drawn + 1 })
    → Wp uuid4 s Q
unfolding uuid4
Wp-uuid4 s Q h = record { at = h }

pub Wp-insert_balance :
    (a : String) (n now : ℕ) (s : Books) (Q : Unit {0} → Books → Type 0)
    → Q tt (record s {
      balances = s.balances ++ record { agent_id = a; balance = n; last_updated = now } ∷ [];
    })
    → Wp (insert_balance a n now) s Q
unfolding insert_balance
Wp-insert_balance a n now s Q h = Wp-bind _ _ s Q (Wp-raise_if _ _ s _ λ _. Wp-modify _ s Q h)

pub Wp-insert_transaction :
    (t : CreditsTransaction) (s : Books) (Q : Unit {0} → Books → Type 0)
    → Q tt (record s { transactions = s.transactions ++ t ∷ [] })
    → Wp (insert_transaction t) s Q
unfolding insert_transaction
Wp-insert_transaction t s Q h =
    Wp-bind _ _ s Q
      (Wp-raise_if _ _ s _ λ _. Wp-bind _ _ s Q (Wp-raise_if _ _ s _ λ _. Wp-modify _ s Q h))

pub ruleset insert_rules = (Wp-uuid4, Wp-insert_balance, Wp-insert_transaction)
